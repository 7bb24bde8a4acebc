-- ===== src/Codec/Blocks.antt =====
-- Blocks that are compressed and decompressed, and the adaptive memory of codec.go behind reports.
use vextra.Base.{
  ℕ, zero, suc, ◌+◌, ◌/◌, ◌%◌, ◌^◌, ◌≤◌, ◌<◌, ◌≡◌, refl, ◌∙◌, inl, inr, Bool, true, false, Option,
  some, List, [], ◌∷◌, ◌++◌, arith, ltb, Option-cases, length, replicate, take_all, Text,
}
use vextra.Base.Int.{pos}
use vextra.Base.Result.{ok}
use vextra.Codec.{compress_block, decompress_block, max_frame, CompState, should_try, report}

-- If `inflate` undoes `deflate`, a block of at most 256 MiB that was compressed is decompressed to
-- itself, and its compressed form is at least a tenth of its size smaller.
pub decompress_block-compress_block :
    (deflate : Text → Option Text) (inflate : Text → Text) (src out : Text)
    → ((xs ys : Text) → deflate xs ≡ some ys → inflate ys ≡ xs)
    → length src ≤ max_frame
    → compress_block deflate src ≡ some out
    → (decompress_block inflate out (pos (length src)) ≡ ok src)
      × (length out + length src / 10 < length src)
unfolding compress_block decompress_block
decompress_block-compress_block deflate inflate src out undo fits h =
    elim (Option-cases (deflate src)) [
      | inl e ↦ ground arith
      | inr (ys, e) ↦ ground (arith, undo src ys e, take_all (length src) src (omega arith))
    ]

-- The state after a list of reports, the first one first.
abbrev pub after_reports : CompState → List Bool → CompState
after_reports c [] = c
after_reports c (r ∷ rs) = after_reports (report c r) rs

after_misses :
    (n : ℕ) (c : CompState) → c + n < 2 ^ 31 → after_reports c (replicate n false) ≡ c + n
unfolding report
after_misses zero c h = omega arith
after_misses (suc n) c h = after_misses n ((c + 1) % 2 ^ 32) (omega arith) ∙ omega arith

after_reports-append :
    (c : CompState) (xs ys : List Bool)
    → after_reports c (xs ++ ys) ≡ after_reports (after_reports c xs) ys
after_reports-append c [] ys = refl
after_reports-append c (x ∷ xs) ys = after_reports-append (report c x) xs ys

-- Whatever was reported before: a success lets the next block be tried, and one miss behind it
-- too, but from the second miss in a row on nothing is tried (for fewer than 2 ^ 31 misses).
pub should_try-after_reports :
    (before : List Bool) (c : CompState) (n : ℕ)
    → n < 2 ^ 31
    → should_try (after_reports c (before ++ (true ∷ replicate n false))) ≡ ltb n 2
unfolding should_try
should_try-after_reports before c n h =
    let e : after_reports c (before ++ (true ∷ replicate n false)) ≡ 0 + n =
      after_reports-append c before (true ∷ replicate n false)
      ∙ report_true (after_reports c before)
      ∙ after_misses n 0 (omega arith) in
    rw e (ground arith)
  where
    report_true :
        (d : CompState)
        → after_reports d (true ∷ replicate n false) ≡ after_reports 0 (replicate n false)
    report_true d = unfold report in refl
