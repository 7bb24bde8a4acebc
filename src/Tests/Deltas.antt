-- ===== src/Tests/Deltas.antt =====
-- Block sizes, signatures, deltas and compression at concrete data.
use vextra.Base.{
  ℕ, ◌≤◌, ◌<◌, ◌≡◌, refl, ◌↔◌, ◌⊎◌, true, false, Option, none, some, List, [], ◌∷◌, arith,
  if◌then◌else◌, get_elem?, replicate, Text, text_eq, eq_of_text_eq,
}
use vextra.Base.Int.{pos}
use vextra.Base.Result.{ok}
use vextra.Delta.{Sigs, block_size_for, diff_blocks, differs, compute_sigs}
use vextra.Delta.BlockSize.{IsAdaptive, block_size_for_lem}
use vextra.Delta.Signs.{sigs_of, compute_sigs_lem}
use vextra.Delta.Diff.{has, SameAt, bytes_of, diff_blocks_iff, diff_blocks_total}
use vextra.Delta.Patch.{patch, truncate}
use vextra.Delta.Restore.{present, patch-diff_blocks}

-- The hash of a block is the block.
abbrev plain_hash : Text → Text
plain_hash t = t

abbrev new_text : Text
new_text = 1 ∷ 2 ∷ 3 ∷ []

abbrev old_text : Text
old_text = 1 ∷ 9 ∷ 3 ∷ 4 ∷ []

abbrev old_sigs : Sigs
old_sigs = sigs_of plain_hash old_text 2 "final"

abbrev wanted : List ℕ
wanted = (diff_blocks (sigs_of plain_hash new_text 2 "final") old_sigs 2 3).0

wanted_lem : wanted ≡ 0 ∷ 1 ∷ []
unfolding diff_blocks differs text_eq
wanted_lem = refl

patch-diff_blocks_example : truncate (patch 2 new_text (1 ∷ wanted) old_text) 3 ≡ new_text
patch-diff_blocks_example =
    patch-diff_blocks plain_hash 2 new_text old_text old_sigs (1 ∷ wanted) (omega arith) (λ i h. h)
      (present "final" refl) (λ i h. ground arith)

compute_sigs_lem_example :
    compute_sigs plain_hash (record { rest = new_text; fails = false }) 2 "final"
    ≡ some (ok (sigs_of plain_hash new_text 2 "final"))
compute_sigs_lem_example =
    compute_sigs_lem plain_hash (record { rest = new_text; fails = false }) 2 "final"

diff_blocks_iff_example :
    (has 0 (diff_blocks (sigs_of plain_hash new_text 2 "final") old_sigs 2 3).0 ≡ true) ↔ (
      (d : Text) × (get_elem? (sigs_of plain_hash new_text 2 "final").blocks 0 ≡ some d)
      × (¬ SameAt old_sigs 0 d))
diff_blocks_iff_example = diff_blocks_iff (sigs_of plain_hash new_text 2 "final") old_sigs 2 3 0

diff_blocks_total_example :
    let r = diff_blocks (sigs_of plain_hash new_text 2 "final") old_sigs 2 3 in
    (r.1 ≡ pos (bytes_of 2 new_text r.0)) × (bytes_of 2 new_text r.0 ≤ 3)
diff_blocks_total_example = diff_blocks_total plain_hash new_text old_sigs 2 "final" (omega arith)

abbrev adaptive : ℕ
adaptive = 0

block_size_for_lem_example :
    ((0 < adaptive) × (block_size_for 100000000 adaptive ≡ adaptive))
    ⊎ ((adaptive ≡ 0) × IsAdaptive 100000000 (block_size_for 100000000 adaptive))
block_size_for_lem_example = block_size_for_lem 100000000 adaptive

-- A text of 600 zeros is written as nothing at all.
abbrev zeros : Text
zeros = replicate 600 0

abbrev shrink : Text → Option Text
shrink t = if text_eq t zeros then some [] else none

abbrev unshrink : Text → Text
unshrink t = zeros

unshrink-shrink : (xs ys : Text) → shrink xs ≡ some ys → unshrink ys ≡ xs
unshrink-shrink xs ys h = ground (arith, eq_of_text_eq xs zeros)
