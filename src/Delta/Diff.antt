-- ===== src/Delta/Diff.antt =====
-- Which blocks `diffBlocks` of engine.go selects, and how many bytes it counts for them.
use vextra.Base.{
  ℕ, zero, suc, ◌+◌, ◌-◌, ◌*◌, ◌≤◌, ◌<◌, String, ◌≡◌, refl, ◌∙◌, ◌↔◌, inl, inr, Bool, true, false,
  Option, none, some, List, [], ◌∷◌, arith, ltb, ◌==◌, if◌then◌else◌, Bool-cases, Option-cases,
  length, get_elem?, drop, any, length-take, length-drop, Text, text_eq_refl, text_eq_iff,
}
use vextra.Base.Int.{pos, ◌+ℤ◌, ◌-ℤ◌}
use native.Mathlib.Decide.{dec_lt}
use vextra.Delta.{Sigs, min_ℤ, differs, diff_loop, diff_blocks}
use vextra.Delta.Blocks.{hash_blocks, drop-drop, block, block_count, block_count_bounds}
use mathlib.Core.Path.{subst}
use vextra.Delta.Signs.{sigs_of}

-- `i` is one of the indices.
abbrev pub has : ℕ → List ℕ → Bool
has i = any (λ j. j == i)

-- What the loop decides for an index that holds a block or none.
wanted : Sigs → ℕ → Option Text → Bool
wanted ds i none = false
wanted ds i (some d) = differs ds i d

has-diff_loop :
    (ds : Sigs) (bs size k : ℕ) (blocks : List Text) (i : ℕ)
    → has i (diff_loop ds bs size k blocks).0
      ≡ (if ltb i k then false else wanted ds i (get_elem? blocks (i - k)))
unfolding diff_loop wanted
has-diff_loop ds bs size k [] i = ground arith
has-diff_loop ds bs size k (d ∷ blocks) i = elim (dec_lt k i) [
  | yes h ↦
      let e : i - k ≡ suc (i - (k + 1)) = omega arith in
      rw e (ground (arith, has-diff_loop ds bs size (k + 1) blocks i))
  | no h ↦ elim (dec_lt i k) [
    | yes l ↦ ground (arith, has-diff_loop ds bs size (k + 1) blocks i)
    | no l ↦
        let e : i - k ≡ 0 = omega arith in
        let e' : i ≡ k = omega arith in
        rw e (ground (arith, has-diff_loop ds bs size (k + 1) blocks i))
  ]
]

-- Block `i` of `ss`, with digest `d`, is at the same position of `ds` too.
abbrev pub SameAt : Sigs → ℕ → Text → Type 0
SameAt ds i d = (ds.exists ≡ true) × (get_elem? ds.blocks i ≡ some d)

differs-SameAt : (ds : Sigs) (i : ℕ) (d : Text) → differs ds i d ≡ false → SameAt ds i d
unfolding differs
differs-SameAt ds i d h = elim (Option-cases (get_elem? ds.blocks i)) [
  | inl e ↦ ground (arith, e)
  | inr p ↦ ground (arith, p.1, text_eq_iff p.0 d)
]

SameAt-differs : (ds : Sigs) (i : ℕ) (d : Text) → SameAt ds i d → differs ds i d ≡ false
unfolding differs
SameAt-differs ds i d (e, g) = ground (arith, text_eq_refl d)

wanted_iff :
    (ds : Sigs) (i : ℕ) (o : Option Text)
    → (wanted ds i o ≡ true) ↔ ((d : Text) × (o ≡ some d) × (¬ SameAt ds i d))
unfolding wanted
wanted_iff ds i none = (λ h. cc, λ p. cc (p.1))
wanted_iff ds i (some d) = (
  λ h. (d, refl, λ same. cc (h, SameAt-differs ds i d same)),
  λ p. elim (Bool-cases (differs ds i d)) [
    | inl h ↦ h
    | inr h ↦
        let e : d ≡ p.0 = cc (p.1) in absurd (p.2 (subst (SameAt ds i) e (differs-SameAt ds i d h)))
  ],
)

has-diff_blocks :
    (ss ds : Sigs) (bs size i : ℕ)
    → has i (diff_blocks ss ds bs size).0 ≡ wanted ds i (get_elem? ss.blocks i)
unfolding diff_blocks
has-diff_blocks ss ds bs size i =
    let e : i - 0 ≡ i = omega arith in has-diff_loop ds bs size 0 ss.blocks i ∙ rw e (ground arith)

-- An index is selected exactly when the source has a block there and the destination has not the
-- same digest at that position. So what is not selected has the same digest on both sides.
pub diff_blocks_iff :
    (ss ds : Sigs) (bs size i : ℕ)
    → (has i (diff_blocks ss ds bs size).0 ≡ true)
      ↔ ((d : Text) × (get_elem? ss.blocks i ≡ some d) × (¬ SameAt ds i d))
diff_blocks_iff ss ds bs size i = rw has-diff_blocks (wanted_iff ds i (get_elem? ss.blocks i))

pub unselected-SameAt :
    (ss ds : Sigs) (bs size i : ℕ) (d : Text)
    → get_elem? ss.blocks i ≡ some d
    → has i (diff_blocks ss ds bs size).0 ≡ false
    → SameAt ds i d
unfolding wanted
unselected-SameAt ss ds bs size i d e h =
    differs-SameAt ds i d (ground (arith, has-diff_blocks ss ds bs size i))

-- The bytes that the selected blocks of a text have together.
abbrev pub bytes_of : ℕ → Text → List ℕ → ℕ
bytes_of bs xs [] = 0
bytes_of bs xs (i ∷ is) = length (block bs xs i) + bytes_of bs xs is

length-block :
    (bs i : ℕ) (xs : Text)
    → i * bs ≤ length xs
    → min_ℤ (pos bs) (pos (length xs) -ℤ pos (i * bs)) ≡ pos (length (block bs xs i))
unfolding ◌-ℤ◌
length-block bs i xs h = ground (arith, length-take bs (drop (i * bs) xs), length-drop (i * bs) xs)

diff_loop_total :
    (hash : Text → Text) (xs : Text) (ds : Sigs) (bs k n : ℕ)
    → (k + n) * bs < length xs + bs
    → let r = diff_loop ds bs (length xs) k (hash_blocks hash bs n (drop (k * bs) xs)) in
      (r.1 ≡ pos (bytes_of bs xs r.0)) × (bytes_of bs xs r.0 ≤ length xs - k * bs)
unfolding diff_loop ◌+ℤ◌
diff_loop_total hash xs ds bs k zero h = (refl, omega arith)
diff_loop_total hash xs ds bs k (suc n) h =
    let at : (k * bs) + bs ≡ (k + 1) * bs = omega arith in
    rw (drop-drop bs (k * bs) xs, at)
      (ground (
        arith,
        diff_loop_total hash xs ds bs (k + 1) n (omega arith),
        length-block bs k xs (omega arith),
        length-take bs (drop (k * bs) xs),
        length-drop (k * bs) xs,
      ))

-- For the signatures of a file, with a positive block size, the byte count is the number of bytes
-- of the selected blocks, and at most the size of the file.
pub diff_blocks_total :
    (hash : Text → Text) (xs : Text) (ds : Sigs) (bs : ℕ) (kind : String)
    → 0 < bs
    → let r = diff_blocks (sigs_of hash xs bs kind) ds bs (length xs) in
      (r.1 ≡ pos (bytes_of bs xs r.0)) × (bytes_of bs xs r.0 ≤ length xs)
unfolding diff_blocks
diff_blocks_total hash xs ds bs kind h =
    let c = block_count_bounds (length xs) bs h in
    let z : 0 * bs ≡ 0 = omega arith in
    let r = diff_loop_total hash xs ds bs 0 (block_count (length xs) bs) (omega (arith, c.1)) in
    let q = rw z at r in (q.0, omega (arith, q.1))
