-- ===== src/Delta/Restore.antt =====
-- The selected blocks of a source, written over the file that the destination's signatures were
-- taken from.
use vextra.Base.{
  ℕ, ◌+◌, ◌-◌, ◌*◌, ◌/◌, ◌≤◌, ◌<◌, String, ◌≡◌, sym, ap, ◌∙◌, ◌⊎◌, inl, inr, true, some, List,
  arith, Bool-cases, length, get_elem?, get_elem?_lt, eq_of_get_elem?, Text,
}
use vextra.Delta.{Sigs, no_sigs, diff_blocks}
use vextra.Delta.Blocks.{block, block_count, block_count_bounds, get_elem?-hash_blocks}
use vextra.Delta.Signs.{sigs_of}
use vextra.Delta.Diff.{has, SameAt, unselected-SameAt}
use vextra.Delta.Patch.{
  patch, patch-Agrees, truncate, length-truncate, get_elem?-truncate, Agrees, get_elem?-read_at,
  get_elem?-some_lt,
}

-- The hash tells apart every two blocks of the two files that stand at one position.
abbrev pub NoCollision : (Text → Text) → ℕ → Text → Text → Type 0
NoCollision hash bs xs base =
    (i : ℕ) → hash (block bs xs i) ≡ hash (block bs base i) → block bs xs i ≡ block bs base i

-- The destination's signatures belong to the bytes that the writes start from. There may be none.
pub data Describes (hash : Text → Text) (bs : ℕ) (base : Text) (ds : Sigs) : Type 0 where
  absent : ds ≡ no_sigs → Describes hash bs base ds
  present : (kind : String) → ds ≡ sigs_of hash base bs kind → Describes hash bs base ds

module _ (hash : Text → Text) (bs : ℕ) (xs base : Text) where
  block_of_byte :
      (i : ℕ)
      → 0 < bs
      → i < length xs
      → get_elem? (sigs_of hash xs bs "final").blocks (i / bs) ≡ some (hash (block bs xs (i / bs)))
  block_of_byte i p l =
      let c = block_count_bounds (length xs) bs p in
      let lo : i / bs * bs ≤ i = omega arith in
      let h : i / bs < block_count (length xs) bs = grind (arith, c) in
      ground (arith, get_elem?-hash_blocks hash bs (block_count (length xs) bs) xs (i / bs))

  -- Equal digests at the position of a byte: the base holds the source's byte.
  SameAt-Agrees :
      (ds : Sigs) (i : ℕ)
      → 0 < bs
      → i < length xs
      → NoCollision hash bs xs base
      → Describes hash bs base ds
      → SameAt ds (i / bs) (hash (block bs xs (i / bs)))
      → Agrees xs base i
  SameAt-Agrees ds i p l nc (absent e) (ex, same) = cc (e, ex)
  SameAt-Agrees ds i p l nc (present kind e) (ex, same) =
      let b = i / bs in
      let lo : b * bs ≤ i = omega arith in
      let hi : i < b * bs + bs = omega arith in
      let listed : get_elem? (sigs_of hash base bs kind).blocks b ≡ some (hash (block bs xs b)) =
        ap (λ (s : Sigs). get_elem? s.blocks b) (sym e) ∙ same in
      let one : hash (block bs xs b) ≡ hash (block bs base b) =
        ground
          (arith, listed, get_elem?-hash_blocks hash bs (block_count (length base) bs) base b) in
      sym (get_elem?-read_at base (b * bs) bs i lo hi)
      ∙ ap (λ t. get_elem? t (i - b * bs)) (sym (nc b one))
      ∙ get_elem?-read_at xs (b * bs) bs i lo hi

  -- Let the block size be positive, let the destination's signatures be none, or those of the bytes
  -- `base` that the writes start from, and let the hash tell apart the blocks of source and base at
  -- each position. Then writing the source's blocks at a list of indices that holds at least those
  -- of `diffBlocks`, in any order and with any repetition, and cutting the file to the source's
  -- size, gives the source.
  pub patch-diff_blocks :
      (ds : Sigs) (sent : List ℕ)
      → 0 < bs
      → NoCollision hash bs xs base
      → Describes hash bs base ds
      → ((i : ℕ)
          → has i (diff_blocks (sigs_of hash xs bs "final") ds bs (length xs)).0 ≡ true
          → has i sent ≡ true)
      → truncate (patch bs xs sent base) (length xs) ≡ xs
  patch-diff_blocks ds sent p nc desc covers =
      eq_of_get_elem? _ xs (length-truncate (patch bs xs sent base) (length xs)) λ i l.
        let l' : i < length xs =
          omega (arith, length-truncate (patch bs xs sent base) (length xs)) in
        let right = patch-Agrees bs xs sent base i p l' (origin i l') in
        let found = get_elem?_lt xs i l' in
        get_elem?-truncate (patch bs xs sent base) (length xs) i l'
          (get_elem?-some_lt (patch bs xs sent base) i (right ∙ found.1))
        ∙ right
    where
      origin : (i : ℕ) → i < length xs → Agrees xs base i ⊎ (has (i / bs) sent ≡ true)
      origin i l =
          elim (Bool-cases
            (has (i / bs) (diff_blocks (sigs_of hash xs bs "final") ds bs (length xs)).0)) [
              | inl yes' ↦ inr (covers (i / bs) yes')
              | inr no' ↦ inl (
                  SameAt-Agrees ds i p l nc desc (
                    unselected-SameAt (sigs_of hash xs bs "final") ds bs (length xs) (i / bs) _
                      (block_of_byte i p l) no'))
            ]
