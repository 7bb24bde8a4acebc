-- ===== src/Delta/BlockSize.antt =====
-- The adaptive block size of `blockSizeFor`.
use native.Mathlib.Nat.{pow-suc}
use vextra.Base.{
  ℕ, zero, suc, ◌*◌, ◌/◌, ◌^◌, ◌≤◌, ◌<◌, ◌≡◌, ◌⊎◌, inl, inr, ◌&&◌, arith, refl, Bool-cases, ltb,
}
use vextra.Delta.{grow, block_size_for, min_block_size, max_block_size, target_blocks}

-- What the sizes that doubling from 64 KiB reaches have in common, and where the loop stops.
pub record IsAdaptive (size bs : ℕ) : Type 0 where
  at_least : min_block_size ≤ bs
  at_most : bs ≤ max_block_size
  enough : (bs ≡ max_block_size) ⊎ (size / target_blocks ≤ bs)
  tight : (bs ≡ min_block_size) ⊎ (bs < 2 * (size / target_blocks))
  power : (k : ℕ) × (bs ≡ 2 ^ k)

grow_power : (f want bs k : ℕ) → bs ≡ 2 ^ k → (j : ℕ) × (grow f want bs ≡ 2 ^ j)
unfolding grow
grow_power zero want bs k e = (k, e)
grow_power (suc f) want bs k e = elim (Bool-cases (ltb bs max_block_size && ltb bs want)) [
  | inl more ↦ rw more (grow_power f want (bs * 2) (suc k) (rw (e, pow-suc)))
  | inr done ↦ rw done (k, e)
]

grow_bounds :
    (want : ℕ)
    → let bs = grow 7 want min_block_size in
      (min_block_size ≤ bs)
      × (bs ≤ max_block_size)
      × ((bs ≡ max_block_size) ⊎ (want ≤ bs))
      × ((bs ≡ min_block_size) ⊎ (bs < 2 * want))
unfolding grow
grow_bounds want = ground arith

-- A fixed size is returned as it is. Without one the result is a power of two from 64 KiB to
-- 4 MiB; it is 4 MiB or at least a 512th of the file, and it is 64 KiB or half of it is less
-- than that.
pub block_size_for_lem :
    (size fixed : ℕ)
    → ((0 < fixed) × (block_size_for size fixed ≡ fixed))
      ⊎ ((fixed ≡ 0) × IsAdaptive size (block_size_for size fixed))
unfolding block_size_for
block_size_for_lem size zero =
    let b = grow_bounds (size / target_blocks) in
    inr (
      refl,
      record {
        at_least = b.0;
        at_most = b.1;
        enough = b.2;
        tight = b.3;
        power = grow_power 7 (size / target_blocks) min_block_size 16 refl;
      },
    )
block_size_for_lem size (suc n) = inl (omega arith, ground arith)
