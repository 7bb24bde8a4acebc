-- ===== src/Delta/Blocks.antt =====
-- The blocks of a file, as the specification of the signatures: block `i` of `bs` bytes.
use vextra.Base.{
  ℕ, zero, suc, ◌+◌, ◌-◌, ◌*◌, ◌/◌, ◌≤◌, ◌<◌, ◌≡◌, List, [], ◌∷◌, none, some, arith, ap, Text, ltb,
  if◌then◌else◌, get_elem?, take, drop,
}

-- Block `i` of a file: what `ReadAt` returns for its offset and its size.
abbrev pub block : ℕ → Text → ℕ → Text
block bs xs i = take bs (drop (i * bs) xs)

-- The number of blocks of a file; the last one may be short.
abbrev pub block_count : ℕ → ℕ → ℕ
block_count size bs = (size + bs - 1) / bs

pub block_count_bounds :
    (size bs : ℕ)
    → 0 < bs
    → (size ≤ block_count size bs * bs) × (block_count size bs * bs < size + bs)
block_count_bounds size bs h = (omega arith, omega arith)

pub drop-drop : (m n : ℕ) (xs : Text) → drop m (drop n xs) ≡ drop (n + m) xs
drop-drop m zero xs = let e : zero + m ≡ m = omega arith in ap (λ k. drop k xs) (omega arith)
drop-drop zero (suc n) [] = let e : suc n + 0 ≡ suc (n + 0) = omega arith in ground arith
drop-drop (suc m) (suc n) [] = let e : suc n + suc m ≡ suc (n + suc m) = omega arith in ground arith
drop-drop m (suc n) (x ∷ xs) =
    let e : suc n + m ≡ suc (n + m) = omega arith in ground (arith, drop-drop m n xs)

module _ (hash : Text → Text) (bs : ℕ) where
  -- The digests of `n` blocks from the start of a text.
  abbrev pub hash_blocks : ℕ → Text → List Text
  hash_blocks zero xs = []
  hash_blocks (suc n) xs = hash (take bs xs) ∷ hash_blocks n (drop bs xs)

  pub get_elem?-hash_blocks :
      (n : ℕ) (xs : Text) (i : ℕ)
      → get_elem? (hash_blocks n xs) i ≡ (if ltb i n then some (hash (block bs xs i)) else none)
  get_elem?-hash_blocks zero xs i = ground arith
  get_elem?-hash_blocks (suc n) xs zero = let e : zero * bs ≡ 0 = omega arith in ground arith
  get_elem?-hash_blocks (suc n) xs (suc i) =
      let e : suc i * bs ≡ bs + i * bs = omega arith in
      ground (arith, get_elem?-hash_blocks n (drop bs xs) i, drop-drop (i * bs) bs xs)
