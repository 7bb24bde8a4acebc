-- ===== src/Util/Scaled.antt =====
-- The units of `humanBytes`.
use vextra.Base.{
  ℕ, zero, suc, ◌+◌, ◌*◌, ◌/◌, ◌^◌, ◌≤◌, ◌<◌, ◌≡◌, refl, inl, inr, true, some, ◌∷◌, ◌++◌, arith,
  ltb, Bool-cases, get_elem?_lt, Text, codes,
}
use vextra.Util.{scale_loop, human_bytes}

-- So many more units fit.
abbrev units : ℕ → ℕ
units zero = 1
units (suc n) = 1024 * units n

-- What the loop gives is a power of the unit, of at most so many units more.
scale_loop-units :
    (fuel m e k : ℕ)
    → m < 1024 * units k
    → k < fuel
    → let (div, exp) = scale_loop fuel m (units (suc e)) e in
      (exp ≤ e + k) × (div ≡ units (suc exp))
unfolding scale_loop
scale_loop-units zero m e k h l = absurd (omega arith)
scale_loop-units (suc n) m e zero h l =
    let small : ltb m 1024 ≡ true = ground arith in rw small (omega arith, refl)
scale_loop-units (suc n) m e (suc k) h l =
    let more = scale_loop-units n (m / 1024) (suc e) k (omega arith) (omega arith) in
    elim (Bool-cases (ltb m 1024)) [
      | inl c ↦ rw c (omega arith, refl)
      | inr c ↦
          let d : units (suc e) * 1024 ≡ units (suc (suc e)) = omega arith in
          let f : e + 1 ≡ suc e = omega arith in rw (c, d, f) (omega (arith, more.0), more.1)
    ]

-- The letter of the unit of a size of fewer than 2 ^ 63 bytes is one of the letters: a size is printed.
pub human_bytes-some :
    (decimal : ℕ → Text) (tenths : ℕ → ℕ → Text) (n : ℕ)
    → n < 2 ^ 63
    → (t : Text) × (human_bytes decimal tenths n ≡ some t)
unfolding human_bytes
human_bytes-some decimal tenths n h =
    let scaled = scale_loop 7 (n / 1024) 1024 0 in
    let letters = codes "KMGTPE" in
    let bound = scale_loop-units 7 (n / 1024) 0 5 (omega arith) (omega arith) in
    let (c, e) = get_elem?_lt letters (scaled.1) (omega (arith, bound.0)) in
    elim (Bool-cases (ltb n 1024)) [
      | inl s ↦ rw s (decimal n ++ codes " B", refl)
      | inr s ↦ rw (s, e) (tenths n (scaled.0) ++ (b' ' ∷ c ∷ codes "iB"), refl)
    ]
