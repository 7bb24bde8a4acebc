-- ===== src/Budget/Kept.antt =====
-- The budget of bytes in flight, in every state that the goroutines reach.
use vextra.Base.{ℕ, ◌+◌, ◌≡◌, refl, ap, ◌∙◌, ◌≢◌, true, List, [], ◌∷◌, ◌++◌, arith, if◌then◌else◌}
use vextra.Base.Int.{ℤ, pos, ltb_ℤ, pos_part}
use vextra.Budget.{
  Budget, SemStep, SemReach, acquired, released, begun, stepped, new_byte_sem, must_wait, acquire,
  release,
}

abbrev pub sum : List ℕ → ℕ
sum [] = 0
sum (n ∷ ns) = n + sum ns

sum-append : (ms ns : List ℕ) → sum (ms ++ ns) ≡ sum ms + sum ns
sum-append [] ns = omega arith
sum-append (m ∷ ms) ns = omega (arith, sum-append ms ns)

-- What is held and what is free is the whole budget, which is positive, and as large as was asked for.
record Whole (bytes : ℤ) (b : Budget) : Type 0 where
  total : sum b.held + b.sem.avail ≡ b.sem.cap
  capped : b.sem.cap ≡ (new_byte_sem bytes).cap

SemStep-Whole : (bytes : ℤ) {a b : Budget} → SemStep a b → Whole bytes a → Whole bytes b
unfolding acquire release
SemStep-Whole bytes (acquired n s held h) w = record {
  total = ground (arith, w.total, h);
  capped = w.capped;
}
SemStep-Whole bytes (released n s before after) w = record {
  total = omega (arith, w.total, sum-append before after, sum-append before (n ∷ after));
  capped = w.capped;
}

SemReach-Whole : (bytes : ℤ) {b : Budget} → SemReach bytes b → Whole bytes b
unfolding new_byte_sem
SemReach-Whole bytes begun = record { total = omega arith; capped = refl }
SemReach-Whole bytes (stepped r s) = SemStep-Whole bytes s (SemReach-Whole bytes r)

-- In every state that the goroutines reach, the bytes they hold and the free ones are together the
-- budget: the number asked for, or 1 if that is not positive. So no more bytes than that are in flight,
-- and a goroutine has to wait for bytes only while another one holds some.
pub SemReach-budget :
    (bytes : ℤ) (b : Budget)
    → SemReach bytes b
    → (sum b.held + b.sem.avail ≡ (if ltb_ℤ bytes (pos 1) then 1 else pos_part bytes))
      × ((n : ℕ) → must_wait n b.sem ≡ true → b.held ≢ [])
unfolding new_byte_sem
SemReach-budget bytes b r =
    let w = SemReach-Whole bytes r in
    (w.total ∙ w.capped, λ n h e. let z : sum b.held ≡ 0 = ap sum e in ground (arith, w.total, h))
