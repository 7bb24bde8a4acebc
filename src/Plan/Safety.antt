-- ===== src/Plan/Safety.antt =====
-- The safeguards on deletions.
use vextra.Base.{ℕ, ◌≡◌, ◌↔◌, ◌⊎◌, true, false, some, arith}
use vextra.Base.Int.{◌≤ℤ◌, ◌<ℤ◌, pos}
use vextra.Base.Result.{Err, ok, err}
use vextra.Plan.{Plan, Options, check_safety}

-- Both limits allow so many deletions.
pub record Allowed (n : ℕ) (o : Options) : Type 0 where
  pub within : (o.max_delete <ℤ pos 0) ⊎ (pos n ≤ℤ o.max_delete)
  pub confirmed : (o.confirm_mass ≡ false) ⊎ ((pos n <ℤ o.confirm_over) ⊎ (o.confirm ≡ some true))

-- The plan passes exactly when it deletes nothing, or when the number of deletions is within
-- `max_delete` (a negative one is no limit) and, where mass deletions want a confirmation and the
-- number reaches `confirm_over`, the confirmation was given. Otherwise it fails by `ErrSafety`.
pub check_safety-Allowed :
    (p : Plan) (o : Options)
    → ((check_safety p o ≡ ok tt) ↔ ((p.deletes ≡ 0) ⊎ Allowed p.deletes o))
      × ((check_safety p o ≡ ok tt) ⊎ (check_safety p o ≡ err Err.safety))
unfolding check_safety
check_safety-Allowed p o = ground arith
