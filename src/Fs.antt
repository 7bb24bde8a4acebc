-- ===== src/Fs.antt =====
-- The interfaces `FS` and `Writer` of fs.go over a world `S`: each call may change the world, and
-- returns a value or an error. A `Writer` is a handle of type `H`.
use vextra.Base.{ℕ, Bool, List, Text}
use vextra.Base.Int.{ℤ}
use vextra.Base.Result.{M}
use vextra.Entry.{Entry}
use vextra.Delta.{Sigs}

pub record Fs (S H : Type 0) : Type 0 where
  pub stat : Text → Bool → M S Entry
  pub list : Text → Bool → M S (List Entry)
  pub mkdir : Text → ℕ → M S (Unit {0})
  pub remove : Text → Bool → M S (Unit {0})
  pub rename : Text → Text → M S (Unit {0})
  pub symlink : Text → Text → M S (Unit {0})
  pub set_meta : Text → ℕ → ℤ → M S (Unit {0})
  pub sigs : Text → Text → ℤ → M S Sigs
  pub read_at : Text → ℤ → ℤ → M S Text
  pub begin : Text → Text → ℤ → Bool → M S H
  -- the methods of `Writer`
  pub write_at : H → Text → ℤ → M S (Unit {0})
  pub commit : H → Text → ℕ → ℤ → M S (Unit {0})
  pub abort : H → S → S
  pub home : Text
