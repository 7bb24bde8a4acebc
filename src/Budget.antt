-- ===== src/Budget.antt =====
-- `byteSem` of util.go: a budget of bytes in flight. Each section that holds the lock is one step of
-- the goroutines; a waiting goroutine makes no step. Amounts are not negative.
pub mod Kept
use vextra.Base.{ℕ, ◌+◌, ◌-◌, ◌≡◌, Bool, true, false, not, List, [], ◌∷◌, ◌++◌, ltb, if◌then◌else◌}
use vextra.Base.Int.{ℤ, pos, negsuc, ltb_ℤ, pos_part}

pub record ByteSem : Type 0 where
  pub avail : ℕ
  pub cap : ℕ

-- `newByteSem`
unfoldable pub new_byte_sem : ℤ → ByteSem
new_byte_sem n =
    let n' = if ltb_ℤ n (pos 1) then 1 else pos_part n in record { avail = n'; cap = n' }

-- The first test of `acquire`.
abbrev pub clip : ℕ → ByteSem → ℕ
clip n s = if ltb s.cap n then s.cap else n

-- The loop of `acquire` goes on waiting.
abbrev pub must_wait : ℕ → ByteSem → Bool
must_wait n s = ltb s.avail (clip n s)

-- The rest of `acquire`; the amount is `clip n s`.
unfoldable pub acquire : ℕ → ByteSem → ByteSem
acquire n s = record s { avail = s.avail - clip n s }

unfoldable pub release : ℕ → ByteSem → ByteSem
release n s = record s { avail = s.avail + n }

-- The semaphore, and the amounts that goroutines hold: what `acquire` returned, until they release it.
pub record Budget : Type 0 where
  pub sem : ByteSem
  pub held : List ℕ

abbrev pub fresh_budget : ℤ → Budget
fresh_budget n = record { sem = new_byte_sem n; held = [] }

pub data SemStep : Budget → Budget → Type 0 where
  acquired :
      (n : ℕ) (s : ByteSem) (held : List ℕ)
      → must_wait n s ≡ false
      → SemStep
          (record { sem = s; held = held })
          (record { sem = acquire n s; held = clip n s ∷ held })
  released :
      (n : ℕ) (s : ByteSem) (before after : List ℕ)
      → SemStep
          (record { sem = s; held = before ++ (n ∷ after) })
          (record { sem = release n s; held = before ++ after })

-- What the goroutines reach from a budget of so many bytes.
pub data SemReach (bytes : ℤ) : Budget → Type 0 where
  begun : SemReach bytes (fresh_budget bytes)
  stepped : {a b : Budget} → SemReach bytes a → SemStep a b → SemReach bytes b
