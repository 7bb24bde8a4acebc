-- ===== src/Conn/Kept.antt =====
-- What becomes of the calls of a connection.
use vextra.Base.{
  ℕ, ◌+◌, ◌%◌, ◌^◌, ◌≤◌, ◌<◌, ◌≡◌, refl, sym, ap, ◌∙◌, ◌≢◌, ◌⊎◌, inl, inr, Option, none, some, [],
  arith, ◌==◌, ==_iff, Bool-cases, none≢some,
}
use native.Mathlib.Decide.{dec_lt}
use vextra.Base.Result.{Err, Result, ok, err}
use vextra.Base.Dict.{Dict, nat_key, lookup, lookup-insert, lookup-erase}
use vextra.Wire.{Frame, Written}
use vextra.Conn.{
  CallOutcome, frame, closed, unsent, Conn, fail, open_with, after_send, deliver, read_round,
  end_call, Step, opens, sends, reads, closes, Reach, begins, next_step,
}
use vextra.Conn.Settled.{Inv, close_all-settled, dropped, Reach-Inv}

-- A call has been answered in some way.
abbrev IsSettled : ℕ → Conn → Type 0
IsSettled ch c = (o : CallOutcome) × (lookup ch c.chans ≡ some o)

abbrev IsWaiting : ℕ → Conn → Type 0
IsWaiting ch c = lookup (ch + 1) c.pending ≡ some ch

abbrev IsKept : ℕ → Conn → Type 0
IsKept ch c = IsSettled ch c ⊎ IsWaiting ch c

fail-IsSettled : (c : Conn) (ch : ℕ) → IsKept ch c → IsSettled ch (fail c)
unfolding fail
fail-IsSettled c ch (inl s) = close_all-settled c.pending c.chans ch (inl s)
fail-IsSettled c ch (inr w) = close_all-settled c.pending c.chans ch (inr (ch + 1, w))

open_with-IsKept :
    (e : Option Err) (c : Conn)
    → Inv c
    → (open_with e c).1.made < 2 ^ 32
    → ((ch : ℕ) → ch < c.made → IsKept ch c)
    → (ch : ℕ) → ch < (open_with e c).1.made
    → IsKept ch (open_with e c).1
unfolding open_with
open_with-IsKept (some e) c v few k ch h = k ch h
open_with-IsKept none c v few k ch h =
    let id = (c.next + 1) % 2 ^ 32 in
    elim (dec_lt ch c.made) [
      | yes lt ↦ elim (k ch lt) [
        | inl s ↦ inl s
        | inr w ↦ inr (ground (arith, lookup-insert id (ch + 1) c.made c.pending, v.counted))
      ]
      | no ge ↦ inr (ground (arith, lookup-insert id (ch + 1) c.made c.pending, v.counted))
    ]

dropped-IsKept :
    (k n : ℕ) (c : Conn) (ch : ℕ)
    → k + 1 < 2 ^ 32
    → IsKept ch c
    → IsKept ch (dropped ((k + 1) % 2 ^ 32) k n c)
dropped-IsKept k n c ch few h = elim (Bool-cases (k == ch)) [
  | inl e ↦ inl (unsent, lookup-insert k ch unsent c.chans ∙ rw e refl)
  | inr ne ↦ elim h [
    | inl s ↦ inl (s.0, lookup-insert k ch unsent c.chans ∙ rw ne s.1)
    | inr w ↦ inr (ground (arith, ==_iff k ch, lookup-erase ((k + 1) % 2 ^ 32) (ch + 1) c.pending))
  ]
]

after_send-IsKept :
    (k : ℕ) (w : Written) (c : Conn) (ch : ℕ)
    → k + 1 < 2 ^ 32
    → IsKept ch c
    → IsKept ch (after_send ((k + 1) % 2 ^ 32) k w c)
unfolding after_send
after_send-IsKept k w c ch few h = elim (Bool-cases w.done) [
  | inl e ↦ rw e h
  | inr e ↦ rw e (
      inl (
        fail-IsSettled (dropped ((k + 1) % 2 ^ 32) k w.count c) ch
          (dropped-IsKept k w.count c ch few h)))
]

deliver_kept :
    (f : Frame) (o : Option ℕ) (chans : Dict ℕ CallOutcome) (ch : ℕ)
    → (o ≡ some ch) ⊎ ((x : CallOutcome) × (lookup ch chans ≡ some x))
    → (x : CallOutcome) × (lookup ch (deliver f o chans) ≡ some x)
unfolding deliver
deliver_kept f none chans ch (inl e) = absurd (none≢some e)
deliver_kept f none chans ch (inr s) = s
deliver_kept f (some k) chans ch h = elim (Bool-cases (k == ch)) [
  | inl e ↦ (frame f, lookup-insert k ch (frame f) chans ∙ rw e refl)
  | inr ne ↦ elim h [
    | inl e ↦ absurd (ground (arith, ==_iff k ch))
    | inr s ↦ (s.0, lookup-insert k ch (frame f) chans ∙ rw ne s.1)
  ]
]

read_round-IsKept :
    (r : Result Frame) (c : Conn) (ch : ℕ) → IsKept ch c → IsKept ch (read_round r c)
unfolding read_round
read_round-IsKept (err e) c ch h = inl (fail-IsSettled c ch h)
read_round-IsKept (ok f) c ch (inl s) =
    inl (deliver_kept f (lookup f.id c.pending) c.chans ch (inr s))
read_round-IsKept (ok f) c ch (inr w) = elim (Bool-cases (f.id == ch + 1)) [
  | inl e ↦ inl (
      deliver_kept f (lookup f.id c.pending) c.chans ch
        (inl (ap (λ i. lookup i c.pending) ((==_iff f.id (ch + 1)).0 e) ∙ w)))
  | inr ne ↦ inr (lookup-erase f.id (ch + 1) c.pending ∙ rw ne w)
]

-- Only a new call makes a channel.
open_with_made : (e : Option Err) (c : Conn) → c.made ≤ (open_with e c).1.made
unfolding open_with
open_with_made (some e) c = omega arith
open_with_made none c = omega arith

after_send_made : (id ch : ℕ) (w : Written) (c : Conn) → (after_send id ch w c).made ≡ c.made
unfolding after_send fail
after_send_made id ch w c = elim (Bool-cases w.done) [ inl e ↦ rw e refl | inr e ↦ rw e refl ]

read_round_made : (r : Result Frame) (c : Conn) → (read_round r c).made ≡ c.made
unfolding read_round fail
read_round_made (err e) c = refl
read_round_made (ok f) c = refl

Step-made : {c d : Conn} → Step c d → c.made ≤ d.made
unfolding fail
Step-made (opens c) = open_with_made c.err c
Step-made (sends c j w g) = omega (arith, after_send_made ((j + 1) % 2 ^ 32) j w c)
Step-made (reads c r) = omega (arith, read_round_made r c)
Step-made (closes c) = omega arith

Step-IsKept :
    {c d : Conn}
    → Step c d
    → Inv c
    → d.made < 2 ^ 32
    → ((ch : ℕ) → ch < c.made → IsKept ch c)
    → (ch : ℕ) → ch < d.made
    → IsKept ch d
unfolding fail
Step-IsKept (opens c) v few k ch h = open_with-IsKept c.err c v few k ch h
Step-IsKept (sends c j w g) v few k ch h =
    let m = after_send_made ((j + 1) % 2 ^ 32) j w c in
    after_send-IsKept j w c ch (omega (arith, m)) (k ch (omega (arith, m)))
Step-IsKept (reads c r) v few k ch h =
    read_round-IsKept r c ch (k ch (omega (arith, read_round_made r c)))
Step-IsKept (closes c) v few k ch h = inl (fail-IsSettled c ch (k ch h))

Reach-IsKept : {c : Conn} → Reach c → c.made < 2 ^ 32 → (ch : ℕ) → ch < c.made → IsKept ch c
Reach-IsKept begins few ch h = absurd (omega (arith, h))
Reach-IsKept (next_step r s) few ch h =
    Step-IsKept s (Reach-Inv r) few (Reach-IsKept r (omega (arith, Step-made s))) ch h

end_call-settled : (ch : ℕ) (c : Conn) → IsSettled ch c → end_call ch c ≢ none
unfolding end_call
end_call-settled ch c (frame f, e) = rw (e, end_call) (λ q. cc q)
end_call-settled ch c (closed, e) = rw (e, end_call) (λ q. cc q)
end_call-settled ch c (unsent, e) = rw (e, end_call) (λ q. cc q)

no_waiting : (c : Conn) (ch : ℕ) → c.pending ≡ [] → IsKept ch c → IsSettled ch c
unfolding lookup
no_waiting c ch e (inl s) = s
no_waiting c ch e (inr w) = absurd (none≢some (sym (ap (lookup (ch + 1)) e) ∙ w))

-- In every state that the goroutines reach, whatever the peer sends, while fewer than 2^32 calls were
-- made: if the connection failed, then every call that was made returns; in general, each call
-- returns, or stands in the map under its id.
pub Reach-end_call :
    {c : Conn}
    → Reach c
    → c.made < 2 ^ 32
    → (ch : ℕ) → ch < c.made
    → ((end_call ch c ≢ none) ⊎ (lookup (ch + 1) c.pending ≡ some ch))
      × (c.err ≢ none → end_call ch c ≢ none)
Reach-end_call {c} r few ch h =
    let k = Reach-IsKept r few ch h in
    (
      elim k [ inl s ↦ inl (end_call-settled ch c s) | inr w ↦ inr w ],
      λ q. end_call-settled ch c (no_waiting c ch ((Reach-Inv r).failed q) k),
    )
