-- ===== src/Conn/Settled.antt =====
-- Invariants of a connection: the ids in its map, and the responses in its channels.
use vextra.Base.{
  ℕ, ◌+◌, ◌%◌, ◌^◌, ◌<◌, ◌≡◌, refl, ◌∙◌, ◌≢◌, ◌⊎◌, inl, inr, false, Option, none, some, [], ◌∷◌,
  arith, ◌==◌, ==_iff, Bool-cases,
}
use vextra.Base.Result.{Err, Result, ok, err}
use vextra.Base.Dict.{Dict, nat_key, lookup, insert, erase, lookup-insert, lookup-erase}
use vextra.Wire.{Frame, Written}
use vextra.Conn.{
  CallOutcome, frame, closed, unsent, Conn, new_conn, close_all, fail, open_with, after_send,
  deliver, read_round, Step, opens, sends, reads, closes, Reach, begins, next_step,
}

pub record Inv (c : Conn) : Type 0 where
  pub ids : (id ch : ℕ) → lookup id c.pending ≡ some ch → (id ≡ (ch + 1) % 2 ^ 32) × (ch < c.made)
  pub counted : c.next ≡ c.made % 2 ^ 32
  pub matched : (ch : ℕ) (f : Frame) → lookup ch c.chans ≡ some (frame f) → f.id ≡ (ch + 1) % 2 ^ 32
  pub failed : c.err ≢ none → c.pending ≡ []

close_all-frame :
    (pend : Dict ℕ ℕ) (chans : Dict ℕ CallOutcome) (ch : ℕ) (f : Frame)
    → lookup ch (close_all pend chans) ≡ some (frame f)
    → lookup ch chans ≡ some (frame f)
unfolding close_all
close_all-frame [] chans ch f h = h
close_all-frame ((id, k) ∷ pend) chans ch f h =
    ground
      (arith, lookup-insert k ch closed (close_all pend chans), close_all-frame pend chans ch f)

-- A call that waits under another channel's entry waits under the rest.
in_rest :
    (i k : ℕ) (pend : Dict ℕ ℕ) (chans : Dict ℕ CallOutcome) (ch : ℕ)
    → (k == ch) ≡ false
    → ((o : CallOutcome) × (lookup ch chans ≡ some o))
      ⊎ ((id : ℕ) × (lookup id ((i, k) ∷ pend) ≡ some ch))
    → ((o : CallOutcome) × (lookup ch chans ≡ some o)) ⊎ ((id : ℕ) × (lookup id pend ≡ some ch))
unfolding lookup
in_rest i k pend chans ch ne (inl s) = inl s
in_rest i k pend chans ch ne (inr (id, h)) = inr (id, ground (arith, ==_iff k ch))

pub close_all-settled :
    (pend : Dict ℕ ℕ) (chans : Dict ℕ CallOutcome) (ch : ℕ)
    → ((o : CallOutcome) × (lookup ch chans ≡ some o)) ⊎ ((id : ℕ) × (lookup id pend ≡ some ch))
    → (o : CallOutcome) × (lookup ch (close_all pend chans) ≡ some o)
unfolding close_all lookup
close_all-settled [] chans ch (inl s) = s
close_all-settled [] chans ch (inr (id, h)) = cc h
close_all-settled ((i, k) ∷ pend) chans ch h = elim (Bool-cases (k == ch)) [
  | inl e ↦ (closed, lookup-insert k ch closed (close_all pend chans) ∙ rw e refl)
  | inr ne ↦
      let p = close_all-settled pend chans ch (in_rest i k pend chans ch ne h) in
      (p.0, lookup-insert k ch closed (close_all pend chans) ∙ rw ne p.1)
]

fail-Inv : (c : Conn) → Inv c → Inv (fail c)
unfolding fail lookup
fail-Inv c v = record {
  ids = λ id ch h. cc h;
  counted = v.counted;
  matched = λ ch f h. v.matched ch f (close_all-frame c.pending c.chans ch f h);
  failed = λ h. refl;
}

open_with-Inv : (e : Option Err) (c : Conn) → c.err ≡ e → Inv c → Inv (open_with e c).1
unfolding open_with
open_with-Inv (some e) c h v = v
open_with-Inv none c h v =
    let id = (c.next + 1) % 2 ^ 32 in
    record {
      ids = λ i ch h. ground (arith, lookup-insert id i c.made c.pending, v.ids i ch, v.counted);
      counted = omega (arith, v.counted);
      matched = v.matched;
      failed = λ q. absurd (q h);
    }

-- The call leaves the map, and returns.
abbrev pub dropped : ℕ → ℕ → ℕ → Conn → Conn
dropped id ch n c = record c {
  bytes_out = c.bytes_out + n;
  pending = erase id c.pending;
  chans = insert ch unsent c.chans;
}

erase-nil : (id : ℕ) (p : Dict ℕ ℕ) → p ≡ [] → erase id p ≡ []
unfolding erase
erase-nil id p h = rw h refl

dropped-Inv : (id ch n : ℕ) (c : Conn) → Inv c → Inv (dropped id ch n c)
dropped-Inv id ch n c v = record {
  ids = λ i k h. ground (arith, lookup-erase id i c.pending, v.ids i k);
  counted = v.counted;
  matched = λ k f h. ground (arith, lookup-insert ch k unsent c.chans, v.matched k f);
  failed = λ h. erase-nil id c.pending (v.failed h);
}

after_send-Inv : (id ch : ℕ) (w : Written) (c : Conn) → Inv c → Inv (after_send id ch w c)
unfolding after_send
after_send-Inv id ch w c v = elim (Bool-cases w.done) [
  | inl e ↦
      rw e (record { ids = v.ids; counted = v.counted; matched = v.matched; failed = v.failed })
  | inr e ↦ rw e (fail-Inv (dropped id ch w.count c) (dropped-Inv id ch w.count c v))
]

deliver-matched :
    (f : Frame) (o : Option ℕ) (chans : Dict ℕ CallOutcome) (ch : ℕ) (g : Frame)
    → ((k : ℕ) → o ≡ some k → f.id ≡ (k + 1) % 2 ^ 32)
    → ((k : ℕ) (g : Frame) → lookup k chans ≡ some (frame g) → g.id ≡ (k + 1) % 2 ^ 32)
    → lookup ch (deliver f o chans) ≡ some (frame g)
    → g.id ≡ (ch + 1) % 2 ^ 32
unfolding deliver
deliver-matched f none chans ch g hf hc h = hc ch g h
deliver-matched f (some k) chans ch g hf hc h =
    ground (arith, lookup-insert k ch (frame f) chans, hf k, hc ch g)

read_round-Inv : (r : Result Frame) (c : Conn) → Inv c → Inv (read_round r c)
unfolding read_round
read_round-Inv (err e) c v = fail-Inv c v
read_round-Inv (ok f) c v = record {
  ids = λ i ch h. ground (arith, lookup-erase f.id i c.pending, v.ids i ch);
  counted = v.counted;
  matched = λ ch g h.
      deliver-matched f (lookup f.id c.pending) c.chans ch g (λ k e. (v.ids f.id k e).0) v.matched
        h;
  failed = λ h. erase-nil f.id c.pending (v.failed h);
}

Step-Inv : {c d : Conn} → Step c d → Inv c → Inv d
Step-Inv (opens c) v = open_with-Inv c.err c refl v
Step-Inv (sends c ch w h) v = after_send-Inv ((ch + 1) % 2 ^ 32) ch w c v
Step-Inv (reads c r) v = read_round-Inv r c v
Step-Inv (closes c) v = fail-Inv c v

new_conn-Inv : Inv new_conn
unfolding lookup
new_conn-Inv = record {
  ids = λ id ch h. cc h;
  counted = refl;
  matched = λ ch f h. cc h;
  failed = λ h. refl;
}

pub Reach-Inv : {c : Conn} → Reach c → Inv c
Reach-Inv begins = new_conn-Inv
Reach-Inv (next_step r s) = Step-Inv s (Reach-Inv r)

-- In every state that the goroutines reach, whatever the peer sends: a response in the channel of a call
-- bears the id of that call, and a connection that failed has no call in its map.
pub Reach-matched :
    {c : Conn}
    → Reach c
    → ((ch : ℕ) (f : Frame) → lookup ch c.chans ≡ some (frame f) → f.id ≡ (ch + 1) % 2 ^ 32)
      × (c.err ≢ none → c.pending ≡ [])
Reach-matched r = ((Reach-Inv r).matched, (Reach-Inv r).failed)
