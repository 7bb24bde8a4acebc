-- ===== src/Transport/Magic.antt =====
-- The search of `waitMagic` for the sign of the agent.
use vextra.Base.{
  ℕ, zero, suc, ◌+◌, ◌-◌, ◌^◌, ◌≤◌, ◌<◌, ◌≡◌, refl, sym, ap, ◌∙◌, ◌⊎◌, inl, inr, Bool, true, false,
  ◌&&◌, [], ◌∷◌, ◌++◌, arith, ◌==◌, if◌then◌else◌, ==_iff, Bool-cases, length, take, drop,
  length-append, take_all, Text, contains_byte,
}
use vextra.Base.Result.{ok}
use mathlib.Core.List.{append_assoc}
use mathlib.Core.Path.{subst}
use vextra.Delta.{Reader}
use vextra.Transport.{agent_magic, continues, restart, wait_loop, wait_magic}

-- One byte that is read.
abbrev after_byte : Text → ℕ → ℕ → ℕ
after_byte want matched b = if continues want matched b then suc matched else restart want b

wait_loop_step :
    (want : Text) (fails : Bool) (n matched b : ℕ) (s : Text)
    → wait_loop want fails (suc n) matched (b ∷ s) ≡ (
        if continues want matched b && (suc matched == length want)
        then ok s
        else wait_loop want fails n (after_byte want matched b) s)
unfolding wait_loop
wait_loop_step want fails n matched b s = refl

take_next :
    (want : Text) (i b : ℕ)
    → continues want i b ≡ true
    → take (suc i) want ≡ take i want ++ (b ∷ [])
take_next [] i b h = absurd (cc h)
take_next (a ∷ w) zero b h = ground (arith, ==_iff b a)
take_next (a ∷ w) (suc i) b h = ap (◌∷◌ a) (take_next w i b h)

take-restart :
    (want : Text) (b : ℕ)
    → (take (restart want b) want ≡ []) ⊎ (take (restart want b) want ≡ b ∷ [])
take-restart [] b = inl refl
take-restart (a ∷ w) b = elim (Bool-cases (b == a)) [
  | inl e ↦ inr (rw e (ground (arith, ==_iff b a)))
  | inr n ↦ inl (rw n refl)
]

-- The sign stands in a text, in front of a rest.
abbrev pub Holds : Text → Text → Text → Type 0
Holds want rest s = (before : Text) × (s ≡ before ++ (want ++ rest))

Holds-more : (want rest a s : Text) → Holds want rest s → Holds want rest (a ++ s)
Holds-more want rest a s (p, e) = (a ++ p, ap (◌++◌ a) e ∙ sym (append_assoc a p (want ++ rest)))

whole :
    (want : Text) (matched b : ℕ)
    → (continues want matched b && (suc matched == length want)) ≡ true
    → take matched want ++ (b ∷ []) ≡ want
whole want matched b e =
    sym (take_next want matched b (ground arith))
    ∙ take_all (suc matched) want (ground (arith, ==_iff (suc matched) (length want)))

-- After a byte, the bytes that match and the rest of the input hold no more than before.
after_byte-Holds :
    (want : Text) (matched b : ℕ) (s rest : Text)
    → Holds want rest (take (after_byte want matched b) want ++ s)
    → Holds want rest (take matched want ++ (b ∷ s))
after_byte-Holds want matched b s rest h = elim (Bool-cases (continues want matched b)) [
  | inl e ↦
      let (p, q) = rw e at h in
      (
        p,
        sym (append_assoc (take matched want) (b ∷ []) s)
            ∙ ap (λ t. t ++ s) (sym (take_next want matched b e))
            ∙ q,
      )
  | inr n ↦ elim (take-restart want b) [
    | inl e ↦
        subst (Holds want rest) (append_assoc (take matched want) (b ∷ []) s)
          (Holds-more want rest (take matched want ++ (b ∷ [])) s (rw (n, e) at h))
    | inr e ↦ Holds-more want rest (take matched want) (b ∷ s) (rw (n, e) at h)
  ]
]

wait_loop-Holds :
    (want : Text) (fails : Bool) (n matched : ℕ) (s rest : Text)
    → wait_loop want fails n matched s ≡ ok rest
    → Holds want rest (take matched want ++ s)
unfolding wait_loop
wait_loop-Holds want fails zero matched s rest h = absurd (cc h)
wait_loop-Holds want fails (suc n) matched [] rest h = absurd (cc h)
wait_loop-Holds want fails (suc n) matched (b ∷ s) rest h =
    elim (Bool-cases (continues want matched b && (suc matched == length want))) [
      | inl e ↦ (
        [],
        sym (append_assoc (take matched want) (b ∷ []) s)
            ∙ ap (λ t. t ++ s) (whole want matched b e)
            ∙ ap (◌++◌ want) (cc (rw e at h)),
      )
      | inr e ↦
          after_byte-Holds want matched b s rest
            (wait_loop-Holds want fails n (after_byte want matched b) s rest (rw e at h))
    ]

continues_at : (done todo : Text) (b : ℕ) → continues (done ++ (b ∷ todo)) (length done) b ≡ true
continues_at [] todo b = ground arith
continues_at (x ∷ done) todo b = continues_at done todo b

-- The sign, from the byte that is to be matched next on.
wait_loop-matches :
    (want : Text) (fails : Bool) (done todo rest : Text) (b n : ℕ)
    → want ≡ done ++ (b ∷ todo)
    → length todo < n
    → wait_loop want fails n (length done) (b ∷ (todo ++ rest)) ≡ ok rest
wait_loop-matches want fails done todo rest b zero e h = absurd (omega arith)
wait_loop-matches want fails done [] rest b (suc n) e h =
    let c : continues want (length done) b ≡ true = rw e (continues_at done [] b) in
    let l : (suc (length done) == length want) ≡ true =
      ground (arith, ap length e, length-append done (b ∷ [])) in
    wait_loop_step want fails n (length done) b rest ∙ rw (c, l) refl
wait_loop-matches want fails done (a ∷ todo) rest b (suc n) e h =
    let c : continues want (length done) b ≡ true = rw e (continues_at done (a ∷ todo) b) in
    let l : (suc (length done) == length want) ≡ false =
      ground (arith, ap length e, length-append done (b ∷ a ∷ todo)) in
    let step : length (done ++ (b ∷ [])) ≡ suc (length done) =
      length-append done (b ∷ []) ∙ omega arith in
    wait_loop_step want fails n (length done) b (a ∷ (todo ++ rest))
    ∙ rw (c, l) (ap (λ i. wait_loop want fails n i (a ∷ (todo ++ rest))) (sym step))
    ∙ wait_loop-matches want fails (done ++ (b ∷ [])) todo rest a n
        (e ∙ sym (append_assoc done (b ∷ []) (a ∷ todo))) (omega arith)

skip_banner :
    (fails : Bool) (banner s : Text) (n k : ℕ)
    → contains_byte banner 0 ≡ false
    → n ≡ length banner + k
    → wait_loop agent_magic fails n 0 (banner ++ s) ≡ wait_loop agent_magic fails k 0 s
unfolding contains_byte
skip_banner fails [] s n k h e = ap (λ i. wait_loop agent_magic fails i 0 s) (omega (arith, e))
skip_banner fails (c ∷ banner) s zero k h e = absurd (omega arith)
skip_banner fails (c ∷ banner) s (suc n) k h e =
    let z : (c == 0) ≡ false = ground arith in
    wait_loop_step agent_magic fails n 0 c (banner ++ s)
    ∙ rw z refl
    ∙ skip_banner fails banner s n k (ground arith) (omega arith)

-- What `waitMagic` leaves of the input is what stands behind a sign of the agent in it.
pub wait_magic-Holds :
    (r : Reader) (rest : Text) → wait_magic r ≡ ok rest → Holds agent_magic rest r.rest
unfolding wait_magic
wait_magic-Holds r rest h = wait_loop-Holds agent_magic r.fails (2 ^ 20) 0 r.rest rest h

-- The sign is found behind a banner without zero bytes, if both together are at most 1 MiB: what is
-- left is what follows the sign, whether or not the reader fails at its end.
pub wait_magic-finds :
    (banner rest : Text) (fails : Bool)
    → contains_byte banner 0 ≡ false
    → length banner + length agent_magic ≤ 2 ^ 20
    → wait_magic (record { rest = banner ++ (agent_magic ++ rest); fails = fails }) ≡ ok rest
unfolding wait_magic
wait_magic-finds banner rest fails h fits =
    let k = 2 ^ 20 - length banner in
    skip_banner fails banner (agent_magic ++ rest) (2 ^ 20) k h (omega arith)
    ∙ wait_loop-matches agent_magic fails [] (drop 1 agent_magic) rest 0 k refl (omega arith)
