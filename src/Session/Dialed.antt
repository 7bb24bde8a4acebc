-- ===== src/Session/Dialed.antt =====
-- One connection for each host of a session.
use vextra.Base.{
  ◌≡◌, refl, ap, ◌∙◌, Option, none, some, [], inl, inr, Bool-cases, Text, text_eq, text_eq_refl,
}
use vextra.Base.Result.{Result, ok, err}
use vextra.Base.Dict.{text_key, lookup, insert, lookup-insert}
use vextra.Fs.{Fs}
use vextra.Transport.{Endpoint}
use vextra.Machine.{Machine}
use vextra.Session.{Session, dialed, remote_of, session_fs}

-- What a file system that a dial gave is kept as.
dialed-kept :
    {S H : Type 0} (host : Text) (s s' : Session S H) (x : Result (Fs S H) × S) (w' : S)
    (f : Fs S H)
    → dialed host s x ≡ (ok f, (w', s'))
    → lookup host s'.remotes ≡ some f
dialed-kept host s s' (ok r, w) w' f h =
    let e : insert host r s.remotes ≡ s'.remotes = ap (λ x. x.1.1.remotes) h in
    let g : ok r ≡ ok f = ap (λ x. x.0) h in
    rw (← e) (lookup-insert host host r s.remotes ∙ rw (text_eq_refl host) cc)
dialed-kept host s s' (err e, w) w' f h = cc h

module _ {S H F : Type 0} (mc : Machine S H F) where
  remote_of-kept :
      (host : Text) (o : Option (Fs S H)) (w w' : S) (s s' : Session S H) (f : Fs S H)
      → lookup host s.remotes ≡ o
      → remote_of mc host o (w, s) ≡ (ok f, (w', s'))
      → lookup host s'.remotes ≡ some f
  unfolding remote_of
  remote_of-kept host (some r) w w' s s' f e h =
      let d : s.remotes ≡ s'.remotes = ap (λ x. x.1.1.remotes) h in
      let g : ok r ≡ ok f = ap (λ x. x.0) h in rw (← d) (e ∙ cc)
  remote_of-kept host none w w' s s' f e h = dialed-kept host s s' _ w' f h

  -- The file system that Session.FS has given for a host, or for this side, is what it gives again,
  -- without a new connection or any other call.
  pub session_fs-again :
      (ep : Endpoint) (w w' : S) (s s' : Session S H) (f : Fs S H)
      → session_fs mc ep (w, s) ≡ (ok f, (w', s'))
      → (v : S) → session_fs mc ep (v, s') ≡ (ok f, (v, s'))
  unfolding session_fs remote_of
  session_fs-again ep w w' s s' f h v = elim (Bool-cases (text_eq ep.host [])) [
    | inl e ↦
        let q : (ok mc.local, (w, s)) ≡ (ok f, (w', s')) = rw e at h in
        let g : ok mc.local ≡ ok f = ap (λ x. x.0) q in rw (e, g) refl
    | inr n ↦
        let q : remote_of mc ep.host (lookup ep.host s.remotes) (w, s) ≡ (ok f, (w', s')) =
          rw n at h in
        rw (n, remote_of-kept ep.host _ w w' s s' f refl q) refl
  ]
