-- ===== src/Session/Looked.antt =====
-- The file systems of a session, if a dial gives only such as keep a predicate where they are looked at.
use vextra.Base.{
  ◌≡◌, refl, inl, inr, Bool, Option, none, some, List, [], ◌∷◌, Bool-cases, All, Text, text_eq,
}
use mathlib.Core.Path.{subst}
use vextra.Base.Result.{Result, ok, err}
use vextra.Base.Keeps.{Keeps}
use vextra.Base.Gives.{Holds, Does}
use vextra.Base.Dict.{Dict, text_key, lookup, insert}
use vextra.Fs.{Fs}
use vextra.Build.Looked.{Looks}
use vextra.Transport.{Endpoint}
use vextra.Machine.{Machine}
use vextra.Session.{Session, dialed, remote_of, session_fs}

-- What the reading calls of the machine keep: those of the files that are read for the flags, and of
-- this side and of each other side that is dialled.
pub record ReadOnly {S H F : Type 0} (mc : Machine S H F) (P : S → Type 0) : Type 0 where
  pub files : (p : Text) → Keeps P (mc.read_file p)
  pub lines : (p : Text) → Keeps P (mc.read_lines p)
  pub here : Looks P mc.local
  pub dials :
      (ssh : List Text) (host root bin : Text) (compress : Bool)
      → Does P (Looks P) (mc.dial ssh host root bin compress)

module _ {S H : Type 0} (P : S → Type 0) where
  -- The connections of a session.
  abbrev pub AllLook : Dict Text (Fs S H) → Type 0
  AllLook m = All (λ kv. Looks P kv.1) m

  lookup-Looks :
      (host : Text) (m : Dict Text (Fs S H)) (f : Fs S H)
      → AllLook m
      → lookup host m ≡ some f
      → Looks P f
  unfolding lookup
  lookup-Looks host [] f a e = cc e
  lookup-Looks host ((h, g) ∷ m) f a e = elim (Bool-cases (text_eq h host)) [
    | inl q ↦ let r : some g ≡ some f = rw q at e in let i : g ≡ f = cc in subst (Looks P) i a.0
    | inr q ↦ lookup-Looks host m f a.1 (rw q at e)
  ]

  insert-AllLook :
      (host : Text) (f : Fs S H) (m : Dict Text (Fs S H))
      → Looks P f
      → AllLook m
      → AllLook (insert host f m)
  unfolding insert
  insert-AllLook host f [] l a = (l, tt)
  insert-AllLook host f ((h, g) ∷ m) l a = elim (Bool-cases (text_eq h host)) [
    | inl q ↦ rw q (l, a.1)
    | inr q ↦ rw q (a.0, insert-AllLook host f m l a.1)
  ]

  -- The world and the connections of a session.
  abbrev pub InSession : S × Session S H → Type 0
  InSession (w, s) = P w × AllLook s.remotes

  dialed-Looks :
      (host : Text) (s : Session S H) (x : Result (Fs S H) × S)
      → AllLook s.remotes
      → P x.1
      → Holds (Looks P) (x.0)
      → InSession (dialed host s x).1 × Holds (Looks P) (dialed host s x).0
  dialed-Looks host s (ok r, w) a h l = ((h, insert-AllLook host r s.remotes l a), l)
  dialed-Looks host s (err e, w) a h l = ((h, a), tt)

module _ {S H F : Type 0} (mc : Machine S H F) (P : S → Type 0) (ro : ReadOnly mc P) where
  remote_of-Looks :
      (host : Text) (o : Option (Fs S H)) (w : S) (s : Session S H)
      → lookup host s.remotes ≡ o
      → InSession P (w, s)
      → InSession P (remote_of mc host o (w, s)).1 × Holds (Looks P) (remote_of mc host o (w, s)).0
  unfolding remote_of
  remote_of-Looks host (some r) w s e h = (h, lookup-Looks P host s.remotes r h.1 e)
  remote_of-Looks host none w s e h =
      let d =
        (ro.dials (s.ssh_prog ∷ s.ssh_args) host s.remote_root s.config.remote_bin s.compress).at w
          h.0 in
      dialed-Looks P host s _ h.1 d.0 d.1

  pub session_fs-Looks : (ep : Endpoint) → Does (InSession P) (Looks P) (session_fs mc ep)
  unfolding session_fs
  session_fs-Looks ep = record {
    at = λ (w, s) h. elim (Bool-cases (text_eq ep.host [])) [
      | inl e ↦ rw e (h, ro.here)
      | inr e ↦ rw e (remote_of-Looks ep.host (lookup ep.host s.remotes) w s refl h)
    ];
  }
