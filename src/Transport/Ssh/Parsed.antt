-- ===== src/Transport/Ssh/Parsed.antt =====
-- What `ParseSSHCommand` takes for the options and the host.
use vextra.Base.{
  ◌≡◌, refl, sym, ap, ◌∙◌, inl, inr, Bool, true, false, not, ◌&&◌, List, [], ◌∷◌, ◌++◌,
  if◌then◌else◌, Bool-cases, All, Text, codes, text_eq, eq_of_text_eq, Elem,
}
use vextra.Base.Result.{Result, ok, err, bind}
use mathlib.Core.Path.{subst}
use vextra.Path.{base}
use vextra.Args.{split_args}
use vextra.Transport.Ssh.{
  is_option, is_dropped, takes_value, ssh_loop, pick_host, ssh_args, parse_ssh_command,
}

-- The kept options stand among the arguments before the rest, which begins with no option.
record Split (ts opts rest : List Text) : Type 0 where
  pub before : List Text
  pub parts : ts ≡ before ++ rest
  pub kept : All (λ o. Elem o before) opts
  pub ended : (h : Text) (hs : List Text) → rest ≡ h ∷ hs → is_option h ≡ false

All-Elem_later :
    (t : Text) (xs opts : List Text) → All (λ o. Elem o xs) opts → All (λ o. Elem o (t ∷ xs)) opts
All-Elem_later t xs [] h = tt
All-Elem_later t xs (o ∷ opts) h = (inr h.0, All-Elem_later t xs opts h.1)

Split-skip : (t : Text) (ts opts rest : List Text) → Split ts opts rest → Split (t ∷ ts) opts rest
Split-skip t ts opts rest s = record {
  before = t ∷ s.before;
  parts = ap (◌∷◌ t) s.parts;
  kept = All-Elem_later t s.before opts s.kept;
  ended = s.ended;
}

Split-keep :
    (t : Text) (ts opts rest : List Text) → Split ts opts rest → Split (t ∷ ts) (t ∷ opts) rest
Split-keep t ts opts rest s = record {
  before = t ∷ s.before;
  parts = ap (◌∷◌ t) s.parts;
  kept = (inl refl, All-Elem_later t s.before opts s.kept);
  ended = s.ended;
}

abbrev with_argument :
    Bool → Bool → Text → List Text → List Text × List Text → List Text × List Text
with_argument option dropped t ts (opts, rest) =
    if not option then ([], t ∷ ts) else if dropped then (opts, rest) else (t ∷ opts, rest)

with_argument-Split :
    (option dropped : Bool) (t : Text) (ts opts rest : List Text)
    → is_option t ≡ option
    → Split ts opts rest
    → Split
        (t ∷ ts)
        (with_argument option dropped t ts (opts, rest)).0
        (with_argument option dropped t ts (opts, rest)).1
with_argument-Split false dropped t ts opts rest n s = record {
  before = [];
  parts = refl;
  kept = tt;
  ended = λ h hs e. ap is_option (sym (head_eq h hs e)) ∙ n;
}
  where
    head_eq : (h : Text) (hs : List Text) → t ∷ ts ≡ h ∷ hs → t ≡ h
    head_eq h hs e = cc e
with_argument-Split true true t ts opts rest n s = Split-skip t ts opts rest s
with_argument-Split true false t ts opts rest n s = Split-keep t ts opts rest s

ssh_loop-Split :
    (value : Bool) (ts : List Text) → Split ts (ssh_loop value ts).0 (ssh_loop value ts).1
unfolding ssh_loop
ssh_loop-Split value [] = record { before = []; parts = refl; kept = tt; ended = λ h hs e. cc e }
ssh_loop-Split true (t ∷ ts) =
    Split-keep t ts (ssh_loop false ts).0 (ssh_loop false ts).1 (ssh_loop-Split false ts)
ssh_loop-Split false (t ∷ ts) =
    let next = takes_value t && not (is_dropped t) in
    with_argument-Split (is_option t) (is_dropped t) t ts (ssh_loop next ts).0 (ssh_loop next ts).1
      refl (ssh_loop-Split next ts)

-- The arguments of a command that is accepted.
pub record IsSsh (line host : Text) (opts : List Text) : Type 0 where
  pub prog : Text
  pub before : List Text
  pub args : split_args line ≡ ok (prog ∷ (before ++ (host ∷ [])))
  pub program : base prog ≡ codes "ssh"
  pub kept : All (λ o. Elem o before) opts
  pub is_host : is_option host ≡ false

pick_host-Split :
    (line prog host : Text) (ts opts opts' rest : List Text)
    → Split ts opts rest
    → split_args line ≡ ok (prog ∷ ts)
    → base prog ≡ codes "ssh"
    → pick_host (opts, rest) ≡ ok (host, opts')
    → IsSsh line host opts'
pick_host-Split line prog host ts opts opts' [] s a b h = absurd (cc h)
pick_host-Split line prog host ts opts opts' (x ∷ []) s a b h = record {
  prog = prog;
  before = s.before;
  args = a ∙ ap (λ r. ok (prog ∷ r)) (s.parts ∙ ap (λ y. s.before ++ (y ∷ [])) (cc h));
  program = b;
  kept = subst (λ os. All (λ o. Elem o s.before) os) (cc h) s.kept;
  is_host = s.ended host [] (cc h);
}
pick_host-Split line prog host ts opts opts' (x ∷ y ∷ r) s a b h = absurd (cc h)

-- A command line that ParseSSHCommand accepts splits into a program named ssh, arguments among which
-- every option that is kept stands, and the host as the last argument, which is no option.
pub parse_ssh_command-IsSsh :
    (line host : Text) (opts : List Text)
    → parse_ssh_command line ≡ ok (host, opts)
    → IsSsh line host opts
unfolding parse_ssh_command
parse_ssh_command-IsSsh line host opts h = from_args (split_args line) refl h
  where
    from_args :
        (x : Result (List Text))
        → split_args line ≡ x
        → bind x ssh_args ≡ ok (host, opts)
        → IsSsh line host opts
    from_args (err e) a q = absurd (cc q)
    from_args (ok []) a q = absurd (cc q)
    from_args (ok (prog ∷ ts)) a q = elim (Bool-cases (text_eq (base prog) (codes "ssh"))) [
      | inl b ↦
          pick_host-Split line prog host ts (ssh_loop false ts).0 opts (ssh_loop false ts).1
            (ssh_loop-Split false ts) a (eq_of_text_eq (base prog) (codes "ssh") b) (rw b at q)
      | inr n ↦ absurd (cc (rw n at q))
    ]
