-- ===== src/Plan/Kinds.antt =====
-- The kinds of the actions of `classify`.
use vextra.Base.{◌≡◌, Bool, true, false, Option, none, some, arith, str_eq, if◌then◌else◌}
use vextra.Entry.{Entry, t_dir, t_link, t_file}
use vextra.Plan.{Action, act_delete, classify, classify_dir, classify_link, classify_file}

abbrev pub IsDelete : Action → Type 0
IsDelete a = a.kind ≡ act_delete

classify_dir-keeps :
    (s : Entry) (d : Option Entry) (a : Action) → classify_dir s d ≡ some a → ¬ IsDelete a
unfolding classify_dir
classify_dir-keeps s none a h k = cc
classify_dir-keeps s (some d) a h k = ground arith

classify_link-keeps :
    (s : Entry) (d : Option Entry) (a : Action) → classify_link s d ≡ some a → ¬ IsDelete a
unfolding classify_link
classify_link-keeps s none a h k = cc
classify_link-keeps s (some d) a h k = ground arith

classify_file-keeps :
    (s : Entry) (d : Option Entry) (a : Action) → classify_file s d ≡ some a → ¬ IsDelete a
unfolding classify_file
classify_file-keeps s none a h k = cc
classify_file-keeps s (some d) a h k = ground arith

if-keeps :
    (b : Bool) (x y : Option Action) (a : Action)
    → (x ≡ some a → ¬ IsDelete a)
    → (y ≡ some a → ¬ IsDelete a)
    → (if b then x else y) ≡ some a
    → ¬ IsDelete a
if-keeps true x y a hx hy = hx
if-keeps false x y a hx hy = hy

pub classify-keeps :
    (s : Entry) (d : Option Entry) (a : Action) → classify s d ≡ some a → ¬ IsDelete a
unfolding classify
classify-keeps s d a = if-keeps (str_eq s.type t_dir) _ _ a (classify_dir-keeps s d a) (
    if-keeps (str_eq s.type t_link) _ _ a (classify_link-keeps s d a)
      (if-keeps (str_eq s.type t_file) _ _ a (classify_file-keeps s d a) (λ h. cc)))
