-- ===== src/Plan/Classified.antt =====
-- When `classify` finds nothing to do.
use vextra.Base.{
  ◌≡◌, refl, sym, ap, ◌∙◌, ◌≢◌, ◌↔◌, ◌⊎◌, inl, inr, false, Option, none, some, arith, str_eq,
  eq_iff, if◌then◌else◌, text_eq_iff,
}
use vextra.Base.Int.{eqb_ℤ_iff}
use mathlib.Core.Path.{subst}
use vextra.Entry.{Entry, t_file, t_dir, t_link}
use vextra.Plan.{classify, classify_dir, classify_link, classify_file}

-- The two entries agree on what is synchronised for their type.
pub data UpToDate (s d : Entry) : Type 0 where
  dirs : s.type ≡ t_dir → d.type ≡ t_dir → d.mode ≡ s.mode → d.mtime ≡ s.mtime → UpToDate s d
  links : s.type ≡ t_link → d.type ≡ t_link → d.link ≡ s.link → UpToDate s d
  files :
      s.type ≡ t_file
      → d.type ≡ t_file
      → d.size ≡ s.size
      → d.mtime ≡ s.mtime
      → d.mode ≡ s.mode
      → UpToDate s d

classify_dir-none :
    (s d : Entry)
    → (classify_dir s (some d) ≡ none)
      ↔ ((d.type ≡ t_dir) × (d.mode ≡ s.mode) × (d.mtime ≡ s.mtime))
unfolding classify_dir
classify_dir-none s d = ground (arith, eq_iff d.type t_dir, eqb_ℤ_iff d.mtime s.mtime)

classify_link-none :
    (s d : Entry) → (classify_link s (some d) ≡ none) ↔ ((d.type ≡ t_link) × (d.link ≡ s.link))
unfolding classify_link
classify_link-none s d = ground (arith, eq_iff d.type t_link, text_eq_iff d.link s.link)

classify_file-none :
    (s d : Entry)
    → (classify_file s (some d) ≡ none)
      ↔ ((d.type ≡ t_file) × (d.size ≡ s.size) × (d.mtime ≡ s.mtime) × (d.mode ≡ s.mode))
unfolding classify_file
classify_file-none s d = ground (arith, eq_iff d.type t_file, eqb_ℤ_iff d.mtime s.mtime)

-- The types that a listing of a local file system has.
abbrev pub IsSupported : Entry → Type 0
IsSupported s = (s.type ≡ t_dir) ⊎ ((s.type ≡ t_link) ⊎ (s.type ≡ t_file))

classify_choose :
    (s : Entry) (d : Option Entry)
    → classify s d ≡ (
        if str_eq s.type t_dir
        then classify_dir s d
        else if str_eq s.type t_link
        then classify_link s d
        else if str_eq s.type t_file
        then classify_file s d
        else none)
unfolding classify
classify_choose s d = refl

module _ (s : Entry) (d : Option Entry) where
  classify_at_dir : s.type ≡ t_dir → classify s d ≡ classify_dir s d
  classify_at_dir e = classify_choose s d ∙ rw ((eq_iff s.type t_dir).1 e)

  classify_at_link : s.type ≡ t_link → classify s d ≡ classify_link s d
  classify_at_link e =
      let not_dir : str_eq s.type t_dir ≡ false = ap (λ t. str_eq t t_dir) e in
      classify_choose s d ∙ rw (not_dir, (eq_iff s.type t_link).1 e)

  classify_at_file : s.type ≡ t_file → classify s d ≡ classify_file s d
  classify_at_file e =
      let not_dir : str_eq s.type t_dir ≡ false = ap (λ t. str_eq t t_dir) e in
      let not_link : str_eq s.type t_link ≡ false = ap (λ t. str_eq t t_link) e in
      classify_choose s d ∙ rw (not_dir, not_link, (eq_iff s.type t_file).1 e)

-- No action without a destination entry.
classify_absent : (s : Entry) → IsSupported s → classify s none ≢ none
unfolding classify_dir classify_link classify_file
classify_absent s (inl e) q = cc (q, classify_at_dir s none e)
classify_absent s (inr (inl e)) q = cc (q, classify_at_link s none e)
classify_absent s (inr (inr e)) q = cc (q, classify_at_file s none e)

UpToDate-classify : (s d : Entry) → IsSupported s → classify s (some d) ≡ none → UpToDate s d
UpToDate-classify s d (inl e) q =
    let r = (classify_dir-none s d).0 (sym (classify_at_dir s (some d) e) ∙ q) in
    UpToDate.dirs e r.0 r.1 r.2
UpToDate-classify s d (inr (inl e)) q =
    let r = (classify_link-none s d).0 (sym (classify_at_link s (some d) e) ∙ q) in
    UpToDate.links e r.0 r.1
UpToDate-classify s d (inr (inr e)) q =
    let r = (classify_file-none s d).0 (sym (classify_at_file s (some d) e) ∙ q) in
    UpToDate.files e r.0 r.1 r.2 r.3

classify-UpToDate : {s d : Entry} → UpToDate s d → classify s (some d) ≡ none
classify-UpToDate {s} {d} (UpToDate.dirs e t m n) =
    classify_at_dir s (some d) e ∙ (classify_dir-none s d).1 (t, m, n)
classify-UpToDate {s} {d} (UpToDate.links e t l) =
    classify_at_link s (some d) e ∙ (classify_link-none s d).1 (t, l)
classify-UpToDate {s} {d} (UpToDate.files e t z m n) =
    classify_at_file s (some d) e ∙ (classify_file-none s d).1 (t, z, m, n)

-- For a file, a directory or a symlink in the source, no action is planned exactly when the
-- destination has an entry of the same type that agrees on mode and time (a directory), on the
-- target (a symlink), or on size, time and mode (a file).
pub classify-eq-none :
    (s : Entry) (d : Option Entry)
    → IsSupported s
    → (classify s d ≡ none) ↔ ((e : Entry) × (d ≡ some e) × UpToDate s e)
classify-eq-none s none sup = (λ q. absurd (classify_absent s sup q), λ p. cc (p.1))
classify-eq-none s (some d) sup = (
  λ q. (d, refl, UpToDate-classify s d sup q),
  λ p.
      let e : d ≡ p.0 = cc (p.1) in
      subst (λ x. classify s (some x) ≡ none) (sym e) (classify-UpToDate p.2),
)
