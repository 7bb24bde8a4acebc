-- ===== src/Listing/Accepted.antt =====
-- Which listings `checkEntries` accepts.
use vextra.Base.{
  ◌+◌, ◌≡◌, refl, sym, ◌∙◌, ◌⊎◌, inl, inr, Bool, true, false, ◌&&◌, ◌||◌, Option, none, some, List,
  [], ◌∷◌, arith, str_eq, if◌then◌else◌, Bool-cases, length, All, any, Text, text_eq,
}
use vextra.Base.Result.{Err, Result, ok, err}
use vextra.Base.Dict.{Dict, insert, text_key, lookup-insert}
use vextra.Entry.{Entry, t_link}
use vextra.Path.{dir}
use vextra.Path.Ancestors.{Ancestor}
use vextra.Listing.{valid_rel, listed, collect_links, below_link, check_ancestors, check_entries}
use vextra.Listing.Checked.{Walked, below_link-Walked, valid_rel-IsRelative}

-- The entry is a symlink at the path `a`.
abbrev pub link_at : Text → Entry → Bool
link_at a e = str_eq e.type t_link && text_eq e.path a

abbrev IsValid : Entry → Type 0
IsValid e = valid_rel e.path ≡ true

-- An accepted listing: all paths are valid and no ancestor of an entry is a symlink of the listing.
pub record IsSafe (list : List Entry) (e : Entry) : Type 0 where
  pub valid : valid_rel e.path ≡ true
  pub clear : (a : Text) → Ancestor a e.path → any (link_at a) list ≡ false

listed-insert :
    (p a : Text) (links : Dict Text Bool)
    → listed (insert p true links) a ≡ (if text_eq p a then true else listed links a)
unfolding listed
listed-insert p a links = ground (arith, lookup-insert p a true links)

data Collected (es : List Entry) (links : Dict Text Bool) (r : Result (Dict Text Bool))
    : Type 0 where
  collected :
      (links' : Dict Text Bool)
      → r ≡ ok links'
      → All IsValid es
      → ((a : Text) → listed links' a ≡ (any (link_at a) es || listed links a))
      → Collected es links r
  refused : r ≡ err Err.other → ¬ All IsValid es → Collected es links r

collect_step :
    (e : Entry) (es : List Entry) (links : Dict Text Bool)
    → collect_links (e ∷ es) links ≡ (
        if valid_rel e.path
        then collect_links es (if str_eq e.type t_link then insert e.path true links else links)
        else err Err.other)
unfolding collect_links
collect_step e es links = refl

collect_links-Collected :
    (es : List Entry) (links : Dict Text Bool) → Collected es links (collect_links es links)
collect_links-Collected [] links = unfold collect_links in collected links refl tt (λ a. refl)
collect_links-Collected (e ∷ es) links = elim (Bool-cases (valid_rel e.path)) [
  | inl v ↦ rw collect_step (rw v (go v (collect_links-Collected es _)))
  | inr n ↦ refused (collect_step e es links ∙ rw n) (λ all. cc (all.0, n))
]
  where
    links₁ : Dict Text Bool
    links₁ = if str_eq e.type t_link then insert e.path true links else links

    same_links :
        (a : Text)
        → (any (link_at a) es || listed links₁ a) ≡ (any (link_at a) (e ∷ es) || listed links a)
    same_links a = ground (arith, listed-insert e.path a links)

    go :
        valid_rel e.path ≡ true
        → {r : Result (Dict Text Bool)} → Collected es links₁ r
        → Collected (e ∷ es) links r
    go v (collected links' q all eq) = collected links' q (v, all) (λ a. eq a ∙ same_links a)
    go v (refused q no') = refused q (λ all. no' all.1)

abbrev Clear : Dict Text Bool → Entry → Type 0
Clear links e = (a : Text) → Ancestor a e.path → listed links a ≡ false

abbrev Decided : Option (Result (Unit {0})) → Type 0 → Type 0
Decided o P = ((o ≡ some (ok tt)) × P) ⊎ ((o ≡ some (err Err.other)) × (¬ P))

-- One entry of the second loop.
ancestors_step : Option Bool → Option (Result (Unit {0})) → Option (Result (Unit {0}))
ancestors_step none rest = none
ancestors_step (some true) rest = some (err Err.other)
ancestors_step (some false) rest = rest

check_step :
    (e : Entry) (es : List Entry) (links : Dict Text Bool)
    → check_ancestors (e ∷ es) links
      ≡ ancestors_step
          (below_link (length e.path + 1) links (dir e.path))
          (check_ancestors es links)
unfolding check_ancestors ancestors_step
check_step e es links = ground arith

step-Decided :
    (e : Entry) (es : List Entry) (links : Dict Text Bool) {o : Option Bool}
    {rest : Option (Result (Unit {0}))}
    → Walked links e.path o
    → Decided rest (All (Clear links) es)
    → Decided (ancestors_step o rest) (All (Clear links) (e ∷ es))
unfolding ancestors_step
step-Decided e es links (Walked.found q a anc l) rest = inr (rw q refl, λ all. cc (all.0 a anc, l))
step-Decided e es links (Walked.clear q all) (inl (r, more)) = inl (rw q r, (all, more))
step-Decided e es links (Walked.clear q all) (inr (r, no')) = inr (rw q r, λ h. no' h.1)

check_ancestors-Decided :
    (es : List Entry) (links : Dict Text Bool)
    → All IsValid es
    → Decided (check_ancestors es links) (All (Clear links) es)
check_ancestors-Decided [] links v = unfold check_ancestors in inl (refl, tt)
check_ancestors-Decided (e ∷ es) links v =
    let rel = valid_rel-IsRelative e.path v.0 in
    rw check_step (
      step-Decided e es links
        (below_link-Walked (length e.path + 1) links e.path (omega arith) rel.0 rel.1)
        (check_ancestors-Decided es links v.1))

module _ (list : List Entry) (links : Dict Text Bool)
    (eq : (a : Text) → listed links a ≡ (any (link_at a) list || false)) where
  any_links : (a : Text) → any (link_at a) list ≡ listed links a
  any_links a = ground (arith, eq a)

  IsSafe-All : (es : List Entry) → All IsValid es → All (Clear links) es → All (IsSafe list) es
  IsSafe-All [] v c = tt
  IsSafe-All (e ∷ es) v c =
      (record { valid = v.0; clear = λ a anc. any_links a ∙ c.0 a anc }, IsSafe-All es v.1 c.1)

  Clear-All : (es : List Entry) → All (IsSafe list) es → All (Clear links) es
  Clear-All [] s = tt
  Clear-All (e ∷ es) s = (λ a anc. sym (any_links a) ∙ s.0.clear a anc, Clear-All es s.1)

IsValid-All : (list es : List Entry) → All (IsSafe list) es → All IsValid es
IsValid-All list [] s = tt
IsValid-All list (e ∷ es) s = (s.0.valid, IsValid-All list es s.1)

check_entries_ok :
    (list : List Entry) (links : Dict Text Bool)
    → collect_links list [] ≡ ok links
    → check_entries list ≡ check_ancestors list links
unfolding check_entries
check_entries_ok list links q = rw (q, check_entries) refl

check_entries_err :
    (list : List Entry) {e : Err}
    → collect_links list [] ≡ err e
    → check_entries list ≡ some (err e)
unfolding check_entries
check_entries_err list q = rw (q, check_entries) refl

listed_nil : (a : Text) → listed [] a ≡ false
unfolding listed
listed_nil a = refl

-- The check ends on every listing. It accepts the listing if every path in it is valid and no
-- proper ancestor of an entry is the path of a symlink of the same listing, and refuses it if not.
pub check_entries-IsSafe :
    (list : List Entry)
    → ((check_entries list ≡ some (ok tt)) × All (IsSafe list) list)
      ⊎ ((check_entries list ≡ some (err Err.other)) × (¬ All (IsSafe list) list))
check_entries-IsSafe list = go (collect_links-Collected list [])
  where
    go :
        Collected list [] (collect_links list [])
        → Decided (check_entries list) (All (IsSafe list) list)
    go (refused q no') = inr (check_entries_err list q, λ s. no' (IsValid-All list list s))
    go (collected links q v eq) = elim (check_ancestors-Decided list links v) [
      | inl (r, c) ↦ inl (
        check_entries_ok list links q ∙ r,
        IsSafe-All list links (λ a. eq a ∙ rw listed_nil) list v c,
      )
      | inr (r, no') ↦ inr (
        check_entries_ok list links q ∙ r,
        λ s. no' (Clear-All list links (λ a. eq a ∙ rw listed_nil) list s),
      )
    ]
