-- ===== src/Build/Deepest.antt =====
-- The order of the deletions of `BuildPlan`.
use vextra.Base.{
  ℕ, ◌+◌, ◌≤◌, ◌<◌, ◌≡◌, ap, inl, inr, List, [], ◌∷◌, ◌++◌, arith, ltb, Bool-cases, All, Text,
}
use mathlib.Core.List.{Perm}
use mathlib.Core.List.Perm
use vextra.Entry.{Entry}
use vextra.Path.{slash}
use vextra.Path.Ancestors.{Ancestor}
use vextra.Build.{depth, insert_deeper, deepest_first}

depth-append : (a b : Text) → depth (a ++ b) ≡ depth a + depth b
unfolding depth
depth-append [] b = omega arith
depth-append (c ∷ a) b = omega (arith, depth-append a b)

depth-Ancestor : (a p : Text) → Ancestor a p → depth a < depth p
unfolding depth
depth-Ancestor a p (r, e) = omega (arith, ap depth e, depth-append a (slash ∷ r))

-- No entry stands before one that lies below it.
abbrev pub ChildrenFirst : List Entry → Type 0
ChildrenFirst [] = Unit
ChildrenFirst (e ∷ es) = All (λ f. ¬ Ancestor e.path f.path) es × ChildrenFirst es

-- No entry stands before a deeper one.
abbrev Falling : List Entry → Type 0
Falling [] = Unit
Falling (e ∷ es) = All (λ f. depth f.path ≤ depth e.path) es × Falling es

insert_deeper-All :
    (P : Entry → Type 0) (e : Entry) (es : List Entry) → P e → All P es → All P (insert_deeper e es)
unfolding insert_deeper
insert_deeper-All P e [] p h = (p, tt)
insert_deeper-All P e (f ∷ fs) p h = elim (Bool-cases (ltb (depth e.path) (depth f.path))) [
  | inl t ↦ rw t (h.0, insert_deeper-All P e fs p h.1)
  | inr t ↦ rw t (p, h)
]

All-le :
    (m n : ℕ) (es : List Entry)
    → m ≤ n
    → All (λ f. depth f.path ≤ m) es
    → All (λ f. depth f.path ≤ n) es
All-le m n [] h a = tt
All-le m n (e ∷ es) h a = (omega arith, All-le m n es h a.1)

insert_deeper-Falling : (e : Entry) (es : List Entry) → Falling es → Falling (insert_deeper e es)
unfolding insert_deeper
insert_deeper-Falling e [] h = (tt, tt)
insert_deeper-Falling e (f ∷ fs) h = elim (Bool-cases (ltb (depth e.path) (depth f.path))) [
  | inl t ↦ rw t (
    insert_deeper-All (λ g. depth g.path ≤ depth f.path) e fs (ground arith) h.0,
    insert_deeper-Falling e fs h.1,
  )
  | inr t ↦ rw t ((ground arith, All-le (depth f.path) (depth e.path) fs (ground arith) h.0), h)
]

deepest_first-Falling : (es : List Entry) → Falling (deepest_first es)
unfolding deepest_first
deepest_first-Falling [] = tt
deepest_first-Falling (e ∷ es) = insert_deeper-Falling e _ (deepest_first-Falling es)

Falling-ChildrenFirst : (es : List Entry) → Falling es → ChildrenFirst es
Falling-ChildrenFirst [] h = tt
Falling-ChildrenFirst (e ∷ es) h = (apart es h.0, Falling-ChildrenFirst es h.1)
  where
    apart :
        (fs : List Entry)
        → All (λ f. depth f.path ≤ depth e.path) fs
        → All (λ f. ¬ Ancestor e.path f.path) fs
    apart [] a = tt
    apart (f ∷ fs) a =
        (λ anc. absurd (omega (arith, depth-Ancestor e.path f.path anc)), apart fs a.1)

insert_deeper-perm : (e : Entry) (es : List Entry) → Perm (insert_deeper e es) (e ∷ es)
unfolding insert_deeper
insert_deeper-perm e [] = Perm.refl (e ∷ [])
insert_deeper-perm e (f ∷ fs) = elim (Bool-cases (ltb (depth e.path) (depth f.path))) [
  | inl t ↦ rw t (Perm.trans (Perm.cons f (insert_deeper-perm e fs)) (Perm.swap e f fs))
  | inr t ↦ rw t (Perm.refl (e ∷ f ∷ fs))
]

deepest_first-perm : (es : List Entry) → Perm (deepest_first es) es
unfolding deepest_first
deepest_first-perm [] = Perm.refl []
deepest_first-perm (e ∷ es) =
    Perm.trans (insert_deeper-perm e (deepest_first es)) (Perm.cons e (deepest_first-perm es))

-- The deletions are the entries to delete, each as often, in an order in which no directory stands
-- before anything below it.
pub deepest_first-ChildrenFirst :
    (es : List Entry) → Perm (deepest_first es) es × ChildrenFirst (deepest_first es)
deepest_first-ChildrenFirst es =
    (deepest_first-perm es, Falling-ChildrenFirst (deepest_first es) (deepest_first-Falling es))
