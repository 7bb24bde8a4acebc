-- ===== src/Build/Deletions.antt =====
-- What a plan may delete.
use vextra.Base.{
  ℕ, ◌≡◌, refl, sym, ap, ◌∙◌, inl, inr, true, false, not, Option, none, some, List, [], ◌∷◌, map,
  arith, ltb, if◌then◌else◌, Bool-cases, keep, Text, Elem, Elem-append, Elem-keep,
}
use vextra.Base.Dict.{Dict, lookup, text_key}
use vextra.Entry.{Entry}
use vextra.Plan.{Action, Options, classify}
use vextra.Plan.Kinds.{IsDelete, classify-keeps}
use vextra.Build.{
  place, to_list, seen, entry_action, entry_actions, is_mkdir, delete_action, root_actions,
  plan_listings, deepest_first, depth, insert_deeper, dst_map,
}

pub place-keeps :
    (rel sp dp : Text) (s : Entry) (d : Option Entry) (o : Option Action) (a : Action)
    → ((b : Action) → o ≡ some b → ¬ IsDelete b)
    → Elem a (map (place rel sp dp s d) (to_list o))
    → ¬ IsDelete a
place-keeps rel sp dp s d none a keeps h q = absurd h
place-keeps rel sp dp s d (some b) a keeps (inl e) q = keeps b refl (ap (λ x. x.kind) (sym e) ∙ q)
place-keeps rel sp dp s d (some b) a keeps (inr h) q = absurd h

Elem-map :
    {A B : Type 0} (f : A → B) (b : B) (xs : List A)
    → Elem b (map f xs)
    → (a : A) × Elem a xs × (b ≡ f a)
Elem-map f b [] h = absurd h
Elem-map f b (x ∷ xs) (inl e) = (x, inl refl, e)
Elem-map f b (x ∷ xs) (inr h) = let (a, m, e) = Elem-map f b xs h in (a, inr m, e)

Elem-under :
    (e f g : Entry) (es es' : List Entry)
    → (Elem e es' → Elem e (f ∷ es))
    → Elem e (g ∷ es')
    → Elem e (f ∷ g ∷ es)
Elem-under e f g es es' ih (inl q) = inr (inl q)
Elem-under e f g es es' ih (inr m) = elim (ih m) [ inl q ↦ inl q | inr n ↦ inr (inr n) ]

Elem-insert_deeper : (e f : Entry) (es : List Entry) → Elem e (insert_deeper f es) → Elem e (f ∷ es)
unfolding insert_deeper
Elem-insert_deeper e f [] h = h
Elem-insert_deeper e f (g ∷ es) h = elim (Bool-cases (ltb (depth f.path) (depth g.path))) [
  | inl t ↦ Elem-under e f g es (insert_deeper f es) (Elem-insert_deeper e f es) (rw t at h)
  | inr t ↦ rw t at h
]

Elem-deepest_first : (e : Entry) (es : List Entry) → Elem e (deepest_first es) → Elem e es
unfolding deepest_first
Elem-deepest_first e [] h = h
Elem-deepest_first e (f ∷ es) h =
    rest (Elem-insert_deeper e f (deepest_first es) h) (Elem-deepest_first e es)
  where
    rest : Elem e (f ∷ deepest_first es) → (Elem e (deepest_first es) → Elem e es) → Elem e (f ∷ es)
    rest (inl q) ih = inl q
    rest (inr m) ih = inr (ih m)

module _ (src_path dst_path : Text) where
  entry_action-keeps :
      (m : Dict Text Entry) (s : Entry) (a : Action)
      → Elem a (entry_action src_path dst_path m s)
      → ¬ IsDelete a
  unfolding entry_action
  entry_action-keeps m s a h =
      place-keeps s.path _ _ s (lookup s.path m) (classify s (lookup s.path m)) a
        (classify-keeps s (lookup s.path m)) h

  entry_actions-keeps :
      (m : Dict Text Entry) (ss : List Entry) (a : Action)
      → Elem a (entry_actions src_path dst_path m ss)
      → ¬ IsDelete a
  entry_actions-keeps m [] a h = absurd h
  entry_actions-keeps m (s ∷ ss) a h =
      elim (Elem-append a (entry_action src_path dst_path m s) _ h) [
        | inl l ↦ entry_action-keeps m s a l
        | inr r ↦ entry_actions-keeps m ss a r
      ]

  pub root_actions-keeps :
      (sroot : Entry) (d : Option Entry) (a : Action)
      → Elem a (root_actions src_path dst_path sroot d)
      → ¬ IsDelete a
  unfolding root_actions
  root_actions-keeps sroot none a (inl e) q = cc (e, q)
  root_actions-keeps sroot none a (inr h) q = absurd h
  root_actions-keeps sroot (some d) a h q =
      place-keeps _ src_path dst_path sroot (some d) (classify sroot (some d)) a
        (classify-keeps sroot (some d)) h q

  -- A deletion of the plan comes from an entry of the destination's listing.
  pub plan_listings-delete :
      (o : Options) (root : List Action) (n : ℕ) (slist dlist : List Entry) (a : Action)
      → ((b : Action) → Elem b root → ¬ IsDelete b)
      → Elem a (plan_listings src_path dst_path o root n slist dlist).actions
      → IsDelete a
      → (o.delete ≡ true)
        × ((e : Entry) × Elem e dlist
            × (seen slist e.path ≡ false)
            × (a ≡ delete_action src_path dst_path e))
  unfolding plan_listings
  plan_listings-delete o root n slist dlist a keeps h k = elim (Elem-append a root _ h) [
    | inl r ↦ absurd (keeps a r k)
    | inr h₁ ↦ elim (Elem-append a (keep (is_mkdir src_path dst_path) actions) _ h₁) [
      | inl r ↦ absurd (of_source (Elem-keep _ a actions r).0 k)
      | inr h₂ ↦
          elim (Elem-append a (keep (λ b. not (is_mkdir src_path dst_path b)) actions) _ h₂) [
            | inl r ↦ absurd (of_source (Elem-keep _ a actions r).0 k)
            | inr d ↦ deleted d
          ]
    ]
  ]
    where
      actions : List Action
      actions = entry_actions src_path dst_path (dst_map dlist []) slist

      extra : List Entry
      extra = keep (λ e. not (seen slist e.path)) dlist

      of_source : Elem a actions → ¬ IsDelete a
      of_source = entry_actions-keeps (dst_map dlist []) slist a

      from_extra :
          Elem a (map (delete_action src_path dst_path) (deepest_first extra))
          → (e : Entry) × Elem e dlist
            × (seen slist e.path ≡ false)
            × (a ≡ delete_action src_path dst_path e)
      from_extra d =
          let (e, m, q) = Elem-map (delete_action src_path dst_path) a (deepest_first extra) d in
          let r = Elem-keep (λ e. not (seen slist e.path)) e dlist (Elem-deepest_first e extra m) in
          (e, r.0, ground arith, q)

      deleted :
          Elem a
            (if o.delete then map (delete_action src_path dst_path) (deepest_first extra) else [])
          → (o.delete ≡ true)
            × ((e : Entry) × Elem e dlist
                × (seen slist e.path ≡ false)
                × (a ≡ delete_action src_path dst_path e))
      deleted d = elim (Bool-cases o.delete) [
        | inl t ↦ (t, from_extra (rw t at d))
        | inr f ↦ absurd (rw f at d)
      ]
