-- ===== src/Build/Planned.antt =====
-- What `BuildPlan` as a whole may delete.
use vextra.Base.{
  ◌-◌, ◌≡◌, ◌⊎◌, refl, sym, ap, ◌∙◌, inl, inr, Bool, true, false, Option, none, some, List, [], ◌∷◌,
  map, arith, str_eq, if◌then◌else◌, Bool-cases, length, All, Text, Elem, Elem-keep,
}
use vextra.Base.Result.{Result, err, attempt, ok, ◌>>=◌, pure, >>=-ok}
use mathlib.Core.Path.{subst}
use vextra.Entry.{Entry, t_file, t_dir}
use vextra.Path.{dot, base, path_join}
use vextra.Excludes.{ExcludeSet, excluded, filter_excluded}
use vextra.Listing.{check_entries}
use vextra.Listing.Accepted.{IsSafe, check_entries-IsSafe}
use vextra.Fs.{Fs}
use vextra.Plan.{Action, Options, Plan, classify, empty_plan}
use vextra.Plan.Kinds.{IsDelete, classify-keeps}
use vextra.Plan.Counted.{finish-Counts}
use vextra.Build.{
  is_not_exist, place, to_list, seen, delete_action, root_actions, plan_listings, from_check,
  if_exists, plan_file, required, file_plan, plan_listed, dir_plan, list_dst, plan_dir, plan_rooted,
  build_plan,
}
use vextra.Build.Deletions.{plan_listings-delete, place-keeps, root_actions-keeps}

from_check-ok :
    {S : Type 0} (list : List Entry) (s t : S) (u : Unit {0})
    → from_check (check_entries list) s ≡ (ok u, t)
    → All (IsSafe list) list × (s ≡ t)
from_check-ok list s t u h = elim (check_entries-IsSafe list) [
  | inl (e, safe) ↦ (safe, cc (rw e at h))
  | inr (e, _) ↦ cc (rw e at h)
]

module _ (path_match : Text → Text → Option Bool) where
  filter_excluded-Elem :
      (e : Entry) (list : List Entry) (es : Option ExcludeSet)
      → Elem e (filter_excluded path_match list es)
      → Elem e list × (excluded path_match es e.path e.type ≡ false)
  unfolding filter_excluded excluded
  filter_excluded-Elem e list none h = (h, refl)
  filter_excluded-Elem e list (some []) h = (h, refl)
  filter_excluded-Elem e list (some (p ∷ ps)) h =
      let r = Elem-keep _ e list h in (r.0, ground arith)

  -- What allows the plan to delete: an entry of the destination's listing, which the source's has not;
  -- the listings are asked for one after the other, from the state `s` on.
  pub record Licensed {S H K : Type 0} (src : Fs S H) (dst : Fs S K) (src_path dst_path : Text)
      (o : Options) (s : S) (a : Action) : Type 0 where
    pub asked : o.delete ≡ true
    pub slist : List Entry
    pub dlist : List Entry
    pub middle : S
    pub after : S
    pub source_listed : src.list src_path true s ≡ (ok slist, middle)
    pub destination_listed : dst.list dst_path true middle ≡ (ok dlist, after)
    pub source_safe : All (IsSafe slist) slist
    pub destination_safe : All (IsSafe dlist) dlist
    pub entry : Entry
    pub is_listed : Elem entry dlist
    pub is_action : a ≡ delete_action src_path dst_path entry
    pub not_in_source : seen (filter_excluded path_match slist o.exclude) entry.path ≡ false
    pub not_excluded : excluded path_match o.exclude entry.path entry.type ≡ false

file_plan-keeps :
    (src_path target : Text) (sroot : Entry) (current : Option Entry) (a : Action)
    → Elem a (file_plan src_path target sroot current).actions
    → ¬ IsDelete a
unfolding file_plan
file_plan-keeps src_path target sroot current a m k =
    let p = record empty_plan {
      actions = map (place dot src_path target sroot current) (to_list (classify sroot current));
    } in
    place-keeps dot src_path target sroot current (classify sroot current) a
      (classify-keeps sroot current) (subst (Elem a) ((finish-Counts p).actions_kept) m) k

module _ (path_match : Text → Text → Option Bool) {S H K : Type 0} (src : Fs S H) (dst : Fs S K)
    (src_path dst_path : Text) (o : Options) where
  -- What the destination lists.
  abbrev Listed : List Entry → S → Type 0
  Listed dlist m = (t : S) × (dst.list dst_path true m ≡ (ok dlist, t))

  -- A listing with an entry was asked for.
  from_listing :
      (dlist : List Entry) (m : S) (e : Entry)
      → (dlist ≡ []) ⊎ Listed dlist m
      → Elem e dlist
      → Listed dlist m
  from_listing dlist m e (inl q) h = absurd (subst (Elem e) q h)
  from_listing dlist m e (inr g) h = g

  dir_plan-Licensed :
      (sroot : Entry) (droot : Option Entry) (slist dlist : List Entry) (s m : S) (a : Action)
      → src.list src_path true s ≡ (ok slist, m)
      → (dlist ≡ []) ⊎ Listed dlist m
      → All (IsSafe slist) slist
      → All (IsSafe dlist) dlist
      → Elem a (dir_plan path_match src dst src_path dst_path o sroot droot slist dlist).actions
      → IsDelete a
      → Licensed path_match src dst src_path dst_path o s a
  unfolding dir_plan
  dir_plan-Licensed sroot droot slist dlist s t a sl dl ss ds h k =
      let n = length slist - length (filter_excluded path_match slist o.exclude) in
      let p =
        plan_listings src_path dst_path o (root_actions src_path dst_path sroot droot) n
          (filter_excluded path_match slist o.exclude)
          (filter_excluded path_match dlist o.exclude) in
      let (asked, (e, m, unseen, q)) =
        plan_listings-delete src_path dst_path o (root_actions src_path dst_path sroot droot) n
          (filter_excluded path_match slist o.exclude) (filter_excluded path_match dlist o.exclude)
          a (root_actions-keeps src_path dst_path sroot droot)
          (subst (Elem a) ((finish-Counts p).actions_kept) h) k in
      let r = filter_excluded-Elem path_match e dlist o.exclude m in
      record {
        asked = asked;
        slist = slist;
        dlist = dlist;
        middle = t;
        after = (from_listing dlist t e dl r.0).0;
        source_listed = sl;
        destination_listed = (from_listing dlist t e dl r.0).1;
        source_safe = ss;
        destination_safe = ds;
        entry = e;
        is_listed = r.0;
        is_action = q;
        not_in_source = unseen;
        not_excluded = r.1;
      }

  list_dst-Gave :
      (droot : Option Entry) (l : List Entry) (s t : S)
      → list_dst path_match src dst dst_path droot s ≡ (ok l, t)
      → (l ≡ []) ⊎ Listed l s
  unfolding list_dst
  list_dst-Gave none l s t h = inl (cc h)
  list_dst-Gave (some d) l s t h =
      let q =
        >>=-ok (dst.list dst_path true) (λ l. from_check (check_entries l) >>= λ _. pure l) s l t
          h in
      let r =
        >>=-ok (from_check (check_entries q.value)) (λ _. pure q.value) q.state l t q.second in
      let e : q.value ≡ l = cc (r.second) in
      inr (subst (λ (x : List Entry). Listed x s) e (q.state, q.first))

  list_dst-IsSafe :
      (droot : Option Entry) (l : List Entry) (s t : S)
      → list_dst path_match src dst dst_path droot s ≡ (ok l, t)
      → All (IsSafe l) l
  unfolding list_dst
  list_dst-IsSafe none l s t h =
      let e : [] ≡ l = cc h in subst (λ (x : List Entry). All (IsSafe x) x) e tt
  list_dst-IsSafe (some d) l s t h =
      let q =
        >>=-ok (dst.list dst_path true) (λ l. from_check (check_entries l) >>= λ _. pure l) s l t
          h in
      let r =
        >>=-ok (from_check (check_entries q.value)) (λ _. pure q.value) q.state l t q.second in
      let e : q.value ≡ l = cc (r.second) in
      subst (λ (x : List Entry). All (IsSafe x) x) e
        (from_check-ok q.value q.state r.state r.value r.first).0

  plan_listed-Licensed :
      (sroot : Entry) (droot : Option Entry) (p : Plan) (s t : S) (a : Action)
      → plan_listed path_match src dst src_path dst_path o sroot droot s ≡ (ok p, t)
      → Elem a p.actions
      → IsDelete a
      → Licensed path_match src dst src_path dst_path o s a
  unfolding plan_listed
  plan_listed-Licensed sroot droot p s t a h m k =
      let plan = dir_plan path_match src dst src_path dst_path o sroot droot in
      let dlisted = list_dst path_match src dst dst_path droot in
      let q =
        >>=-ok (src.list src_path true)
          (λ sl. from_check (check_entries sl) >>= λ _. dlisted >>= λ dl. pure (plan sl dl)) s p t
          h in
      let r =
        >>=-ok (from_check (check_entries q.value)) (λ _. dlisted >>= λ dl. pure (plan q.value dl))
          q.state p t q.second in
      let x = >>=-ok dlisted (λ dl. pure (plan q.value dl)) r.state p t r.second in
      let e : plan q.value x.value ≡ p = cc (x.second) in
      let same = (from_check-ok q.value q.state r.state r.value r.first).1 in
      dir_plan-Licensed sroot droot q.value x.value s q.state a q.first
        (subst (λ (w : S). (x.value ≡ []) ⊎ Listed x.value w) (sym same)
          (list_dst-Gave droot x.value r.state x.state x.first))
        (from_check-ok q.value q.state r.state r.value r.first).0
        (list_dst-IsSafe droot x.value r.state x.state x.first)
        (subst (λ (y : Plan). Elem a y.actions) (sym e) m) k

  plan_dir-Licensed :
      (sroot : Entry) (droot : Option Entry) (p : Plan) (s t : S) (a : Action)
      → plan_dir path_match src dst src_path dst_path o sroot droot s ≡ (ok p, t)
      → Elem a p.actions
      → IsDelete a
      → Licensed path_match src dst src_path dst_path o s a
  unfolding plan_dir
  plan_dir-Licensed sroot none p s t a h m k = plan_listed-Licensed sroot none p s t a h m k
  plan_dir-Licensed sroot (some d) p s t a h m k = elim (Bool-cases (str_eq d.type t_dir)) [
    | inl e ↦ plan_listed-Licensed sroot (some d) p s t a (rw e at h) m k
    | inr e ↦ cc (rw e at h)
  ]

  -- The plan of a single file deletes nothing.
  plan_file-keeps :
      (sroot : Entry) (droot : Option Entry) (p : Plan) (s t : S) (a : Action)
      → plan_file path_match src dst src_path dst_path sroot droot s ≡ (ok p, t)
      → Elem a p.actions
      → ¬ IsDelete a
  unfolding plan_file
  plan_file-keeps sroot none p s t a h m =
      let e : file_plan src_path dst_path sroot none ≡ p = cc h in
      file_plan-keeps src_path dst_path sroot none a
        (subst (λ (y : Plan). Elem a y.actions) (sym e) m)
  plan_file-keeps sroot (some d) p s t a h m =
      let inside = str_eq d.type t_dir in
      let target = if inside then path_join dst_path (base src_path) else dst_path in
      let q =
        >>=-ok (attempt (dst.stat target false))
          (λ f. (if inside then if_exists f else required f) >>= λ c.
            pure (file_plan src_path target sroot c))
          s p t h in
      let r =
        >>=-ok (if inside then if_exists q.value else required q.value)
          (λ c. pure (file_plan src_path target sroot c)) q.state p t q.second in
      let e : file_plan src_path target sroot r.value ≡ p = cc (r.second) in
      file_plan-keeps src_path target sroot r.value a
        (subst (λ (y : Plan). Elem a y.actions) (sym e) m)

  plan_rooted-Licensed :
      (sroot : Entry) (droot : Option Entry) (p : Plan) (s t : S) (a : Action)
      → plan_rooted path_match src dst src_path dst_path o sroot droot s ≡ (ok p, t)
      → Elem a p.actions
      → IsDelete a
      → Licensed path_match src dst src_path dst_path o s a
  unfolding plan_rooted
  plan_rooted-Licensed sroot droot p s t a h m k = elim (Bool-cases (str_eq sroot.type t_file)) [
    | inl e ↦ absurd (plan_file-keeps sroot droot p s t a (rw e at h) m k)
    | inr e ↦ elim (Bool-cases (str_eq sroot.type t_dir)) [
      | inl f ↦ plan_dir-Licensed sroot droot p s t a (rw (e, f) at h) m k
      | inr f ↦ cc (rw (e, f) at h)
    ]
  ]

  if_exists-state :
      (r : Result Entry) (d : Option Entry) (s t : S) → if_exists r s ≡ (ok d, t) → s ≡ t
  if_exists-state (ok e) d s t h = cc h
  if_exists-state (err e) d s t h = elim (Bool-cases (is_not_exist e)) [
    | inl q ↦ cc (rw q at h)
    | inr q ↦ cc (rw q at h)
  ]

  -- Whatever the two file systems answer: if `BuildPlan` returns a plan, each deletion in it was
  -- asked for by `--delete`, and is the deletion of an entry of the listing that the destination gave
  -- for its path, behind the one that the source gave for its own. Both listings were accepted; the
  -- filtered listing of the source has no entry of that path, and no exclusion pattern covers it.
  pub build_plan-Licensed :
      (p : Plan) (s t : S) (a : Action)
      → build_plan path_match src dst src_path dst_path o s ≡ (ok p, t)
      → Elem a p.actions
      → IsDelete a
      → Licensed path_match src dst src_path dst_path o
          (dst.stat dst_path true (src.stat src_path true s).1).1
          a
  unfolding build_plan
  build_plan-Licensed p s t a h m k =
      let rooted = plan_rooted path_match src dst src_path dst_path o in
      let q =
        >>=-ok (src.stat src_path true)
          (λ sroot.
            attempt (dst.stat dst_path true) >>= λ f. if_exists f >>= λ droot. rooted sroot droot)
          s p t h in
      let r =
        >>=-ok (attempt (dst.stat dst_path true))
          (λ f. if_exists f >>= λ droot. rooted q.value droot) q.state p t q.second in
      let x = >>=-ok (if_exists r.value) (rooted q.value) r.state p t r.second in
      let e : (dst.stat dst_path true (src.stat src_path true s).1).1 ≡ x.state =
        ap (λ y. (dst.stat dst_path true y.1).1) q.first
        ∙ ap (λ y. y.1) r.first
        ∙ if_exists-state r.value x.value r.state x.state x.first in
      subst (λ (w : S). Licensed path_match src dst src_path dst_path o w a) (sym e)
        (plan_rooted-Licensed q.value x.value p x.state t a x.second m k)
