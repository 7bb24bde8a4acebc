-- ===== src/Tests/Plans.antt =====
-- Plans, and their execution, at concrete data.
use vextra.Base.{
  ℕ, ◌+◌, String, ◌≡◌, refl, ◌↔◌, ◌⊎◌, inl, inr, Bool, true, false, Option, none, some, List, [],
  ◌∷◌, Text, codes, contains_byte,
}
use vextra.Base.Int.{pos}
use vextra.Base.Result.{Err, Result, ok, pure, raise}
use vextra.Entry.{Entry, t_file, t_dir}
use vextra.Delta.{no_sigs}
use vextra.Listing.{check_entries}
use vextra.Excludes.{excluded, filter_excluded}
use vextra.Fs.{Fs}
use vextra.Plan.{act_mkdir, Action, Options, Plan, classify, finish, empty_plan}
use vextra.Plan.Classified.{UpToDate, classify-eq-none}
use vextra.Build.{
  build_plan, delete_action, plan_rooted, plan_dir, plan_listed, list_dst, dir_plan, root_actions,
  plan_listings, deepest_first, insert_deeper, dst_map, is_not_exist,
}
use vextra.Build.Planned.{Licensed, build_plan-Licensed}
use vextra.Engine.{Run, no_stats, clear_way}
use vextra.Execute.{execute, make_dir, no_queues}
use vextra.Sync.{run_sync}
use vextra.Sync.Guarded.{IsAllowed, run_sync-IsAllowed}
use vextra.Execute.Queued.{without_deletes}
use vextra.Execute.Failed.{dirs, dir_here}
use vextra.Execute.Spared.{execute-Fails}

abbrev pub entry_of : String → String → Entry
entry_of path type = record {
  path = codes path;
  type = type;
  size = 3;
  mode = 420;
  mtime = pos 7;
  link = [];
}

abbrev pub options : Options
options = record {
  delete = true;
  max_delete = pos 10;
  confirm_mass = true;
  confirm_over = pos 5;
  confirm = none;
  block_size = 0;
  small_file = 65536;
  resume = true;
  deep = false;
  exclude = none;
}

-- A file system that holds one directory with the given entries, counts what is removed, and is
-- read only but for that.
abbrev pub shelf : List Entry → Fs ℕ ℕ
shelf entries = record {
  stat = λ p follow. pure (entry_of "." t_dir);
  list = λ p recursive. pure entries;
  mkdir = λ p mode. raise Err.other;
  remove = λ p recursive removed. (ok tt, removed + 1);
  rename = λ from to. raise Err.other;
  symlink = λ target p. raise Err.other;
  set_meta = λ p mode mtime. pure tt;
  sigs = λ p job bs. pure no_sigs;
  read_at = λ p off n. raise Err.not_exist;
  begin = λ p job size use_base. raise Err.other;
  write_at = λ h p off. raise Err.other;
  commit = λ h sum mode mtime. raise Err.other;
  abort = λ h removed. removed;
  home = [];
}

abbrev no_match : Text → Text → Option Bool
no_match pattern name = some false

classify-eq-none_example :
    (classify (entry_of "f" t_file) (some (entry_of "f" t_file)) ≡ none)
    ↔ ((e : Entry) × (some (entry_of "f" t_file) ≡ some e) × UpToDate (entry_of "f" t_file) e)
classify-eq-none_example =
    classify-eq-none (entry_of "f" t_file) (some (entry_of "f" t_file)) (inr (inr refl))

abbrev stale : Action
stale = delete_action [] (codes "d") (entry_of "old" t_file)

abbrev new_dir : Action
new_dir = record stale {
  kind = act_mkdir;
  rel = codes "x";
  src = some (entry_of "x" t_dir);
  dst = none;
}

abbrev counted : Plan
counted = record empty_plan { actions = new_dir ∷ stale ∷ [] }

abbrev mass : Plan
mass = record empty_plan { deletes = 7 }

abbrev planned : Result Plan × ℕ
planned =
    build_plan no_match (shelf []) (shelf (entry_of "old" t_file ∷ [])) (codes "s") (codes "d")
      options 0

abbrev pruned : Plan
pruned = finish (record empty_plan { actions = stale ∷ []; extra = entry_of "old" t_file ∷ [] })

build_plan-Licensed_example :
    Licensed no_match
      (shelf [])
      (shelf (entry_of "old" t_file ∷ []))
      (codes "s")
      (codes "d")
      options
      0
      stale
unfolding build_plan plan_rooted plan_dir plan_listed list_dst dir_plan root_actions plan_listings
    delete_action deepest_first insert_deeper dst_map filter_excluded excluded finish check_entries
    classify is_not_exist contains_byte
build_plan-Licensed_example =
    build_plan-Licensed no_match (shelf []) (shelf (entry_of "old" t_file ∷ [])) (codes "s")
      (codes "d") options pruned 0 0 stale refl (inl refl) refl

abbrev fresh : Run ℕ
fresh = record { world = 0; stats = no_stats; fails = [] }

abbrev run : List Action → Run ℕ → Result (Unit {0}) × Run ℕ
run =
    execute (λ t. t) (λ p size mtime resume. []) (λ is. is) (λ acts. acts) (shelf []) (shelf [])
      options

execute-Fails_example :
    run (new_dir ∷ stale ∷ []) fresh ≡ run (without_deletes (new_dir ∷ stale ∷ [])) fresh
unfolding make_dir clear_way delete_action
execute-Fails_example =
    execute-Fails (λ t. t) (λ p size mtime resume. []) (λ is. is) (λ acts. acts) (shelf [])
      (shelf []) options (new_dir ∷ stale ∷ []) fresh
      (dirs (dir_here new_dir (stale ∷ []) no_queues fresh Err.other refl refl))

-- The source is empty, the destination has one stale file, and one deletion is within the limits.
run_sync-IsAllowed_example :
    ((run_sync no_match
        (λ t. t)
        (λ p size mtime resume. [])
        (λ is. is)
        (λ acts. acts)
        (shelf [])
        (shelf (entry_of "old" t_file ∷ []))
        options
        (codes "s")
        (codes "d")
        false
        0).1
      ≡ planned.1)
    ⊎ ((p : Plan) × (planned.0 ≡ ok p)
        × IsAllowed no_match
            (λ t. t)
            (λ p size mtime resume. [])
            (λ is. is)
            (λ acts. acts)
            (shelf [])
            (shelf (entry_of "old" t_file ∷ []))
            options
            p)
run_sync-IsAllowed_example =
    run_sync-IsAllowed no_match (λ t. t) (λ p size mtime resume. []) (λ is. is) (λ acts. acts)
      (shelf []) (shelf (entry_of "old" t_file ∷ [])) options (codes "s") (codes "d") 0
