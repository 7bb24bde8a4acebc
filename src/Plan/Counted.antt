-- ===== src/Plan/Counted.antt =====
-- The counters of `Plan.finish`.
use vextra.Base.{
  ℕ, ◌+◌, ◌%◌, ◌^◌, ◌≡◌, refl, Bool, true, false, ◌&&◌, List, [], ◌∷◌, arith, if◌then◌else◌,
}
use vextra.Plan.{
  ActKind, act_mkdir, act_file, act_link, act_meta, act_delete, Action, Plan, count_action,
  finish_loop, finish, size_of, is_new,
}

abbrev is_kind : ActKind → ActKind → Bool
is_kind act_mkdir act_mkdir = true
is_kind act_file act_file = true
is_kind act_link act_link = true
is_kind act_meta act_meta = true
is_kind act_delete act_delete = true
is_kind _ _ = false

-- How many actions pass a test.
abbrev pub count : (Action → Bool) → List Action → ℕ
count p [] = 0
count p (a ∷ rest) = (if p a then 1 else 0) + count p rest

abbrev pub of_kind : ActKind → Action → Bool
of_kind k a = is_kind a.kind k

-- The bytes of the files to transfer.
abbrev pub file_bytes : List Action → ℕ
file_bytes [] = 0
file_bytes (a ∷ rest) = (if of_kind act_file a then size_of a.src else 0) + file_bytes rest

-- The counters of `q` are those of `p` and the actions.
pub record Counts (actions : List Action) (p q : Plan) : Type 0 where
  pub files : q.files ≡ p.files + count (of_kind act_file) actions
  pub new_files : q.new_files ≡ p.new_files + count (λ a. of_kind act_file a && is_new a) actions
  pub split : q.new_files + q.mod_files + p.files ≡ p.new_files + p.mod_files + q.files
  pub dirs : q.dirs ≡ p.dirs + count (of_kind act_mkdir) actions
  pub links : q.links ≡ p.links + count (of_kind act_link) actions
  pub metas : q.metas ≡ p.metas + count (of_kind act_meta) actions
  pub deletes : q.deletes ≡ p.deletes + count (of_kind act_delete) actions
  pub bytes : q.bytes % 2 ^ 64 ≡ (p.bytes + file_bytes actions) % 2 ^ 64
  pub actions_kept : q.actions ≡ p.actions

count_one :
    (k : ActKind) (a : Action) (p : Plan) → a.kind ≡ k → Counts (a ∷ []) p (count_action k a p)
unfolding count_action
count_one act_mkdir a p e = ground arith
count_one k a p e = ground arith

finish_loop-Counts : (actions : List Action) (p : Plan) → Counts actions p (finish_loop actions p)
unfolding finish_loop
finish_loop-Counts [] p = ground arith
finish_loop-Counts (a ∷ rest) p =
    ground (arith, count_one a.kind a p refl, finish_loop-Counts rest (count_action a.kind a p))

-- `finish` adds to each counter the number of actions of its kind: files, new files (no entry in
-- the destination, or one to replace), directories, links, metadata, deletions. New and modified
-- files together are the files, and `Bytes` is the sum of the file sizes modulo 2 ^ 64.
pub finish-Counts : (p : Plan) → Counts p.actions p (finish p)
unfolding finish
finish-Counts p = finish_loop-Counts p.actions p
