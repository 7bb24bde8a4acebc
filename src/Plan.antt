-- ===== src/Plan.antt =====
-- The plan of a synchronisation: `Options`, `Action`, `Plan`, `classify`, `Plan.finish` and
-- `checkSafety` of engine.go.
pub mod Classified
pub mod Counted
pub mod Kinds
pub mod Safety
use vextra.Base.{
  ℕ, zero, suc, ◌+◌, ◌-◌, ◌*◌, ◌/◌, ◌%◌, ◌^◌, ◌≤◌, ◌<◌, min, String, ◌≡◌, refl, sym, ap, ◌∙◌, ◌≢◌,
  ◌↔◌, ◌⊎◌, inl, inr, Bool, true, false, not, ◌&&◌, ◌||◌, Option, none, some, List, [], ◌∷◌, ◌++◌,
  map, arith, str_eq, eq_iff, ltb, leb, ◌==◌, if◌then◌else◌, ltb→lt, lt→ltb, leb→le, le→leb, ==_iff,
  Bool-cases, Option-cases, none≢some, length, get_elem?, take, drop, replicate, keep, All, any,
  length-append, length-take, length-drop, length-replicate, take-append-drop, take_all, drop_all,
  take-length-append, drop-length-append, get_elem?-append, get_elem?-take, get_elem?-drop,
  get_elem?-replicate, get_elem?_ge, get_elem?_lt, eq_of_get_elem?, Text, codes, text_eq,
  text_eq_refl, eq_of_text_eq, text_eq_iff, has_prefix, has_prefix_append, has_prefix_split,
  contains_byte, trim_prefix, has_suffix, trim_suffix,
}
use vextra.Base.Int.{ℤ, pos, negsuc, pos_part, neg_part, sub_ℕ, ◌+ℤ◌, ◌-ℤ◌, ltb_ℤ, eqb_ℤ}
use native.Mathlib.Decide.{dec_lt}
use vextra.Base.Result.{Err, Result, ok, err, bind, M, ◌>>=◌, ◌>>◌, pure, raise}
use vextra.Entry.{Entry, t_file, t_dir, t_link}
use vextra.Excludes.{ExcludeSet}

-- The fields of `Options` that decide what is done. `confirm` is the answer that the callback
-- would give; `none` is a nil callback.
pub record Options : Type 0 where
  pub delete : Bool
  pub max_delete : ℤ
  pub confirm_mass : Bool
  pub confirm_over : ℤ
  pub confirm : Option Bool
  pub block_size : ℕ
  pub small_file : ℕ
  pub resume : Bool
  pub deep : Bool
  pub exclude : Option ExcludeSet

pub data ActKind : Type 0 where
  act_mkdir act_file act_link act_meta act_delete : ActKind

pub record DeltaInfo : Type 0 where
  pub bs : ℕ
  pub blocks : ℕ
  pub changed : ℕ
  pub bytes : ℤ
  pub same : Bool
  pub resume : Bool

-- `src` is nil in a deletion only.
pub record Action : Type 0 where
  pub kind : ActKind
  pub rel : Text
  pub src_path : Text
  pub dst_path : Text
  pub src : Option Entry
  pub dst : Option Entry
  pub why : String
  pub replace : Bool
  pub delta : Option DeltaInfo

-- `&Action{Kind: k, Why: why, Replace: replace}`
abbrev pub act : ActKind → String → Bool → Option Action
act k why replace = some (record {
  kind = k;
  rel = [];
  src_path = [];
  dst_path = [];
  src = none;
  dst = none;
  why = why;
  replace = replace;
  delta = none;
})

classify_dir : Entry → Option Entry → Option Action
classify_dir s none = act act_mkdir "nuevo" false
classify_dir s (some d) =
    if not (str_eq d.type t_dir)
    then act act_mkdir "tipo distinto" true
    else if not (d.mode == s.mode) || not (eqb_ℤ d.mtime s.mtime)
    then act act_meta (if d.mode == s.mode then "mtime" else "permisos") false
    else none

classify_link : Entry → Option Entry → Option Action
classify_link s none = act act_link "nuevo" false
classify_link s (some d) =
    if not (str_eq d.type t_link)
    then act act_link "tipo distinto" true
    else if not (text_eq d.link s.link)
    then act act_link "destino del enlace" true
    else none

classify_file : Entry → Option Entry → Option Action
classify_file s none = act act_file "nuevo" false
classify_file s (some d) =
    if not (str_eq d.type t_file)
    then act act_file "tipo distinto" true
    else if not (d.size == s.size)
    then act act_file "tamaño" false
    else if not (eqb_ℤ d.mtime s.mtime)
    then act act_file "mtime" false
    else if not (d.mode == s.mode)
    then act act_meta "permisos" false
    else none

unfoldable pub classify : Entry → Option Entry → Option Action
unfolding classify_dir classify_link classify_file
classify s d =
    if str_eq s.type t_dir
    then classify_dir s d
    else if str_eq s.type t_link
    then classify_link s d
    else if str_eq s.type t_file
    then classify_file s d
    else none

pub record Plan : Type 0 where
  pub actions : List Action
  pub extra : List Entry
  pub files : ℕ
  pub new_files : ℕ
  pub mod_files : ℕ
  pub dirs : ℕ
  pub links : ℕ
  pub metas : ℕ
  pub deletes : ℕ
  -- the bit pattern of an int64
  pub bytes : ℕ
  pub excluded : ℕ

abbrev pub empty_plan : Plan
empty_plan = record {
  actions = [];
  extra = [];
  files = 0;
  new_files = 0;
  mod_files = 0;
  dirs = 0;
  links = 0;
  metas = 0;
  deletes = 0;
  bytes = 0;
  excluded = 0;
}

abbrev pub size_of : Option Entry → ℕ
size_of none = 0
size_of (some e) = e.size

-- `a.Dst == nil || a.Replace`
abbrev pub is_new : Action → Bool
is_new a = elim a.dst [ none ↦ true | some _ ↦ a.replace ]

-- One round of the loop of `finish`. The counters hold less than 2 ^ 63 actions.
count_action : ActKind → Action → Plan → Plan
count_action act_mkdir a p = record p { dirs = p.dirs + 1 }
count_action act_link a p = record p { links = p.links + 1 }
count_action act_meta a p = record p { metas = p.metas + 1 }
count_action act_delete a p = record p { deletes = p.deletes + 1 }
count_action act_file a p = record p {
  files = p.files + 1;
  bytes = (p.bytes + size_of a.src) % 2 ^ 64;
  new_files = if is_new a then p.new_files + 1 else p.new_files;
  mod_files = if is_new a then p.mod_files else p.mod_files + 1;
}

finish_loop : List Action → Plan → Plan
unfolding count_action
finish_loop [] p = p
finish_loop (a ∷ rest) p = finish_loop rest (count_action a.kind a p)

unfoldable pub finish : Plan → Plan
unfolding finish_loop
finish p = finish_loop p.actions p

-- `HasChanges`
abbrev pub has_changes : Plan → Bool
has_changes p = elim p.actions [ [] ↦ false | _ ∷ _ ↦ true ]

unfoldable pub check_safety : Plan → Options → Result (Unit {0})
check_safety p o =
    if p.deletes == 0
    then ok tt
    else if not (ltb_ℤ o.max_delete (pos 0)) && ltb_ℤ o.max_delete (pos p.deletes)
    then err Err.safety
    else if o.confirm_mass && not (ltb_ℤ (pos p.deletes) o.confirm_over)
    then elim o.confirm [ none ↦ err Err.safety | some true ↦ ok tt | some false ↦ err Err.safety ]
    else ok tt
