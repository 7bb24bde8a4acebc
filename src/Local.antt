-- ===== src/Local.antt =====
-- localfs.go: `LocalFS`, an `Fs` over the operating system, and its confinement to a root. The texts of
-- errors are left out. Files are in a module of their own below.
pub mod Files
pub mod Ended
pub mod Delivered
pub mod Confined
pub mod Refused
pub mod Unchanged
pub mod Published
use vextra.Base.{
  ℕ, zero, suc, ◌+◌, ◌%◌, String, Bool, false, not, ◌&&◌, ◌||◌, Option, none, some, List, [], ◌∷◌,
  ◌++◌, if◌then◌else◌, length, Text, text_eq, has_prefix, contains,
}
use vextra.Base.Int.{ℤ, pos, eqb_ℤ}
use vextra.Base.Result.{Err, Result, ok, err, M, ◌>>=◌, ◌>>◌, pure, raise}
use vextra.Entry.{Entry, t_file, t_dir, t_link, tmp_marker}
use vextra.Path.{slash, dot, clean, dir, is_abs, path_join}
use vextra.Os.{FileInfo, DirEntry, Os}

pub record LocalFs : Type 0 where
  pub root : Text
  pub real_root : Text
  pub base : Text

-- What the search for the deepest ancestor that exists comes to.
pub data Existing : Type 0 where
  at : Text → Existing
  nowhere no_fuel : Existing

-- `p == root || strings.HasPrefix(p, root+"/")`
unfoldable pub within : Text → Text → Bool
within root p = text_eq p root || has_prefix p (root ++ (slash ∷ []))

abbrev pub is_temp_name : Text → Bool
is_temp_name name = contains name tmp_marker

abbrev real_of : Text → Result Text → Text
real_of root (err e) = root
real_of root (ok r) = r

abbrev pub judge : LocalFs → Result Text → Result (Unit {0})
judge l (err e) = ok tt
judge l (ok real) = if within l.real_root real then ok tt else err Err.outside_root

-- The path of `resolve` before it is checked.
unfoldable pub normalize : LocalFs → Text → Text
normalize l p =
    let q = if text_eq p [] then dot else p in
    clean (if not (is_abs q) && not (text_eq l.base []) then path_join l.base q else q)

-- `Home`
abbrev pub home_of : Result Text → Text
home_of (ok h) = h
home_of (err e) = slash ∷ []

abbrev link_target : Result Text → Text
link_target (ok t) = t
link_target (err e) = []

abbrev entry_with : String → ℕ → Text → Text → FileInfo → Entry
entry_with type size link rel fi = record {
  path = rel;
  type = type;
  size = size;
  mode = fi.perm;
  mtime = fi.mtime;
  link = link;
}

-- The paths that `Remove` refuses.
unfoldable pub is_root : LocalFs → Text → Bool
is_root l rp =
    text_eq rp (slash ∷ []) || text_eq rp dot || (not (text_eq l.root []) && text_eq rp l.root)

abbrev put : Option Entry → List Entry → List Entry
put none es = es
put (some e) es = e ∷ es

module _ {S D : Type 0} (os : Os S D) where
  unfoldable pub new_local_fs : Text → Text → S → LocalFs × S
  new_local_fs root base s =
      let (r, s') = os.eval_symlinks (clean root) s in
      if text_eq root [] || text_eq root (slash ∷ [])
      then (record { root = []; real_root = []; base = base }, s)
      else (record { root = clean root; real_root = real_of (clean root) r; base = base }, s')

  abbrev pub look : Text → Existing × S → Result FileInfo × S → Existing × S
  look cur rest (ok fi, s) = (at cur, s)
  look cur rest (err e, s) = if text_eq (dir cur) cur then (nowhere, s) else rest

  -- The loop of `checkEscape` on fuel.
  unfoldable pub deepest : ℕ → Text → S → Existing × S
  deepest zero cur s = (no_fuel, s)
  deepest (suc f) cur s = let x = os.lstat cur s in look cur (deepest f (dir cur) x.1) x

  abbrev pub escape_of : LocalFs → Existing × S → Result (Unit {0}) × S
  escape_of l (at cur, s) = let (x, s') = os.eval_symlinks cur s in (judge l x, s')
  escape_of l (nowhere, s) = (ok tt, s)
  escape_of l (no_fuel, s) = (err Err.other, s)

  -- A path has fewer ancestors than bytes.
  unfoldable pub check_escape : LocalFs → Text → M S (Unit {0})
  check_escape l d s = escape_of l (deepest (length d) d s)

  unfoldable pub confine : LocalFs → Text → M S Text
  confine l p =
      if text_eq l.root []
      then pure p
      else if not (is_abs p)
      then raise Err.outside_root
      else if not (within l.root p)
      then raise Err.outside_root
      else if text_eq p l.root
      then pure p
      else check_escape l (dir p) >>= λ u. pure p

  abbrev pub resolve : LocalFs → Text → M S Text
  resolve l p = confine l (normalize l p)

  abbrev link_entry : Text → Text → FileInfo → M S (Option Entry)
  link_entry rel full fi s =
      let (t, s') = os.readlink full s in
      (ok (some (entry_with t_link 0 (link_target t) rel fi)), s')

  -- Sockets, devices and pipes have no entry.
  unfoldable pub entry_from_info : Text → Text → FileInfo → M S (Option Entry)
  entry_from_info rel full fi =
      if fi.is_link
      then link_entry rel full fi
      else if fi.is_dir
      then pure (some (entry_with t_dir 0 [] rel fi))
      else if fi.is_regular
      then pure (some (entry_with t_file fi.size [] rel fi))
      else pure none

  abbrev supported : Option Entry → M S Entry
  supported none = raise Err.other
  supported (some e) = pure e

  unfoldable pub local_stat : LocalFs → Text → Bool → M S Entry
  local_stat l p follow = do
    rp ← resolve l p
    fi ← if follow then os.stat rp else os.lstat rp
    e ← entry_from_info dot rp fi
    supported e

  -- One name of a directory: the ones that cannot be read are left out.
  abbrev name_entry : Text → DirEntry → M S (Option Entry)
  name_entry real d s =
      let (x, s') = os.info d s in
      elim x [
        | err e ↦ (ok none, s')
        | ok fi ↦ entry_from_info d.name (path_join real d.name) fi s'
      ]

  unfoldable pub list_names : Text → List DirEntry → M S (List Entry)
  list_names real [] = pure []
  list_names real (d ∷ ds) =
      if is_temp_name d.name
      then list_names real ds
      else do e ← name_entry real d; es ← list_names real ds; pure (put e es)

  abbrev collected : List Entry → Result (Option Entry) × S → Result Bool × (S × List Entry)
  collected out (err e, s) = (err e, (s, out))
  collected out (ok none, s) = (ok false, (s, out))
  collected out (ok (some e), s) = (ok false, (s, out ++ (e ∷ [])))

  abbrev collect : Text → DirEntry → Result Text → M (S × List Entry) Bool
  collect fp d (err e) x = raise e x
  collect fp d (ok rel) (s, out) = collected out ((os.info d >>= λ fi. entry_from_info rel fp fi) s)

  -- The callback of the walk: true is `filepath.SkipDir`.
  unfoldable pub visit : Text → Text → DirEntry → Option Err → M (S × List Entry) Bool
  visit real fp d (some e) x = raise e x
  visit real fp d none x =
      if text_eq fp real
      then (ok false, x)
      else if is_temp_name d.name
      then (ok d.is_dir, x)
      else collect fp d (os.rel real fp) x

  abbrev walked : Result (Unit {0}) × (S × List Entry) → Result (List Entry) × S
  walked (err e, (s, out)) = (err e, s)
  walked (ok u, (s, out)) = (ok out, s)

  unfoldable pub list_dir : Text → Bool → M S (List Entry)
  list_dir real recursive =
      if recursive
      then (λ s. walked (os.walk_dir real (visit real) (s, [])))
      else os.read_dir real >>= list_names real

  unfoldable pub list_file : Text → M S (List Entry)
  list_file rp = do
    fi ← os.lstat rp
    e ← entry_from_info dot rp fi
    one ← supported e
    pure (one ∷ [])

  unfoldable pub local_list : LocalFs → Text → Bool → M S (List Entry)
  local_list l p recursive = do
    rp ← resolve l p
    st ← os.stat rp
    (if st.is_dir then (os.eval_symlinks rp >>= λ real. list_dir real recursive) else list_file rp)

  -- `os.FileMode(mode&0777)|0700`
  unfoldable pub local_mkdir : LocalFs → Text → ℕ → M S (Unit {0})
  local_mkdir l p mode = resolve l p >>= λ rp. os.mkdir_all rp (448 + mode % 64)

  unfoldable pub local_remove : LocalFs → Text → Bool → M S (Unit {0})
  local_remove l p recursive = do
    rp ← resolve l p
    (if is_root l rp then raise Err.other else if recursive then os.remove_all rp else os.remove rp)

  unfoldable pub local_rename : LocalFs → Text → Text → M S (Unit {0})
  local_rename l from to = do a ← resolve l from; b ← resolve l to; os.rename a b

  unfoldable pub local_symlink : LocalFs → Text → Text → M S (Unit {0})
  local_symlink l target p = resolve l p >>= λ rp. os.symlink target rp

  unfoldable pub local_set_meta : LocalFs → Text → ℕ → ℤ → M S (Unit {0})
  local_set_meta l p mode mtime = do
    rp ← resolve l p
    os.chmod rp (mode % 512) >>= λ u. if eqb_ℤ mtime (pos 0) then pure tt else os.chtimes rp mtime
