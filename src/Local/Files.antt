-- ===== src/Local/Files.antt =====
-- The files of `LocalFS`: reading, signatures, and the writer that fills a temporary file and then puts
-- it in the place of the destination.
use vextra.Base.{
  ℕ, ◌%◌, String, Bool, true, false, not, ◌&&◌, Option, none, some, List, [], ◌∷◌, ◌++◌,
  if◌then◌else◌, keep, Text, text_eq, has_prefix,
}
use vextra.Base.Int.{ℤ, pos, negsuc, pos_part, eqb_ℤ}
use vextra.Base.Result.{Err, Result, ok, err, M, ◌>>=◌, ◌>>◌, pure, raise, attempt}
use vextra.Entry.{tmp_marker}
use vextra.Path.{dot, dir, path_join, up_to_last_slash, after_last_slash}
use vextra.Delta.{Sigs, no_sigs, compute_sigs}
use vextra.Build.{is_not_exist}
use vextra.Fs.{Fs}
use vextra.Os.{FileInfo, DirEntry, Os}
use vextra.Local.{
  LocalFs, resolve, home_of, local_stat, local_list, local_mkdir, local_remove, local_rename,
  local_symlink, local_set_meta,
}

-- `localWriter`
pub record LocalWriter (D : Type 0) : Type 0 where
  pub f : D
  pub tmp : Text
  pub dst : Text
  pub size : ℤ

-- The temporary file of a job for a destination.
abbrev pub tmp_of : Text → Text → Text
tmp_of rp job = rp ++ (tmp_marker ++ job)

-- The signatures of a reader: there is fuel enough.
abbrev signs : Option (Result Sigs) → Result Sigs
signs none = err Err.other
signs (some x) = x

module _ (hash : Text → Text) {S D : Type 0} (os : Os S D) where
  unfoldable pub open_regular : Text → M S D
  open_regular p = os.lstat p >>= λ fi. if fi.is_regular then os.open_path p else raise Err.other

  -- `defer f.Close()`
  abbrev closing : {A : Type 0} → D → M S A → M S A
  closing f m s = let (x, s') = m s in (x, os.close f s')

  abbrev is_regular : Result FileInfo → Bool
  is_regular (err e) = false
  is_regular (ok fi) = fi.is_regular

  -- The file to sign, and its kind.
  abbrev sigs_target : Text → Text → M S (Text × String)
  sigs_target rp job s =
      let (x, s') = os.lstat (tmp_of rp job) s in
      if text_eq job []
      then (ok (rp, "final"), s)
      else if is_regular x
      then (ok (tmp_of rp job, "tmp"), s')
      else (ok (rp, "final"), s')

  abbrev sigs_of_open : ℤ → String → Result D → M S Sigs
  sigs_of_open bs kind (err e) = if is_not_exist e then pure no_sigs else raise e
  sigs_of_open bs kind (ok f) =
      closing f (λ s. (signs (compute_sigs hash (os.reader f s) (pos_part bs) kind), s))

  unfoldable pub local_sigs : LocalFs → Text → Text → ℤ → M S Sigs
  local_sigs l p job bs = do
    rp ← resolve os l p
    t ← sigs_target rp job
    f ← attempt (open_regular t.0)
    sigs_of_open bs t.1 f

  abbrev read_outcome : Text × Option Err → Result Text
  read_outcome (d, none) = ok d
  read_outcome (d, some Err.eof) = ok d
  read_outcome (d, some e) = err e

  unfoldable pub local_read_at : LocalFs → Text → ℤ → ℤ → M S Text
  local_read_at l p off (negsuc n) = raise Err.other
  local_read_at l p off (pos n) = do
    rp ← resolve os l p
    f ← open_regular rp
    closing f (λ s. let (x, s') = os.read_at f n off s in (read_outcome x, s'))

  -- Errors of `os.Remove` are ignored.
  unfoldable pub remove_stale : Text → Text → Text → List DirEntry → S → S
  remove_stale d prefix keep [] s = s
  remove_stale d prefix keep (e ∷ es) s =
      let p = path_join d e.name in
      let s' = if has_prefix e.name prefix && not (text_eq p keep) then (os.remove p s).1 else s in
      remove_stale d prefix keep es s'

  abbrev pub dir_or_dot : Text → Text
  dir_or_dot d = if text_eq d [] then dot else d

  unfoldable pub remove_stale_tmp : Text → Text → S → S
  remove_stale_tmp dst keep s =
      let d = dir_or_dot (up_to_last_slash dst) in
      let (x, s') = os.read_dir d s in
      elim x [
        | err e ↦ s'
        | ok ents ↦ remove_stale d (after_last_slash dst ++ tmp_marker) keep ents s'
      ]

  abbrev copy_from : D → Result D → M S (Unit {0})
  copy_from dst (err e) = if is_not_exist e then pure tt else raise e
  copy_from dst (ok in') = closing in' (os.copy dst in')

  unfoldable pub copy_base : Text → D → M S (Unit {0})
  copy_base src dst = attempt (open_regular src) >>= copy_from dst

  -- A failed copy of the base takes the temporary file away.
  abbrev or_clean_up : D → Text → M S (Unit {0}) → M S D
  or_clean_up f tmp m s =
      let (x, s') = m s in
      elim x [ ok u ↦ (ok f, s') | err e ↦ (err e, (os.remove tmp (os.close f s')).1) ]

  unfoldable pub open_tmp : Text → Text → Bool → M S D
  open_tmp rp tmp use_base = do
    fi ← attempt (os.lstat tmp)
    (if is_regular fi
        then os.open_file tmp false 384
        else (os.open_file tmp true 384 >>= λ f.
            if use_base then or_clean_up f tmp (copy_base rp f) else pure f))

  unfoldable pub local_begin : LocalFs → Text → Text → ℤ → Bool → M S (LocalWriter D)
  local_begin l p job size use_base = do
    rp ← resolve os l p
    f ← (λ s. open_tmp rp (tmp_of rp job) use_base (remove_stale_tmp rp (tmp_of rp job) s))
    pure (record { f = f; tmp = tmp_of rp job; dst = rp; size = size })

  -- `syncDir`
  unfoldable pub sync_dir : Text → S → S
  sync_dir d s =
      let (x, s') = os.open_path d s in elim x [ err e ↦ s' | ok f ↦ os.close f (os.sync f s').1 ]

  -- The end of `Commit`, once the content is as it should be.
  unfoldable pub publish : LocalWriter D → ℕ → ℤ → M S (Unit {0})
  publish w mode mtime = do
    os.chmod w.tmp (mode % 512)
    os.chtimes w.tmp mtime
    os.rename w.tmp w.dst
    (λ s. (ok tt, sync_dir (dir w.dst) s))
    fi ← os.lstat w.dst
    (if eqb_ℤ (pos fi.size) w.size then pure tt else raise Err.verify)

  -- A wrong content takes the temporary file away.
  unfoldable pub check_content : LocalWriter D → Text → ℕ → ℤ → Text → M S (Unit {0})
  check_content w sum mode mtime content =
      if text_eq (hash content) sum
      then publish w mode mtime
      else (λ s. (err Err.verify, (os.remove w.tmp s).1))

  unfoldable pub commit_body : LocalWriter D → Text → ℕ → ℤ → M S (Unit {0})
  commit_body w sum mode mtime = do
    os.truncate w.f w.size
    os.sync w.f
    content ← os.read_section w.f w.size
    check_content w sum mode mtime content

  abbrev pub local_commit : LocalWriter D → Text → ℕ → ℤ → M S (Unit {0})
  local_commit w sum mode mtime = closing w.f (commit_body w sum mode mtime)

  unfoldable pub local_fs : LocalFs → Fs S (LocalWriter D)
  local_fs l = record {
    stat = local_stat os l;
    list = local_list os l;
    mkdir = local_mkdir os l;
    remove = local_remove os l;
    rename = local_rename os l;
    symlink = local_symlink os l;
    set_meta = local_set_meta os l;
    sigs = local_sigs l;
    read_at = local_read_at l;
    begin = local_begin l;
    write_at = λ w p off. os.write_at w.f p off;
    commit = local_commit;
    abort = λ w s. os.close w.f s;
    home = home_of os.user_home_dir;
  }
