-- ===== src/Tests/Locals.antt =====
-- `LocalFS` over a small disk: `/srv` is the root, `/srv/out` leads to `/etc`, and `/srv/f` is a file of
-- three bytes, the content of every file. The world counts what became of the root and of `/srv/f`.
use vextra.Base.{
  ℕ, ◌+◌, ◌≡◌, refl, ◌≢◌, true, false, ◌||◌, Option, none, some, [], arith, if◌then◌else◌, take,
  Text, codes, text_eq, has_prefix,
}
use vextra.Base.Int.{pos}
use vextra.Base.Result.{Err, ok, err, M, pure, raise}
use vextra.Path.{clean, dir, is_abs, path_join}
use vextra.Os.{FileInfo, Os}
use vextra.Local.{LocalFs, no_fuel, within, normalize, confine, check_escape, deepest, resolve}
use vextra.Local.Files.{LocalWriter, local_fs}
use vextra.Local.Ended.{deepest_ends}
use vextra.Local.Confined.{Below, resolve-Below}
use vextra.Path.Rooted.{Cleaned}
use vextra.Base.Keeps.{Keeps}
use vextra.Local.Unchanged.{local_fs-Fails, local_fs-remove_below}

abbrev folder : FileInfo
folder = record {
  is_link = false;
  is_dir = true;
  is_regular = false;
  perm = 493;
  size = 0;
  mtime = pos 7;
}

abbrev plain_file : FileInfo
plain_file = record {
  is_link = false;
  is_dir = false;
  is_regular = true;
  perm = 420;
  size = 3;
  mtime = pos 7;
}

abbrev known : Text → Option FileInfo
known p =
    if text_eq p (codes "/srv") || text_eq p (codes "/srv/out")
    then some folder
    else if text_eq p (codes "/srv/f")
    then some plain_file
    else none

abbrev info_of : Option FileInfo → M ℕ FileInfo
info_of none = raise Err.not_exist
info_of (some fi) = pure fi

abbrev pub disk : Os ℕ Text
disk = record {
  lstat = λ p. info_of (known p);
  stat = λ p. info_of (known p);
  info = λ d. info_of (known (path_join d.parent d.name));
  eval_symlinks = λ p. pure (if text_eq p (codes "/srv/out") then codes "/etc" else p);
  readlink = λ p. raise Err.other;
  read_dir = λ p. pure [];
  walk_dir = λ p visit x. (ok tt, x);
  rel = λ base p. err Err.other;
  mkdir_all = λ p mode. pure tt;
  remove = λ p n. (ok tt, if text_eq p (codes "/srv") then n + 1 else n);
  remove_all = λ p n. (ok tt, if text_eq p (codes "/srv") then n + 1 else n);
  rename = λ from to n. (ok tt, n + 1);
  symlink = λ target p. pure tt;
  chmod = λ p mode. pure tt;
  chtimes = λ p t. pure tt;
  user_home_dir = err Err.other;
  open_path = pure;
  open_file = λ p fresh mode. pure p;
  close = λ f n. n;
  reader = λ f n. record { rest = codes "abc"; fails = false };
  read_at = λ f n off s. ((take n (codes "abc"), none), s);
  write_at = λ f d off. pure tt;
  copy = λ to from. pure tt;
  read_section = λ f n. pure (codes "abc");
  truncate = λ f n. pure tt;
  sync = λ f. pure tt;
}

abbrev pub srv : LocalFs
srv = record { root = codes "/srv"; real_root = codes "/srv"; base = codes "/srv" }

abbrev pub same : Text → Text
same t = t

abbrev writer : LocalWriter Text
writer = record { f = codes "t"; tmp = codes "/srv/f.vxtmp.j"; dst = codes "/srv/f"; size = pos 3 }

deepest_ends_example : (deepest disk 20 (codes "/srv/none/x") 0).0 ≢ no_fuel
deepest_ends_example = deepest_ends disk 20 (codes "srv/none/x") 0 (omega arith)

rooted : srv.root ≢ []
rooted e = cc e

passes : resolve disk srv (codes "a/../b") 0 ≡ (ok (codes "/srv/b"), 0)
unfolding confine normalize clean path_join within check_escape deepest dir is_abs text_eq
    has_prefix
passes = refl

resolve-Below_example : Below (codes "/srv") (codes "/srv/b") × Cleaned (codes "/srv/b")
resolve-Below_example = resolve-Below disk srv (codes "a/../b") (codes "/srv/b") 0 0 rooted passes

local_fs-Fails_example :
    (e : Err) × (((local_fs same disk srv).commit writer [] 420 (pos 9) 0).0 ≡ err e)
    × (((local_fs same disk srv).commit writer [] 420 (pos 9) 0).1 ≡ 0)
unfolding text_eq
local_fs-Fails_example =
    local_fs-Fails same disk srv (λ n. n ≡ 0) writer [] 420 (pos 9) 0 (record { at = λ s h. h })
      (record { at = λ s h. h }) (record { at = λ s h. h }) tmp_removed (λ s h. h) other refl
  where
    tmp_removed : Keeps (λ n. n ≡ 0) (disk.remove writer.tmp)
    tmp_removed = record { at = λ s h. h }

    other :
        (s s' : ℕ) (c : Text) → disk.read_section writer.f writer.size s ≡ (ok c, s') → same c ≢ []
    other s s' c e q = cc (e, q)

local_fs-remove_below_example : ((local_fs same disk srv).remove (codes "/srv/f") true 0).1 ≡ 0
unfolding text_eq
local_fs-remove_below_example =
    local_fs-remove_below same disk srv (λ n. n ≡ 0) (codes "/srv/f") true 0 rooted
      (λ q. record { at = λ s h. looked (known q) s h }) (λ q. record { at = λ s h. h })
      (λ r b. rw (b.0.1) (record { at = λ s h. h })) (λ r b. rw (b.0.1) (record { at = λ s h. h }))
      refl
  where
    looked : (o : Option FileInfo) (s : ℕ) → s ≡ 0 → (info_of o s).1 ≡ 0
    looked none s h = h
    looked (some fi) s h = h
