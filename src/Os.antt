-- ===== src/Os.antt =====
-- What localfs.go calls of Go's `os`, `io`, `io/fs` and `path/filepath`: an interface over a world `S`
-- with open files of type `D`. Nothing is said of what the operations do; each returns a value or an
-- error, and may change the world.
use vextra.Base.{ℕ, Bool, List, Option, Text}
use vextra.Base.Int.{ℤ}
use vextra.Base.Result.{Err, Result, M}
use vextra.Delta.{Reader}
use vextra.Entry.{Entry}

-- `os.FileInfo`: the tests of its mode, `Perm()`, and the rest as it is.
pub record FileInfo : Type 0 where
  pub is_link : Bool
  pub is_dir : Bool
  pub is_regular : Bool
  pub perm : ℕ
  pub size : ℕ
  pub mtime : ℤ

-- `fs.DirEntry`, which knows its directory
pub record DirEntry : Type 0 where
  pub parent : Text
  pub name : Text
  pub is_dir : Bool

pub record Os (S D : Type 0) : Type 0 where
  pub lstat : Text → M S FileInfo
  pub stat : Text → M S FileInfo
  pub info : DirEntry → M S FileInfo
  pub eval_symlinks : Text → M S Text
  pub readlink : Text → M S Text
  pub read_dir : Text → M S (List DirEntry)
  -- `filepath.WalkDir` with a callback that collects: it says whether to skip the directory
  pub walk_dir :
      Text
      → (Text → DirEntry → Option Err → M (S × List Entry) Bool)
      → M (S × List Entry) (Unit {0})
  -- `filepath.Rel`
  pub rel : Text → Text → Result Text
  pub mkdir_all : Text → ℕ → M S (Unit {0})
  pub remove : Text → M S (Unit {0})
  pub remove_all : Text → M S (Unit {0})
  pub rename : Text → Text → M S (Unit {0})
  pub symlink : Text → Text → M S (Unit {0})
  pub chmod : Text → ℕ → M S (Unit {0})
  -- `os.Chtimes` with one time for both, in nanoseconds
  pub chtimes : Text → ℤ → M S (Unit {0})
  pub user_home_dir : Result Text
  pub open_path : Text → M S D
  -- `os.OpenFile` for reading and writing, and whether with O_CREATE and O_EXCL
  pub open_file : Text → Bool → ℕ → M S D
  pub close : D → S → S
  -- what an `io.Reader` of the file still gives
  pub reader : D → S → Reader
  -- `ReadAt`: what was read, and the error
  pub read_at : D → ℕ → ℤ → S → (Text × Option Err) × S
  pub write_at : D → Text → ℤ → M S (Unit {0})
  -- `io.Copy`
  pub copy : D → D → M S (Unit {0})
  -- `io.Copy` from a section that starts at 0
  pub read_section : D → ℤ → M S Text
  pub truncate : D → ℤ → M S (Unit {0})
  pub sync : D → M S (Unit {0})
