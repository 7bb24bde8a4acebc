-- ===== src/Entry.antt =====
-- `Entry` of fs.go: what a listing or a `Stat` says of a file, a directory or a symlink. Sizes are
-- not negative; times are nanoseconds, which may be.
use vextra.Base.{ℕ, String, Text, codes}
use vextra.Base.Int.{ℤ}

abbrev pub t_file : String
t_file = "f"

abbrev pub t_dir : String
t_dir = "d"

abbrev pub t_link : String
t_link = "l"

-- tmpMarker
abbrev pub tmp_marker : Text
tmp_marker = codes ".vxtmp."

pub record Entry : Type 0 where
  pub path : Text
  pub type : String
  pub size : ℕ
  pub mode : ℕ
  pub mtime : ℤ
  pub link : Text
