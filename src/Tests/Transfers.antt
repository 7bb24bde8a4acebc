-- ===== src/Tests/Transfers.antt =====
-- The transfer of a small file, at concrete data: the state is the content of the destination.
use vextra.Base.{ℕ, ◌≡◌, refl, ◌⊎◌, Bool, false, none, some, List, [], Text, codes, text_eq}
use vextra.Base.Int.{ℤ, pos, ◌+ℤ◌}
use vextra.Base.Result.{Err, ok, pure, raise}
use vextra.Entry.{t_file}
use vextra.Delta.{no_sigs}
use vextra.Fs.{Fs}
use vextra.Plan.{act_file, Action}
use vextra.Engine.{
  Run, Stats, no_stats, transfer_file, transfer_small, read_small, or_abort, clear_way,
  count_transfer,
}
use vextra.Engine.Small.{SmallDone}
use vextra.Engine.Large.{LargeDone}
use vextra.Engine.Ended.{transfer_file-Done}
use vextra.Tests.Plans.{entry_of, options}

abbrev identity : Text → Text
identity t = t

abbrev pub job_of : Text → ℕ → ℤ → Bool → Text
job_of p n t b = p

abbrev pub order : List ℕ → List ℕ
order l = l

-- Every file reads as the same three bytes, and what is written is kept.
abbrev page : Fs Text ℕ
page = record {
  stat = λ p follow. pure (entry_of "." t_file);
  list = λ p recursive. pure [];
  mkdir = λ p mode. pure tt;
  remove = λ p recursive. pure tt;
  rename = λ from to. raise Err.other;
  symlink = λ target p. raise Err.other;
  set_meta = λ p mode mtime. pure tt;
  sigs = λ p job bs. pure no_sigs;
  read_at = λ p off n. pure (codes "abc");
  begin = λ p job size use_base. pure 1;
  write_at = λ h p off s. (ok tt, p);
  commit = λ h sum mode mtime. pure tt;
  abort = λ h s. s;
  home = [];
}

abbrev pub new_file : Action
new_file = record {
  kind = act_file;
  rel = codes "f";
  src_path = codes "a/f";
  dst_path = codes "b/f";
  src = some (entry_of "f" t_file);
  dst = none;
  why = "nuevo";
  replace = false;
  delta = none;
}

abbrev started : Run Text
started = record { world = []; stats = no_stats; fails = [] }

abbrev pub counted : Stats
counted = record no_stats { new_files = 1; sent_bytes = pos 3; file_bytes = 3 }

abbrev sent_run : Run Text
sent_run = record { world = codes "abc"; stats = counted; fails = [] }

sends : transfer_file identity job_of order page page options new_file started ≡ (ok tt, sent_run)
unfolding transfer_file transfer_small read_small or_abort clear_way count_transfer text_eq ◌+ℤ◌
sends = refl

transfer_file-Done_example :
    SmallDone identity job_of order page page options new_file (codes "b/f") (codes "abc")
    ⊎ LargeDone identity job_of order page page options new_file (codes "b/f") (codes "abc")
transfer_file-Done_example =
    transfer_file-Done identity job_of order page page options new_file started sent_run sends
