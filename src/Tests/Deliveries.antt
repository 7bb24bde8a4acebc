-- ===== src/Tests/Deliveries.antt =====
-- A transfer of a small file into a `LocalFS`, over the small disk of the tests of that file system.
use vextra.Base.{ℕ, ◌≡◌, refl, [], codes, text_eq, has_prefix}
use vextra.Base.Int.{◌+ℤ◌}
use vextra.Base.Result.{Err, ok, pure, raise}
use vextra.Path.{clean, dir, is_abs, path_join}
use vextra.Entry.{t_file}
use vextra.Delta.{no_sigs}
use vextra.Fs.{Fs}
use vextra.Plan.{Action}
use vextra.Engine.{
  Run, no_stats, transfer_file, transfer_small, read_small, or_abort, clear_way, count_transfer,
}
use vextra.Local.{confine, normalize, within, check_escape, deepest}
use vextra.Local.Files.{
  local_fs, local_begin, open_tmp, remove_stale_tmp, remove_stale, commit_body, publish,
  check_content, sync_dir,
}
use vextra.Local.Delivered.{Delivered, transfer_file-Delivered}
use vextra.Tests.Locals.{disk, srv, same}
use vextra.Tests.Plans.{entry_of, options}
use vextra.Tests.Transfers.{job_of, order, new_file, counted}

-- Every file reads as the same three bytes.
abbrev source : Fs ℕ ℕ
source = record {
  stat = λ p follow. pure (entry_of "." t_file);
  list = λ p recursive. pure [];
  mkdir = λ p mode. raise Err.other;
  remove = λ p recursive. raise Err.other;
  rename = λ from to. raise Err.other;
  symlink = λ target p. raise Err.other;
  set_meta = λ p mode mtime. raise Err.other;
  sigs = λ p job bs. pure no_sigs;
  read_at = λ p off n. pure (codes "abc");
  begin = λ p job size use_base. raise Err.other;
  write_at = λ h p off. raise Err.other;
  commit = λ h sum mode mtime. raise Err.other;
  abort = λ h s. s;
  home = [];
}

abbrev action : Action
action = record new_file { dst_path = codes "f" }

abbrev before : Run ℕ
before = record { world = 0; stats = no_stats; fails = [] }

-- The disk has seen one rename.
abbrev after : Run ℕ
after = record { world = 1; stats = counted; fails = [] }

delivers :
    transfer_file same job_of order source (local_fs same disk srv) options action before
    ≡ (ok tt, after)
unfolding transfer_file transfer_small read_small or_abort clear_way count_transfer text_eq ◌+ℤ◌
    local_fs local_begin open_tmp remove_stale_tmp remove_stale commit_body publish check_content
    sync_dir confine normalize within check_escape deepest clean path_join dir is_abs has_prefix
delivers = refl

transfer_file-Delivered_example :
    Delivered same job_of order source disk srv options action (codes "f") 1
transfer_file-Delivered_example =
    transfer_file-Delivered same job_of order source disk srv options action before after delivers
