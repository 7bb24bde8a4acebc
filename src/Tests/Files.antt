-- ===== src/Tests/Files.antt =====
-- The configuration file the sign of the agent and a ssh_command of ssh, at concrete data. A number is its digits.
use vextra.Base.{
  ℕ, ◌+◌, ◌-◌, ◌*◌, ◌^◌, ◌≡◌, refl, Bool, true, false, Option, none, some, List, [], ◌∷◌, ◌++◌,
  arith, Text, codes, text_eq, has_prefix, contains_byte,
}
use vextra.Base.Int.{ℤ, pos, ◌≤ℤ◌}
use vextra.Base.Result.{Result, ok}
use vextra.Transport.{cut, agent_magic, wait_magic, wait_loop}
use vextra.Transport.Magic.{wait_magic-finds}
use vextra.Args.{split_args, scan, end_args, read_rune}
use vextra.Path.{base}
use vextra.Transport.Ssh.{parse_ssh_command, ssh_loop}
use vextra.Config.{
  Config, default_config, effective_workers, set_key, parse_line, parse_lines, parse_config,
  load_config, parse_size,
}
use vextra.Config.Fields.{size_parts, split_at}
use vextra.Config.Valid.{Valid}
use vextra.Config.Loaded.{load_config-Valid}
use vextra.Excludes.{trim_space}

abbrev digits : ℕ → Text → Option ℕ
digits n [] = some n
digits n (c ∷ s) = digits (n * 10 + (c - 48)) s

abbrev integer : Text → Option ℤ
integer s = elim (digits 0 s) [ none ↦ none | some n ↦ some (pos n) ]

abbrev load_with : Bool → Result Text → Result Config
load_with = load_config (digits 0) (λ n. false) (λ n mult. pos (n * mult)) (λ s. some true) integer

abbrev file : Text
file =
    codes "workers: 3 # few"
    ++ (10 ∷ codes "exclude:")
    ++ (10 ∷ codes "  - *.log")
    ++ (10 ∷ codes "block_size: 64KiB")

abbrev configured : Config
configured = record default_config {
  workers = pos 3;
  block_size = pos (2 ^ 16);
  excludes = codes "*.log" ∷ [];
}

loads : load_with true (ok file) ≡ ok configured
unfolding load_config parse_config parse_lines parse_line set_key parse_size size_parts split_at cut
    trim_space text_eq has_prefix
loads = refl

load_config-Valid_example : Valid configured × (pos 1 ≤ℤ effective_workers (pos 8) configured)
load_config-Valid_example =
    load_config-Valid (digits 0) (λ n. false) (λ n mult. pos (n * mult)) (λ s. some true) integer
      true (ok file) (pos 8) configured loads

wait_magic-finds_example :
    wait_magic (record { rest = codes "motd" ++ (agent_magic ++ codes "x"); fails = true })
    ≡ ok (codes "x")
unfolding contains_byte
wait_magic-finds_example = wait_magic-finds (codes "motd") (codes "x") true refl (omega arith)

found_sign :
    wait_magic (record { rest = codes "motd" ++ (agent_magic ++ codes "x"); fails = true })
    ≡ ok (codes "x")
unfolding wait_magic wait_loop
found_sign = refl

abbrev ssh_command : Text
ssh_command = codes "ssh -p 22 -tt -C me@host"

abbrev kept : List Text
kept = codes "-p" ∷ codes "22" ∷ codes "-C" ∷ []

parses : parse_ssh_command ssh_command ≡ ok (codes "me@host", kept)
unfolding parse_ssh_command split_args ssh_loop base text_eq has_prefix contains_byte scan end_args
    read_rune
parses = refl
