-- ===== src/Transport/Ssh.antt =====
-- `ParseSSHCommand` of transport.go: the options and the host of a command line of ssh.
pub mod Parsed
use vextra.Base.{
  ◌≡◌, Bool, true, false, not, ◌&&◌, none, some, List, [], ◌∷◌, ◌++◌, ◌==◌, if◌then◌else◌, length,
  get_elem?, All, any, Text, codes, text_eq, has_prefix, contains_byte, Elem,
}
use vextra.Base.Result.{Err, Result, ok, err, bind}
use vextra.Path.{base}
use vextra.Args.{split_args}

-- An argument in the place of an option; "-" alone is none.
abbrev pub is_option : Text → Bool
is_option t = has_prefix t (codes "-") && not (text_eq t (codes "-"))

-- The options that would break the agent.
abbrev pub is_dropped : Text → Bool
is_dropped t = any (λ d. text_eq t (codes d)) ("-t" ∷ "-tt" ∷ "-T" ∷ "-N" ∷ "-f" ∷ "-n" ∷ [])

-- The options of ssh whose value is an argument of its own.
abbrev pub takes_value : Text → Bool
takes_value t = length t == 2 && (elim (get_elem? t 1) [
  | none ↦ false
  | some c ↦ contains_byte (codes "bcDEeFIiJLlmOopQRSWw") c
])

-- The loop over the arguments, where the next one may be a value: the options that are kept, and the
-- arguments from the first one on that is no option.
unfoldable pub ssh_loop : Bool → List Text → List Text × List Text
ssh_loop value [] = ([], [])
ssh_loop true (t ∷ ts) = let (opts, rest) = ssh_loop false ts in (t ∷ opts, rest)
ssh_loop false (t ∷ ts) =
    let (opts, rest) = ssh_loop (takes_value t && not (is_dropped t)) ts in
    if not (is_option t)
    then ([], t ∷ ts)
    else if is_dropped t
    then (opts, rest)
    else (t ∷ opts, rest)

abbrev pub pick_host : List Text × List Text → Result (Text × List Text)
pick_host (opts, []) = err Err.other
pick_host (opts, host ∷ []) = ok (host, opts)
pick_host (opts, host ∷ x ∷ xs) = err Err.other

abbrev pub ssh_args : List Text → Result (Text × List Text)
ssh_args [] = err Err.other
ssh_args (prog ∷ ts) =
    if text_eq (base prog) (codes "ssh") then pick_host (ssh_loop false ts) else err Err.other

unfoldable pub parse_ssh_command : Text → Result (Text × List Text)
parse_ssh_command line = bind (split_args line) ssh_args
