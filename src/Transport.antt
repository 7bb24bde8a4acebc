-- ===== src/Transport.antt =====
-- transport.go: the arguments that name a host, and the sign of the agent in the output of ssh. What is
-- read before that sign is kept only for an error text, and is left out.
pub mod Endpoints
pub mod Magic
pub mod Ssh
use vextra.Base.{
  ℕ, zero, suc, ◌^◌, Bool, false, ◌&&◌, ◌||◌, Option, none, some, [], ◌∷◌, ◌++◌, ◌==◌,
  if◌then◌else◌, length, get_elem?, Text, codes, text_eq, contains_byte,
}
use vextra.Base.Result.{Err, Result, ok, err}
use vextra.Path.{slash, dot}
use vextra.Delta.{Reader}

pub record Endpoint : Type 0 where
  pub host : Text
  pub path : Text

-- `strings.Cut(s, c)` for a byte; none, if the byte is not there
unfoldable pub cut : Text → ℕ → Option (Text × Text)
cut [] c = none
cut (a ∷ s) c = elim (cut s c) [
  | none ↦ if a == c then some ([], s) else none
  | some (before, after) ↦ if a == c then some ([], s) else some (a ∷ before, after)
]

-- What `ParseEndpoint` does with the parts around the first colon.
abbrev pub with_parts : Text → Option (Text × Text) → Endpoint
with_parts s none = record { host = []; path = s }
with_parts s (some (host, p)) =
    if text_eq host [] || contains_byte host slash
    then record { host = []; path = s }
    else record { host = host; path = if text_eq p [] then dot else p }

-- `ParseEndpoint`
unfoldable pub parse_endpoint : Text → Endpoint
parse_endpoint s = with_parts s (cut s b':')

-- agentMagic of proto.go
abbrev pub agent_magic : Text
agent_magic = 0 ∷ (codes "VEXTRA-AGENT/1" ++ (10 ∷ []))

-- The number of bytes of the sign that match, after a byte that does not go on with the match.
abbrev pub restart : Text → ℕ → ℕ
restart want b = elim (get_elem? want 0) [ none ↦ 0 | some a ↦ if b == a then 1 else 0 ]

abbrev pub continues : Text → ℕ → ℕ → Bool
continues want matched b = elim (get_elem? want matched) [ none ↦ false | some a ↦ b == a ]

-- The loop of `waitMagic`: at most so many bytes, the number of those that match, and the input.
unfoldable pub wait_loop : Text → Bool → ℕ → ℕ → Text → Result Text
wait_loop want fails zero matched s = err Err.other
wait_loop want fails (suc n) matched [] = err (if fails then Err.other else Err.eof)
wait_loop want fails (suc n) matched (b ∷ s) =
    let goes_on = continues want matched b in
    let matched' = if goes_on then suc matched else restart want b in
    let more = wait_loop want fails n matched' s in
    if goes_on && (suc matched == length want) then ok s else more

-- `waitMagic`: what is left of the input behind the sign
unfoldable pub wait_magic : Reader → Result Text
wait_magic r = wait_loop agent_magic r.fails (2 ^ 20) 0 r.rest
