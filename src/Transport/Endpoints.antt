-- ===== src/Transport/Endpoints.antt =====
-- What `ParseEndpoint` reads as a host.
use vextra.Base.{
  ℕ, ◌≡◌, refl, ap, ◌∙◌, ◌≢◌, inl, inr, true, false, ◌||◌, none, some, [], ◌∷◌, ◌++◌, arith,
  if◌then◌else◌, Bool-cases, Option-cases, Text, text_eq, eq_of_text_eq, contains_byte,
}
use vextra.Path.{slash, dot}
use vextra.Transport.{cut, parse_endpoint, with_parts}

cut_first : (a b : Text) (c : ℕ) → contains_byte a c ≡ false → cut (a ++ (c ∷ b)) c ≡ some (a, b)
unfolding cut contains_byte
cut_first [] b c h = elim (Option-cases (cut b c)) [
  | inl e ↦ rw e (ground arith)
  | inr (x, e) ↦ rw e (ground arith)
]
cut_first (x ∷ a) b c h = rw (cut_first a b c (ground arith)) (ground arith)

cut-contains_byte : (s : Text) (c : ℕ) → contains_byte s c ≡ false → cut s c ≡ none
unfolding cut contains_byte
cut-contains_byte [] c h = refl
cut-contains_byte (x ∷ s) c h = rw (cut-contains_byte s c (ground arith)) (ground arith)

parse_endpoint_parts : (s : Text) → parse_endpoint s ≡ with_parts s (cut s b':')
unfolding parse_endpoint
parse_endpoint_parts s = refl

-- A host that is not empty, without a colon and without a slash, and a path, with a colon between them,
-- are read back; an empty path stands for ".".
pub parse_endpoint-remote :
    (host p : Text)
    → host ≢ []
    → contains_byte host b':' ≡ false
    → contains_byte host slash ≡ false
    → parse_endpoint (host ++ (b':' ∷ p))
      ≡ record { host = host; path = if text_eq p [] then dot else p }
parse_endpoint-remote host p ne colon n = elim (Bool-cases (text_eq host [])) [
  | inl e ↦ absurd (ne (eq_of_text_eq host [] e))
  | inr e ↦
      parse_endpoint_parts (host ++ (b':' ∷ p))
      ∙ ap (with_parts (host ++ (b':' ∷ p))) (cut_first host p b':' colon)
      ∙ rw (e, n) refl
]

-- A text without a colon is a local path as it is; so is one whose first colon stands at its start, or
-- behind a slash.
pub parse_endpoint-local :
    (a b : Text)
    → contains_byte a b':' ≡ false
    → (text_eq a [] || contains_byte a slash) ≡ true
    → (parse_endpoint a ≡ record { host = []; path = a })
      × (parse_endpoint (a ++ (b':' ∷ b)) ≡ record { host = []; path = a ++ (b':' ∷ b) })
parse_endpoint-local a b colon h = (
  parse_endpoint_parts a ∙ ap (with_parts a) (cut-contains_byte a b':' colon),
  parse_endpoint_parts (a ++ (b':' ∷ b))
      ∙ ap (with_parts (a ++ (b':' ∷ b))) (cut_first a b b':' colon)
      ∙ rw h refl,
)
