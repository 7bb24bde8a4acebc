-- ===== src/Delta/Patch.antt =====
-- Reading, writing and truncating a file's bytes (`os.File`), and writing selected blocks of a source
-- over a base.

-- `ReadAt`: at most `n` bytes from `off` on.
use vextra.Delta.Blocks.{block}
use vextra.Base.{
  ℕ, ◌+◌, ◌-◌, ◌*◌, ◌/◌, ◌≤◌, ◌<◌, ◌≡◌, refl, ◌∙◌, ◌⊎◌, inl, inr, true, some, List, [], ◌∷◌, ◌++◌,
  arith, ◌==◌, ==_iff, Bool-cases, length, get_elem?, take, drop, replicate, any, length-append,
  length-take, length-drop, length-replicate, get_elem?-append, get_elem?-take, get_elem?-drop,
  get_elem?_ge, get_elem?_lt, Text,
}
use native.Mathlib.Decide.{dec_lt}

abbrev pub read_at : Text → ℕ → ℕ → Text
read_at xs off n = take n (drop off xs)

-- `WriteAt`: a gap behind the end of the file is filled with zeros; no bytes change nothing.
unfoldable pub write_at : Text → Text → ℕ → Text
write_at f [] off = f
write_at f (b ∷ p) off =
    take off (f ++ replicate (off - length f) 0) ++ ((b ∷ p) ++ drop (off + length (b ∷ p)) f)

-- `Truncate`: cuts, or extends with zeros.
unfoldable pub truncate : Text → ℕ → Text
truncate f n = take n f ++ replicate (n - length f) 0

pub get_elem?-truncate :
    (f : Text) (n i : ℕ) → i < n → i < length f → get_elem? (truncate f n) i ≡ get_elem? f i
unfolding truncate
get_elem?-truncate f n i h l = ground (
  arith,
  get_elem?-append (take n f) (replicate (n - length f) 0) i,
  get_elem?-take n f i,
  length-take n f,
)

pub length-truncate : (f : Text) (n : ℕ) → length (truncate f n) ≡ n
unfolding truncate
length-truncate f n = omega (
  arith,
  length-append (take n f) (replicate (n - length f) 0),
  length-take n f,
  length-replicate {A = ℕ} (n - length f) 0,
)

length-padded : (f : Text) (off : ℕ) → length (take off (f ++ replicate (off - length f) 0)) ≡ off
length-padded f off = omega (
  arith,
  length-take off (f ++ replicate (off - length f) 0),
  length-append f (replicate (off - length f) 0),
  length-replicate {A = ℕ} (off - length f) 0,
)

-- A byte inside the written range comes from the data.
get_elem?-write_at_inside :
    (f p : Text) (off i : ℕ)
    → off ≤ i
    → i < off + length p
    → get_elem? (write_at f p off) i ≡ get_elem? p (i - off)
unfolding write_at
get_elem?-write_at_inside f [] off i lo hi = absurd (omega arith)
get_elem?-write_at_inside f (b ∷ p) off i lo hi = ground (
  arith,
  get_elem?-append (take off (f ++ replicate (off - length f) 0))
      ((b ∷ p) ++ drop (off + length (b ∷ p)) f) i,
  length-padded f off,
  get_elem?-append (b ∷ p) (drop (off + length (b ∷ p)) f) (i - off),
)

-- A byte of the file outside of it stays.
get_elem?-write_at_outside :
    (f p : Text) (off i : ℕ)
    → i < length f
    → (i < off) ⊎ (off + length p ≤ i)
    → get_elem? (write_at f p off) i ≡ get_elem? f i
unfolding write_at
get_elem?-write_at_outside f [] off i l o = refl
get_elem?-write_at_outside f (b ∷ p) off i l (inl below) = ground (
  arith,
  get_elem?-append (take off (f ++ replicate (off - length f) 0))
      ((b ∷ p) ++ drop (off + length (b ∷ p)) f) i,
  length-padded f off,
  get_elem?-take off (f ++ replicate (off - length f) 0) i,
  get_elem?-append f (replicate (off - length f) 0) i,
)
get_elem?-write_at_outside f (b ∷ p) off i l (inr above) =
    let e : off + length (b ∷ p) + (i - off - length (b ∷ p)) ≡ i = omega arith in
    ground (
      arith,
      get_elem?-append (take off (f ++ replicate (off - length f) 0))
          ((b ∷ p) ++ drop (off + length (b ∷ p)) f) i,
      length-padded f off,
      get_elem?-append (b ∷ p) (drop (off + length (b ∷ p)) f) (i - off),
      get_elem?-drop (off + length (b ∷ p)) f (i - off - length (b ∷ p)),
    )

-- Byte `i` of the file is byte `i` of the source.
abbrev pub Agrees : Text → Text → ℕ → Type 0
Agrees xs f i = get_elem? f i ≡ get_elem? xs i

pub get_elem?-read_at :
    (xs : Text) (off n i : ℕ)
    → off ≤ i
    → i < off + n
    → get_elem? (read_at xs off n) (i - off) ≡ get_elem? xs i
get_elem?-read_at xs off n i lo hi =
    let e : off + (i - off) ≡ i = omega arith in
    ground (arith, get_elem?-take n (drop off xs) (i - off), get_elem?-drop off xs (i - off))

pub get_elem?-some_lt : (f : Text) (i : ℕ) {a : ℕ} → get_elem? f i ≡ some a → i < length f
get_elem?-some_lt f i e = elim (dec_lt i (length f)) [
  | yes h ↦ h
  | no h ↦ cc (e, get_elem?_ge f i (omega arith))
]

-- The bytes of the destination after the blocks in the list were written, in that order.
unfoldable pub patch : ℕ → Text → List ℕ → Text → Text
patch bs xs [] f = f
patch bs xs (i ∷ is) f = patch bs xs is (write_at f (block bs xs i) (i * bs))

module _ (bs : ℕ) (xs f : Text) (b i : ℕ) (l : i < length xs) where
  -- The write of a block makes its own bytes right.
  write_at-sets : b * bs ≤ i → i < b * bs + bs → Agrees xs (write_at f (block bs xs b) (b * bs)) i
  write_at-sets lo hi =
      get_elem?-write_at_inside f (block bs xs b) (b * bs) i lo
        (omega (arith, length-take bs (drop (b * bs) xs), length-drop (b * bs) xs))
      ∙ get_elem?-read_at xs (b * bs) bs i lo hi

  -- It leaves right what was right.
  write_at-keeps : Agrees xs f i → Agrees xs (write_at f (block bs xs b) (b * bs)) i
  write_at-keeps h =
      let s = get_elem?_lt xs i l in
      let lf = get_elem?-some_lt f i (h ∙ s.1) in
      elim (dec_lt i (b * bs)) [
        | yes p ↦ get_elem?-write_at_outside f (block bs xs b) (b * bs) i lf (inl p) ∙ h
        | no p ↦ elim (dec_lt i (b * bs + length (block bs xs b))) [
          | yes q ↦ write_at-sets (omega arith) (omega (arith, length-take bs (drop (b * bs) xs)))
          | no q ↦
              get_elem?-write_at_outside f (block bs xs b) (b * bs) i lf (inr (omega arith)) ∙ h
        ]
      ]

-- A byte is right after the writes if it was right before or its block is in the list.
pub patch-Agrees :
    (bs : ℕ) (xs : Text) (is : List ℕ) (f : Text) (i : ℕ)
    → 0 < bs
    → i < length xs
    → Agrees xs f i ⊎ (any (λ j. j == i / bs) is ≡ true)
    → Agrees xs (patch bs xs is f) i
unfolding patch
patch-Agrees bs xs [] f i p l (inl h) = h
patch-Agrees bs xs [] f i p l (inr h) = cc
patch-Agrees bs xs (b ∷ is) f i p l (inl h) =
    patch-Agrees bs xs is _ i p l (inl (write_at-keeps bs xs f b i l h))
patch-Agrees bs xs (b ∷ is) f i p l (inr h) = elim (Bool-cases (b == i / bs)) [
  | inl e ↦
      let eq : b ≡ i / bs = (==_iff b (i / bs)).0 e in
      patch-Agrees bs xs is _ i p l
        (inl (write_at-sets bs xs f b i l (rw eq (omega arith)) (rw eq (omega arith))))
  | inr ne ↦ patch-Agrees bs xs is _ i p l (inr (ground arith))
]
