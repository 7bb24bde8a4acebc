-- ===== src/Codec.antt =====
-- codec.go: blocks are compressed if that saves a tenth, and the adaptive memory of a file. DEFLATE is
-- a pair of parameters: `deflate` gives the compressed bytes, or none if the writer fails, and
-- `inflate` all bytes that a reader over compressed bytes yields.
pub mod Blocks
use vextra.Base.{
  ℕ, ◌+◌, ◌-◌, ◌/◌, ◌%◌, ◌^◌, String, Bool, true, false, not, ◌&&◌, ◌||◌, Option, none, some, List,
  [], ◌∷◌, map, ltb, leb, ◌==◌, if◌then◌else◌, length, take, any, Text, codes, text_eq,
  contains_byte,
}
use vextra.Base.Int.{ℤ, pos, negsuc}
use vextra.Base.Result.{Err, Result, ok, err}

-- maxFrame of proto.go, 256 MiB
abbrev pub max_frame : ℕ
max_frame = 2 ^ 28

unfoldable pub compress_block : (Text → Option Text) → Text → Option Text
compress_block deflate src = if ltb (length src) 512 then none else elim (deflate src) [
  | none ↦ none
  | some out ↦ if leb (length src - length src / 10) (length out) then none else some out
]

-- `io.ReadFull` wants exactly `raw_len` bytes, and does not look at what follows them.
unfoldable pub decompress_block : (Text → Text) → Text → ℤ → Result Text
decompress_block inflate src (negsuc n) = err Err.other
decompress_block inflate src (pos raw_len) =
    if ltb max_frame raw_len || ltb (length (inflate src)) raw_len
    then err Err.other
    else ok (take raw_len (inflate src))

-- `compState`: the number of misses in a row, an int32.
abbrev pub CompState : Type 0
CompState = ℕ

-- `filepath.Ext`: what stands from the last dot of the last element on.
unfoldable pub ext : Text → Option Text
ext [] = none
ext (c ∷ s) = elim (ext s) [
  | none ↦ if c == b'.' && not (contains_byte s b'/') then some (c ∷ s) else none
  | some e ↦ some e
]

-- `strings.ToLower` of an ASCII text
unfoldable pub to_lower : Text → Text
to_lower = map (λ c. if leb b'A' c && leb c b'Z' then c + 32 else c)

abbrev pub incompressible_ext : List String
incompressible_ext =
    ".zip" ∷ ".gz" ∷ ".tgz" ∷ ".bz2" ∷ ".xz" ∷ ".zst" ∷ ".7z" ∷ ".rar" ∷ ".jar" ∷ ".apk" ∷ ".deb"
    ∷ ".rpm" ∷ ".jpg" ∷ ".jpeg" ∷ ".png" ∷ ".gif" ∷ ".webp" ∷ ".heic" ∷ ".mp3" ∷ ".mp4" ∷ ".mkv"
    ∷ ".avi" ∷ ".mov" ∷ ".webm" ∷ ".ogg" ∷ ".flac" ∷ ".aac" ∷ ".m4a" ∷ []

unfoldable pub worth_compressing : Text → Bool
worth_compressing p = elim (ext p) [
  | none ↦ true
  | some e ↦ not (any (λ x. text_eq (codes x) (to_lower e)) incompressible_ext)
]

unfoldable pub new_comp_state : Text → CompState
new_comp_state p = if worth_compressing p then 0 else 2

-- `c.misses.Load() < 2`, where the bit pattern of a negative number is 2 ^ 31 or more.
unfoldable pub should_try : CompState → Bool
should_try misses = ltb misses 2 || leb (2 ^ 31) misses

unfoldable pub report : CompState → Bool → CompState
report misses true = 0
report misses false = (misses + 1) % 2 ^ 32
