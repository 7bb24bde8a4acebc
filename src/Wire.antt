-- ===== src/Wire.antt =====
-- The frames of proto.go: a length, an id, flags, a JSON header and a payload. JSON is a pair of
-- parameters, `marshal` and `unmarshal`; DEFLATE is that of codec.go.
pub mod Words
pub mod Frames
use vextra.Base.{
  ℕ, zero, suc, ◌+◌, ◌-◌, ◌*◌, ◌/◌, ◌%◌, ◌^◌, ◌≤◌, ◌<◌, min, String, ◌≡◌, refl, sym, ap, ◌∙◌, ◌≢◌,
  ◌↔◌, ◌⊎◌, inl, inr, Bool, true, false, not, ◌&&◌, ◌||◌, Option, none, some, List, [], ◌∷◌, ◌++◌,
  map, arith, str_eq, eq_iff, ltb, leb, ◌==◌, if◌then◌else◌, ltb→lt, lt→ltb, leb→le, le→leb, ==_iff,
  Bool-cases, Option-cases, none≢some, length, get_elem?, take, drop, replicate, keep, All, any,
  length-append, length-take, length-drop, length-replicate, take-append-drop, take_all, drop_all,
  take-length-append, drop-length-append, get_elem?-append, get_elem?-take, get_elem?-drop,
  get_elem?-replicate, get_elem?_ge, get_elem?_lt, eq_of_get_elem?, Text, codes, text_eq,
  text_eq_refl, eq_of_text_eq, text_eq_iff, has_prefix, has_prefix_append, has_prefix_split,
  contains_byte, trim_prefix, has_suffix, trim_suffix,
}
use vextra.Base.Int.{
  ℤ, pos, negsuc, pos_part, neg_part, sub_ℕ, ◌+ℤ◌, ◌-ℤ◌, ltb_ℤ, eqb_ℤ, eqb_ℤ_iff, ◌≤ℤ◌, ◌<ℤ◌,
}
use native.Mathlib.Decide.{dec_lt}
use vextra.Base.Result.{Err, Result, ok, err, bind, M, ◌>>=◌, ◌>>◌, pure, raise}
use vextra.Entry.{Entry}
use vextra.Codec.{max_frame, decompress_block}

abbrev pub flag_resp : ℕ
flag_resp = 1

abbrev pub flag_z : ℕ
flag_z = 2

-- `Msg`, requests and responses alike.
pub record Msg : Type 0 where
  pub op : String
  pub path : Text
  pub to : Text
  pub job : Text
  pub recursive : Bool
  pub follow : Bool
  pub use_base : Bool
  pub z : Bool
  pub mode : ℕ
  pub mtime : ℤ
  pub size : ℤ
  pub off : ℤ
  pub len : ℤ
  pub bs : ℤ
  pub h : ℕ
  pub hash : Text
  pub raw_len : ℤ
  pub err_text : String
  pub code : String
  pub exists : Bool
  pub kind : String
  pub ver : ℤ
  pub home : Text
  pub host : Text
  pub arch : Text
  pub entry : Option Entry

-- `Msg{}`
abbrev pub empty_msg : Msg
empty_msg = record {
  op = "";
  path = [];
  to = [];
  job = [];
  recursive = false;
  follow = false;
  use_base = false;
  z = false;
  mode = 0;
  mtime = pos 0;
  size = pos 0;
  off = pos 0;
  len = pos 0;
  bs = pos 0;
  h = 0;
  hash = [];
  raw_len = pos 0;
  err_text = "";
  code = "";
  exists = false;
  kind = "";
  ver = pos 0;
  home = [];
  host = [];
  arch = [];
  entry = none;
}

pub record Frame : Type 0 where
  pub id : ℕ
  pub flags : ℕ
  pub msg : Msg
  pub payload : Text
  pub wire : ℕ

abbrev pub frame_of : ℕ → ℕ → Msg → Text → ℕ → Frame
frame_of id flags m payload wire = record {
  id = id;
  flags = flags;
  msg = m;
  payload = payload;
  wire = wire;
}

-- binary.BigEndian.PutUint32
unfoldable pub put_u32 : ℕ → Text
put_u32 x = (x / 2 ^ 24 % 256) ∷ (x / 2 ^ 16 % 256) ∷ (x / 2 ^ 8 % 256) ∷ (x % 256) ∷ []

-- binary.BigEndian.Uint32, of the first four bytes
unfoldable pub get_u32 : Text → ℕ
get_u32 (a ∷ b ∷ c ∷ d ∷ s) = a * 2 ^ 24 + b * 2 ^ 16 + c * 2 ^ 8 + d
get_u32 _ = 0

-- s[0]
unfoldable pub get_byte : Text → ℕ
get_byte [] = 0
get_byte (b ∷ s) = b

-- A writer: the bytes written so far, and how many more it takes before it fails.
pub record Sink : Type 0 where
  pub out : Text
  pub room : Option ℕ

-- What a write returns: the bytes written, whether that was all, and the writer.
pub record Written : Type 0 where
  pub count : ℕ
  pub done : Bool
  pub sink : Sink

-- `n, err := w.Write(p)`
unfoldable pub sink_write : Text → Sink → Written
sink_write p s = elim s.room [
  | none ↦ record { count = length p; done = true; sink = record s { out = s.out ++ p } }
  | some k ↦
      if leb (length p) k
      then record {
        count = length p;
        done = true;
        sink = record { out = s.out ++ p; room = some (k - length p) };
      }
      else record {
        count = k;
        done = false;
        sink = record { out = s.out ++ take k p; room = some 0 };
      }
]

-- The second write of `writeFrame`, behind the first.
unfoldable pub write_payload : Text → Written → Written
write_payload payload w =
    let w2 = sink_write payload w.sink in
    if not w.done
    then w
    else if ltb 0 (length payload)
    then record { count = w.count + w2.count; done = w2.done; sink = w2.sink }
    else w

-- The 13 bytes before the header, and the header.
abbrev pub frame_head : ℕ → ℕ → ℕ → Text → Text
frame_head total id flags hdr =
    put_u32 total ++ (put_u32 id ++ (flags ∷ (put_u32 (length hdr) ++ hdr)))

module _ (marshal : Msg → Text) (unmarshal : Text → Option Msg) (inflate : Text → Text) where
  unfoldable pub write_frame : ℕ → ℕ → Msg → Text → Sink → Written
  write_frame id flags m payload s =
      let hdr = marshal m in
      let total = 9 + length hdr + length payload in
      if ltb max_frame total
      then record { count = 0; done = false; sink = s }
      else write_payload payload (sink_write (frame_head total id flags hdr) s)

  -- The end of `readFrame`: the payload, decompressed if the flag says so.
  unfoldable pub finish_frame : ℕ → ℕ → Msg → Text → ℕ → Result Frame
  finish_frame id flags m payload wire =
      let frame = λ (p : Text). ok (frame_of id flags m p wire) in
      if flags / flag_z % 2 == 1
      then bind (decompress_block inflate payload m.raw_len) frame
      else frame payload

  -- The part of `readFrame` behind the length, over a body of `total` bytes.
  unfoldable pub parse_body : ℕ → Text → Result Frame
  parse_body total body =
      let hl = get_u32 (drop 5 body) in
      if ltb total (hl + 9) then err Err.other else elim (unmarshal (take hl (drop 9 body))) [
        | none ↦ err Err.other
        | some m ↦
            finish_frame (get_u32 body) (get_byte (drop 4 body)) m (drop (9 + hl) body) (total + 4)
      ]

  -- The frame and the bytes that are left, from what the reader holds until it ends.
  unfoldable pub read_frame : Text → Result (Frame × Text)
  read_frame [] = err Err.eof
  read_frame (b ∷ r) =
      if ltb (length (b ∷ r)) 4
      then err Err.unexpected_eof
      else let total = get_u32 (b ∷ r) in
        let rest = drop 4 (b ∷ r) in
        if ltb total 9 || ltb max_frame total
        then err Err.other
        else if ltb (length rest) total
        then err Err.unexpected_eof
        else bind (parse_body total (take total rest)) λ f. ok (f, drop total rest)
