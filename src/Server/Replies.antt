-- ===== src/Server/Replies.antt =====
-- What the client reads of a response of the agent.
use vextra.Base.{
  ℕ, ◌/◌, ◌%◌, ◌^◌, ◌≤◌, ◌<◌, ◌≡◌, refl, ◌⊎◌, inl, inr, Bool, true, ◌&&◌, Option, some, ◌++◌,
  Bool-cases, Option-cases, length, Text,
}
use vextra.Base.Result.{ok}
use vextra.Codec.{max_frame, compress_block, decompress_block}
use vextra.Codec.Blocks.{decompress_block-compress_block}
use vextra.Wire.{Msg, Sink, read_frame, frame_of, flag_z}
use vextra.Wire.Frames.{read_frame-write_frame}
use vextra.Server.{pack, reply}

-- What `pack` makes of a payload can be read: the flag says whether it is compressed.
abbrev pub Readable : (Text → Text) → ℕ × (Msg × Text) → Text → Type 0
Readable inflate (flags, (m, payload)) p =
    ((flags / flag_z % 2 ≡ 0) × (p ≡ payload))
    ⊎ ((flags / flag_z % 2 ≡ 1) × (decompress_block inflate payload m.raw_len ≡ ok p))

pub pack-Readable :
    (deflate : Text → Option Text) (inflate : Text → Text)
    → ((src out : Text) → deflate src ≡ some out → inflate out ≡ src)
    → (z : Bool) (m : Msg) (payload : Text) (allow_z : Bool) → length payload ≤ max_frame
    → Readable inflate (pack deflate z (m, (payload, allow_z))) payload
unfolding pack
pack-Readable deflate inflate undo z m payload allow_z fits = elim (Bool-cases (allow_z && z)) [
  | inl z_on ↦ elim (Option-cases (compress_block deflate payload)) [
    | inl e ↦ rw (z_on, e) (inl (refl, refl))
    | inr (ys, e) ↦
        rw (z_on, e)
          (inr (refl, (decompress_block-compress_block deflate inflate payload ys undo fits e).0))
  ]
  | inr z_off ↦ rw z_off (inl (refl, refl))
]

-- Let INFLATE undo DEFLATE, let JSON give back the message that is sent, and let the id be a 32-bit
-- word. If the response, whose payload has at most 256 MiB, is written, then exactly these bytes
-- are appended, and the client, whatever follows them, reads the id, the message and the payload of
-- the answer, uncompressed, whether or not the payload was compressed on the wire.
pub read_frame-reply :
    (marshal : Msg → Text) (unmarshal : Text → Option Msg) (inflate : Text → Text)
    (deflate : Text → Option Text)
    → ((src out : Text) → deflate src ≡ some out → inflate out ≡ src)
    → (id : ℕ) (z : Bool) (m : Msg) (payload : Text) (allow_z : Bool) (rest : Text) (s : Sink)
    → unmarshal (marshal (pack deflate z (m, (payload, allow_z))).1.0)
      ≡ some (pack deflate z (m, (payload, allow_z))).1.0
    → id < 2 ^ 32
    → length payload ≤ max_frame
    → (reply marshal unmarshal inflate deflate id z (m, (payload, allow_z)) s).done ≡ true
    → let packed = pack deflate z (m, (payload, allow_z)) in
      (bytes : Text) × ((reply marshal unmarshal inflate deflate id z
          (m, (payload, allow_z))
          s).sink.out
        ≡ s.out ++ bytes)
      × (read_frame marshal unmarshal inflate (bytes ++ rest)
          ≡ ok (frame_of id packed.0 packed.1.0 payload (length bytes), rest))
unfolding reply
read_frame-reply marshal unmarshal inflate deflate undo id z m payload allow_z rest s law hid fits
      h =
    let p = pack deflate z (m, (payload, allow_z)) in
    let w =
      read_frame-write_frame marshal unmarshal inflate id (p.0) (p.1.0) (p.1.1) payload rest s law
        hid (pack-Readable deflate inflate undo z m payload allow_z fits) h in
    (w.0, w.1, w.3)
