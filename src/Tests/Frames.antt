-- ===== src/Tests/Frames.antt =====
-- Frames at concrete data.
use vextra.Base.{
  ◌≡◌, refl, inl, true, Option, none, some, [], ◌∷◌, ◌++◌, arith, length, Text, codes,
}
use vextra.Base.Result.{ok}
use vextra.Codec.{compress_block}
use vextra.Wire.{Msg, empty_msg, Sink, write_frame, read_frame, frame_of, sink_write, write_payload}
use vextra.Wire.Frames.{read_frame-write_frame}
use vextra.Server.{reply, pack}
use vextra.Server.Replies.{read_frame-reply}

-- The JSON of the one message of these tests.
abbrev to_json : Msg → Text
to_json m = codes "{}"

abbrev of_json : Text → Option Msg
of_json t = some empty_msg

abbrev no_sink : Sink
no_sink = record { out = 7 ∷ []; room = none }

abbrev identity : Text → Text
identity t = t

abbrev never : Text → Option Text
never t = none

never-identity : (xs ys : Text) → never xs ≡ some ys → identity ys ≡ xs
never-identity xs ys h = cc h

read_frame-write_frame_example :
    (bytes : Text) × ((write_frame to_json of_json identity 5 0 empty_msg
        (1 ∷ 2 ∷ [])
        no_sink).sink.out
      ≡ no_sink.out ++ bytes)
    × ((write_frame to_json of_json identity 5 0 empty_msg (1 ∷ 2 ∷ []) no_sink).count
        ≡ length bytes)
    × (read_frame to_json of_json identity (bytes ++ (9 ∷ []))
        ≡ ok (frame_of 5 0 empty_msg (1 ∷ 2 ∷ []) (length bytes), 9 ∷ []))
unfolding write_frame sink_write write_payload
read_frame-write_frame_example =
    read_frame-write_frame to_json of_json identity 5 0 empty_msg (1 ∷ 2 ∷ []) (1 ∷ 2 ∷ []) (9 ∷ [])
      no_sink refl (omega arith) (inl (refl, refl)) refl

read_frame-reply_example :
    (bytes : Text) × ((reply to_json of_json identity never 5 true
        (empty_msg, (1 ∷ 2 ∷ [], true))
        no_sink).sink.out
      ≡ no_sink.out ++ bytes)
    × (read_frame to_json of_json identity (bytes ++ (9 ∷ []))
        ≡ ok (
          frame_of 5
              (pack never true (empty_msg, (1 ∷ 2 ∷ [], true))).0
              (pack never true (empty_msg, (1 ∷ 2 ∷ [], true))).1.0
              (1 ∷ 2 ∷ [])
              (length bytes),
          9 ∷ [],
        ))
unfolding reply pack compress_block write_frame sink_write write_payload
read_frame-reply_example =
    read_frame-reply to_json of_json identity never never-identity 5 true empty_msg (1 ∷ 2 ∷ [])
      true (9 ∷ []) no_sink refl (omega arith) (omega arith) refl
