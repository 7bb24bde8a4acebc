-- ===== src/Remote/Passed.antt =====
-- Calls whose request and response pass through the frames.
use vextra.Base.{
  ℕ, ◌+◌, ◌≤◌, ◌≡◌, refl, sym, ap, ◌∙◌, Bool, true, false, Option, some, [], arith, ltb, length,
  Text,
}
use mathlib.Core.List.{append-nil}
use vextra.Base.Result.{ok}
use vextra.Codec.{max_frame}
use vextra.Wire.{Msg, Frame, frame_of, Written, write_frame, write_payload, sink_write, read_frame}
use vextra.Wire.Frames.{read_frame-write_frame}
use vextra.Server.{Answer, pack, reply}
use vextra.Server.Replies.{Readable}
use vextra.Remote.Direct.{fresh, arrived}

module _ (marshal : Msg → Text) (unmarshal : Text → Option Msg) (inflate : Text → Text) where
  -- JSON gives the message back, and the frame has at most 256 MiB.
  pub record Passes (m : Msg) (payload : Text) : Type 0 where
    pub json : unmarshal (marshal m) ≡ some m
    pub fits : 9 + length (marshal m) + length payload ≤ max_frame

  -- The bytes that a frame takes.
  abbrev pub wire_of : ℕ → Msg → Text → ℕ
  wire_of flags m payload = (write_frame marshal unmarshal inflate 0 flags m payload fresh).count

  write_frame-fresh :
      (flags : ℕ) (m : Msg) (payload : Text)
      → 9 + length (marshal m) + length payload ≤ max_frame
      → (write_frame marshal unmarshal inflate 0 flags m payload fresh).done ≡ true
  unfolding write_frame write_payload sink_write
  write_frame-fresh flags m payload h =
      let small : ltb max_frame (9 + length (marshal m) + length payload) ≡ false = ground arith in
      rw small (ground arith)

  arrived-write :
      (w : Written) (bytes : Text) (f : Frame)
      → w.done ≡ true
      → w.sink.out ≡ bytes
      → read_frame marshal unmarshal inflate bytes ≡ ok (f, [])
      → arrived marshal unmarshal inflate w ≡ ok f
  unfolding arrived
  arrived-write w bytes f d e q = rw (d, e, q) refl

  -- A frame that passes arrives as it was sent, with its payload uncompressed.
  pub arrived-write_frame :
      (flags : ℕ) (m : Msg) (payload p : Text)
      → Passes m payload
      → Readable inflate (flags, (m, payload)) p
      → arrived marshal unmarshal inflate
          (write_frame marshal unmarshal inflate 0 flags m payload fresh)
        ≡ ok (frame_of 0 flags m p (wire_of flags m payload))
  arrived-write_frame flags m payload p h c =
      let w = write_frame marshal unmarshal inflate 0 flags m payload fresh in
      let d = write_frame-fresh flags m payload h.fits in
      let (bytes, out, count, back) =
        read_frame-write_frame marshal unmarshal inflate 0 flags m payload p [] fresh h.json
          (omega arith) c d in
      arrived-write w bytes (frame_of 0 flags m p w.count) d out (
        ap (read_frame marshal unmarshal inflate) (sym (append-nil bytes))
        ∙ back
        ∙ ap (λ n. ok (frame_of 0 flags m p n, [])) (sym count))

  -- A response that passes.
  pub record Replies (deflate : Text → Option Text) (z : Bool) (a : Answer) : Type 0 where
    pub passes : Passes (pack deflate z a).1.0 (pack deflate z a).1.1
    pub readable : Readable inflate (pack deflate z a) (a.1.0)

  -- The frame of a response, as the client reads it.
  abbrev pub frame_for : (Text → Option Text) → Bool → Answer → Frame
  frame_for deflate z a =
      let (flags, (m, payload)) = pack deflate z a in
      frame_of 0 flags m (a.1.0) (wire_of flags m payload)

  pub arrived-reply :
      (deflate : Text → Option Text) (z : Bool) (a : Answer)
      → Replies deflate z a
      → arrived marshal unmarshal inflate (reply marshal unmarshal inflate deflate 0 z a fresh)
        ≡ ok (frame_for deflate z a)
  unfolding reply
  arrived-reply deflate z a h =
      let (flags, (m, payload)) = pack deflate z a in
      arrived-write_frame flags m payload (a.1.0) h.passes h.readable
