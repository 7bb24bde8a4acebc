-- ===== src/Wire/Frames.antt =====
-- `writeFrame` and then `readFrame` of proto.go.
use vextra.Base.{
  ℕ, suc, ◌+◌, ◌/◌, ◌%◌, ◌^◌, ◌≤◌, ◌<◌, ◌≡◌, refl, sym, ap, ◌∙◌, ◌⊎◌, inl, inr, true, false, ◌||◌,
  Option, some, [], ◌∷◌, ◌++◌, arith, ltb, ◌==◌, Bool-cases, length, take, drop, length-append,
  length-drop, take-length-append, drop-length-append, Text,
}
use vextra.Base.Result.{ok, bind}
use mathlib.Core.List.{append_assoc, append-nil}
use vextra.Codec.{max_frame, decompress_block}
use vextra.Wire.{
  Msg, Sink, frame_of, Written, write_payload, put_u32, get_u32, get_byte, flag_z, sink_write,
  frame_head, write_frame, finish_frame, parse_body, read_frame,
}
use vextra.Wire.Words.{get_u32-put_u32}

module _ (marshal : Msg → Text) (unmarshal : Text → Option Msg) (inflate : Text → Text) where
  -- The body of a frame, behind its length.
  abbrev body_of : ℕ → ℕ → Text → Text → Text
  body_of id flags hdr payload = put_u32 id ++ (flags ∷ (put_u32 (length hdr) ++ (hdr ++ payload)))

  -- Over any body with the right parts.
  parse_parts :
      (id flags total : ℕ) (m : Msg) (hdr payload body : Text)
      → get_u32 body ≡ id
      → get_byte (drop 4 body) ≡ flags
      → get_u32 (drop 5 body) ≡ length hdr
      → take (length hdr) (drop 9 body) ≡ hdr
      → drop (9 + length hdr) body ≡ payload
      → length hdr + 9 ≤ total
      → unmarshal hdr ≡ some m
      → parse_body marshal unmarshal inflate total body
        ≡ finish_frame marshal unmarshal inflate id flags m payload (total + 4)
  unfolding parse_body
  parse_parts id flags total m hdr payload body f1 f2 f3 f4 f5 le law =
      let small : ltb total (length hdr + 9) ≡ false = ground arith in ground arith

  parse_body_lem :
      (id flags total : ℕ) (m : Msg) (hdr payload : Text)
      → id < 2 ^ 32
      → total ≡ 9 + length hdr + length payload
      → total ≤ max_frame
      → unmarshal hdr ≡ some m
      → parse_body marshal unmarshal inflate total (body_of id flags hdr payload)
        ≡ finish_frame marshal unmarshal inflate id flags m payload (total + 4)
  unfolding put_u32 get_byte
  parse_body_lem id flags total m hdr payload hid et fits law =
      let e : 9 + length hdr ≡ suc (suc (suc (suc (suc (suc (suc (suc (suc (length hdr))))))))) =
        omega arith in
      parse_parts id flags total m hdr payload (body_of id flags hdr payload)
        (get_u32-put_u32 id _ hid) refl
        (get_u32-put_u32 (length hdr) (hdr ++ payload) (omega arith))
        (take-length-append hdr payload)
        (ap (λ n. drop n (body_of id flags hdr payload)) e ∙ drop-length-append hdr payload)
        (omega arith) law

  read_parts :
      (total b : ℕ) (r body rest : Text)
      → get_u32 (b ∷ r) ≡ total
      → drop 4 (b ∷ r) ≡ body ++ rest
      → length body ≡ total
      → 9 ≤ total
      → total ≤ max_frame
      → read_frame marshal unmarshal inflate (b ∷ r)
        ≡ bind (parse_body marshal unmarshal inflate total body) (λ f. ok (f, rest))
  unfolding read_frame
  read_parts total b r body rest f1 f2 f3 lo hi =
      let long : ltb (length (b ∷ r)) 4 ≡ false =
        ground
          (arith, length-drop 4 (b ∷ r), ap (λ (t : Text). length t) f2, length-append body rest) in
      let range : (ltb total 9 || ltb max_frame total) ≡ false = ground arith in
      let room : ltb (length (body ++ rest)) total ≡ false =
        ground (arith, length-append body rest) in
      let t : take total (body ++ rest) ≡ body =
        ap (λ n. take n (body ++ rest)) (sym f3) ∙ take-length-append body rest in
      let d : drop total (body ++ rest) ≡ rest =
        ap (λ n. drop n (body ++ rest)) (sym f3) ∙ drop-length-append body rest in
      rw (long, f1, f2, range, room, t, d)

  read_frame_lem :
      (id flags total : ℕ) (m : Msg) (hdr payload rest : Text)
      → id < 2 ^ 32
      → total ≡ 9 + length hdr + length payload
      → total ≤ max_frame
      → unmarshal hdr ≡ some m
      → read_frame marshal unmarshal inflate
          (put_u32 total ++ (body_of id flags hdr payload ++ rest))
        ≡ bind
            (finish_frame marshal unmarshal inflate id flags m payload (total + 4))
            (λ f. ok (f, rest))
  unfolding put_u32
  read_frame_lem id flags total m hdr payload rest hid et fits law =
      let body = body_of id flags hdr payload in
      let len : length body ≡ total = omega (arith, length-append hdr payload) in
      read_parts total _ _ body rest (get_u32-put_u32 total (body ++ rest) (omega arith)) refl len
        (omega arith) fits
      ∙ ap (λ x. bind x (λ f. ok (f, rest)))
          (parse_body_lem id flags total m hdr payload hid et fits law)

  sink_write_done :
      (p : Text) (s : Sink)
      → (sink_write p s).done ≡ true
      → ((sink_write p s).count ≡ length p) × ((sink_write p s).sink.out ≡ s.out ++ p)
  unfolding sink_write
  sink_write_done p s h = ground arith

  write_payload_done :
      (payload : Text) (w : Written)
      → (write_payload payload w).done ≡ true
      → (w.done ≡ true)
        × ((write_payload payload w).count ≡ w.count + length payload)
        × ((write_payload payload w).sink.out ≡ w.sink.out ++ payload)
  unfolding write_payload
  write_payload_done [] w h = ground (arith, append-nil w.sink.out)
  write_payload_done (b ∷ payload) w h = ground (arith, sink_write_done (b ∷ payload) w.sink)

  length-frame_head :
      (total id flags : ℕ) (hdr : Text) → length (frame_head total id flags hdr) ≡ 13 + length hdr
  unfolding put_u32
  length-frame_head total id flags hdr = omega arith

  -- What a successful `writeFrame` has written.
  write_frame_done :
      (id flags : ℕ) (m : Msg) (payload : Text) (s : Sink)
      → let r = write_frame marshal unmarshal inflate id flags m payload s in
        let total = 9 + length (marshal m) + length payload in
        r.done ≡ true
        → (total ≤ max_frame)
          × (r.count ≡ total + 4)
          × (r.sink.out ≡ s.out ++ (frame_head total id flags (marshal m) ++ payload))
  unfolding write_frame
  write_frame_done id flags m payload s h =
      let total = 9 + length (marshal m) + length payload in
      let head = frame_head total id flags (marshal m) in
      elim (Bool-cases (ltb max_frame total)) [
        | inl big ↦ cc (rw big at h)
        | inr fits ↦
            let p = write_payload_done payload (sink_write head s) (rw fits at h) in
            let q = sink_write_done head s p.0 in
            rw fits (
              ground arith,
              omega (arith, p.1, q.0, length-frame_head total id flags (marshal m)),
              p.2 ∙ ap (λ t. t ++ payload) q.1 ∙ append_assoc s.out head payload,
            )
      ]

  frame_bytes :
      (total id flags : ℕ) (hdr payload rest : Text)
      → frame_head total id flags hdr ++ payload ++ rest
        ≡ put_u32 total ++ (body_of id flags hdr payload ++ rest)
  unfolding put_u32
  frame_bytes total id flags hdr payload rest = refl

  finish_frame_lem :
      (id flags : ℕ) (m : Msg) (payload p : Text) (wire : ℕ)
      → ((flags / flag_z % 2 ≡ 0) × (p ≡ payload))
        ⊎ ((flags / flag_z % 2 ≡ 1) × (decompress_block inflate payload m.raw_len ≡ ok p))
      → finish_frame marshal unmarshal inflate id flags m payload wire
        ≡ ok (frame_of id flags m p wire)
  unfolding finish_frame
  finish_frame_lem id flags m payload p wire (inl (e, q)) =
      let bit : (flags / flag_z % 2 == 1) ≡ false = ground arith in rw (bit, q)
  finish_frame_lem id flags m payload p wire (inr (e, q)) =
      let bit : (flags / flag_z % 2 == 1) ≡ true = ground arith in rw (bit, q)

  -- Let JSON give the message back, let the id be a 32-bit word, and let a payload that the flags
  -- call compressed be one that decompresses. If `writeFrame` succeeds, it has appended exactly the
  -- bytes that it counts, and `readFrame` over these bytes, whatever follows them, returns the frame:
  -- its id, flags and message, the number of bytes, the payload, decompressed if the flags say that
  -- it is compressed, and leaves what follows.
  pub read_frame-write_frame :
      (id flags : ℕ) (m : Msg) (payload p rest : Text) (s : Sink)
      → unmarshal (marshal m) ≡ some m
      → id < 2 ^ 32
      → ((flags / flag_z % 2 ≡ 0) × (p ≡ payload))
        ⊎ ((flags / flag_z % 2 ≡ 1) × (decompress_block inflate payload m.raw_len ≡ ok p))
      → (write_frame marshal unmarshal inflate id flags m payload s).done ≡ true
      → (bytes : Text) × ((write_frame marshal unmarshal inflate id flags m payload s).sink.out
          ≡ s.out ++ bytes)
        × ((write_frame marshal unmarshal inflate id flags m payload s).count ≡ length bytes)
        × (read_frame marshal unmarshal inflate (bytes ++ rest)
            ≡ ok (frame_of id flags m p (length bytes), rest))
  read_frame-write_frame id flags m payload p rest s law hid coded done' =
      let total = 9 + length (marshal m) + length payload in
      let bytes = frame_head total id flags (marshal m) ++ payload in
      let w = write_frame_done id flags m payload s done' in
      let len : length bytes ≡ total + 4 = omega (
        arith,
        length-append (frame_head total id flags (marshal m)) payload,
        length-frame_head total id flags (marshal m),
      ) in
      (
        bytes,
        w.2,
        w.1 ∙ sym len,
        ap (read_frame marshal unmarshal inflate)
              (frame_bytes total id flags (marshal m) payload rest)
            ∙ read_frame_lem id flags total m (marshal m) payload rest hid refl w.0 law
            ∙ ap (λ x. bind x (λ f. ok (f, rest)))
                (finish_frame_lem id flags m payload p (total + 4) coded)
            ∙ ap (λ n. ok (frame_of id flags m p n, rest)) (sym len),
      )
