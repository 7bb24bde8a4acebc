-- ===== src/Remote/Served/Files.antt =====
-- Reading signatures and content through `RemoteFS`.
use vextra.Base.{
  ℕ, ◌*◌, ◌/◌, ◌%◌, ◌^◌, ◌≤◌, ◌≡◌, refl, sym, ap, ◌∙◌, inl, inr, Bool, true, false, ◌&&◌, ◌||◌,
  Option, some, List, [], ◌∷◌, ◌++◌, arith, str_eq, ◌==◌, if◌then◌else◌, Option-cases, length, take,
  drop, All, length-append, take-length-append, drop-length-append, Text,
}
use vextra.Base.Int.{ℤ, pos, ltb_ℤ}
use vextra.Base.Result.{Err, Result, ok, err, M, ◌>>=◌, pure, raise}
use mathlib.Core.Path.{subst}
use vextra.Delta.{Sigs}
use vextra.Wire.{Msg, empty_msg, Frame, frame_of, flag_z}
use vextra.Base.Dict.{text_key, lookup, insert}
use vextra.Codec.{max_frame, compress_block, should_try, new_comp_state}
use vextra.Server.{
  call, Server, Answer, plain, code_for, err_msg, dispatch, pack, do_read, do_sigs, to_answer,
  concat, hash_size,
}
use vextra.Remote.{
  state_or, Remote, remote_fs, remote_read_at, remote_sigs, read_sigs, digests, report_read,
}
use vextra.Remote.Direct.{receive}
use vextra.Remote.Passed.{wire_of, Replies, frame_for}
use vextra.Server.Replies.{pack-Readable}
use vextra.Remote.Served.{
  parse_digest_lem, Link, Sent, answer_of, go_on, served_call_lem, seen, served_call, client, moved,
  on_world, after_call, after_call-err,
}

-- A payload that may be compressed reaches the client as it was.
receive-pack :
    (deflate : Text → Option Text) (z : Bool) (d : Text) (n : ℕ)
    → let x = pack deflate z (empty_msg, (d, true)) in
      receive (frame_of 0 x.0 x.1.0 d n) ≡ ok (frame_of 0 x.0 x.1.0 d n)
unfolding receive pack
receive-pack deflate false d n = refl
receive-pack deflate true d n = elim (Option-cases (compress_block deflate d)) [
  | inl e ↦ rw e refl
  | inr (cb, e) ↦ rw e refl
]

take-block : (n : ℕ) (b s : Text) → length b ≡ n → (take n (b ++ s) ≡ b) × (drop n (b ++ s) ≡ s)
take-block n b s h =
    subst (λ k. (take k (b ++ s) ≡ b) × (drop k (b ++ s) ≡ s)) h
      (take-length-append b s, drop-length-append b s)

digests-concat :
    (blocks : List Text)
    → All (λ b. length b ≡ hash_size) blocks
    → digests (length blocks) (concat blocks) ≡ blocks
unfolding digests concat
digests-concat [] h = refl
digests-concat (b ∷ blocks) h =
    let cut = take-block hash_size b (concat blocks) h.0 in
    ap (λ x. x ∷ digests (length blocks) (drop hash_size (b ++ concat blocks))) cut.0
    ∙ ap (λ s. b ∷ digests (length blocks) s) cut.1
    ∙ ap (λ bs. b ∷ bs) (digests-concat blocks h.1)

length-concat :
    (blocks : List Text)
    → All (λ b. length b ≡ hash_size) blocks
    → length (concat blocks) ≡ length blocks * hash_size
unfolding concat
length-concat [] h = omega arith
length-concat (b ∷ blocks) h =
    omega (arith, length-append b (concat blocks), length-concat blocks h.1)

-- What `LocalFS.Sigs` returns: nothing, or digests of the hash's length.
pub data IsSent (sg : Sigs) : Type 0 where
  absent : sg.exists ≡ false → sg.hash ≡ [] → sg.blocks ≡ [] → IsSent sg
  present :
      sg.exists ≡ true
      → length sg.hash ≡ hash_size
      → All (λ b. length b ≡ hash_size) sg.blocks
      → IsSent sg

module _ {S H : Type 0} (l : Link S H) where
  abbrev read_reply : Text → M (Server S H) Answer
  read_reply d = pure (empty_msg, (d, true))

  -- Whether the client asks for a compressed answer to a read.
  abbrev pub wants_z : Text → Remote (Server S H) → Bool
  wants_z p r = l.compress && should_try (state_or (lookup p r.comp) (new_comp_state p))

  abbrev pub read_msg : Text → ℤ → ℤ → Bool → Msg
  read_msg p off n try = record empty_msg { op = "read"; path = p; off = off; len = n; z = try }

  -- The answer to a read.
  abbrev pub read_answer : Result Text → Answer
  read_answer (ok d) = (empty_msg, (d, true))
  read_answer (err e) = plain (record empty_msg { err_text = l.error_text e; code = code_for e })

  -- The response to a read passes, compressed where it is, and so does its content.
  pub record ReadPasses (try : Bool) (y : Result Text) : Type 0 where
    pub sent :
        Sent l (pack l.deflate try (read_answer y)).1.0 (pack l.deflate try (read_answer y)).1.1
    pub bounded : (d : Text) → y ≡ ok d → length d ≤ max_frame

  read-Replies :
      (try : Bool) (y : Result Text × S) (s : Server S H)
      → ((xs ys : Text) → l.deflate xs ≡ some ys → l.inflate ys ≡ xs)
      → ReadPasses try y.0
      → Replies l.marshal l.unmarshal l.inflate l.deflate try
          (answer_of l (◌>>=◌ (λ (t : Server S H). (y.0, record t { world = y.1 })) read_reply s).0)
  unfolding to_answer err_msg pack
  read-Replies try (ok d, w) s undo h = record {
    passes = h.sent;
    readable = pack-Readable l.deflate l.inflate undo try empty_msg d true (h.bounded d refl);
  }
  read-Replies try (err e, w) s undo h = record { passes = h.sent; readable = inl (refl, refl) }

  abbrev read_next : Text → Bool → Frame → M (Remote (Server S H)) Text
  read_next p try f =
      (if try
        then report_read l.deflate l.unmarshal_list l.hex_encode l.hex_decode l.compress
            (served_call l) p (f.flags / flag_z % 2 == 1)
        else pure tt)
      >>= λ u. pure f.payload

  module _ (named : (e : Err) → str_eq (l.error_text e) "" ≡ false) where
    read_ok :
        (p : Text) (try : Bool) (f : Frame) (q : Remote (Server S H))
        → ((read_next p try f q).0 ≡ ok f.payload) × ((read_next p try f q).1.wire ≡ q.wire)
    read_ok p true f q = (refl, refl)
    read_ok p false f q = (refl, refl)

    -- The outcome `y` of reading, through the wire.
    read_lem :
        (p : Text) (try : Bool) (y : Result Text × S) (q : Remote (Server S H))
        → ((after_call l try read_reply (read_next p try) y q).0 ≡ seen l.error_text y.0)
          × ((after_call l try read_reply (read_next p try) y q).1.wire
              ≡ record q.wire { world = y.1 })
    unfolding to_answer
    read_lem p try (ok d, w) q =
        let f = frame_for l.marshal l.unmarshal l.inflate l.deflate try (empty_msg, (d, true)) in
        let t = record q { wire = record q.wire { world = w } } in
        let e : after_call l try read_reply (read_next p try) (ok d, w) q ≡ read_next p try f t =
          ap (λ x. ◌>>=◌ (λ (r : Remote (Server S H)). (x, t)) (read_next p try) q)
            (receive-pack l.deflate try d f.wire) in
        (ap (λ x. x.0) e ∙ (read_ok p try f t).0, ap (λ x. x.1.wire) e ∙ (read_ok p try f t).1)
    read_lem p try (err e, w) q =
        let h = after_call-err l named try read_reply (read_next p try) e w q in
        (ap (λ x. x.0) h, ap (λ x. x.1.wire) h)

    -- A read of at most 64 MiB through the client does what it does at the served file system, and gives
    -- the same bytes or, for an error, its code and text. Whether the bytes travel compressed, and what
    -- the client remembers of that, makes no difference. INFLATE undoes DEFLATE, JSON gives the request
    -- and the response back, and their frames and the content have at most 256 MiB.
    pub remote_fs-read_at :
        (p : Text) (off : ℤ) (n : ℕ) (r : Remote (Server S H))
        → n ≤ 64 * 2 ^ 20
        → ((xs ys : Text) → l.deflate xs ≡ some ys → l.inflate ys ≡ xs)
        → Sent l (read_msg p off (pos n) (wants_z p r)) []
        → ReadPasses (wants_z p r) (l.fs.read_at p off (pos n) r.wire.world).0
        → let y = l.fs.read_at p off (pos n) r.wire.world in
          let x = (client l).read_at p off (pos n) r in
          (x.0 ≡ seen l.error_text y.0) × (x.1.wire ≡ record r.wire { world = y.1 })
    unfolding remote_fs remote_read_at dispatch do_read
    remote_fs-read_at p off n r h undo sent replies =
        let st = state_or (lookup p r.comp) (new_comp_state p) in
        let try = wants_z p r in
        let q = record r { comp = insert p st r.comp } in
        let y = l.fs.read_at p off (pos n) r.wire.world in
        let fits : (ltb_ℤ (pos n) (pos 0) || ltb_ℤ (pos (64 * 2 ^ 20)) (pos n)) ≡ false =
          ground arith in
        let d : dispatch l.error_text l.marshal_list l.hex_encode l.hex_decode l.host l.arch l.fs
              "read" (read_msg p off (pos n) try) [] r.wire
            ≡ ◌>>=◌ (λ (t : Server S H). (y.0, record t { world = y.1 })) read_reply r.wire =
          ap
            (λ (b : Bool).
              (if b then raise Err.other else (call (l.fs.read_at p off (pos n)) >>= read_reply))
                r.wire)
            fits in
        let e : (client l).read_at p off (pos n) r
            ≡ after_call l try read_reply (read_next p try) y q =
          ap (go_on l (read_next p try) q) (
            served_call_lem l (read_msg p off (pos n) try) [] [] false r.wire sent
              (inl (refl, refl)) (rw d (read-Replies try y r.wire undo replies))
            ∙ rw d refl) in
        let z = read_lem p try y q in (ap (λ x. x.0) e ∙ z.0, ap (λ x. x.1.wire) e ∙ z.1)

    abbrev sigs_reply : Sigs → M (Server S H) Answer
    sigs_reply sg = pure (
      record empty_msg {
        exists = sg.exists;
        kind = sg.kind;
        size = sg.size;
        bs = sg.bs;
        hash = l.hex_encode sg.hash;
      },
      (concat sg.blocks, false),
    )

    abbrev choose_sigs : Bool → Frame → Sigs → M (Remote (Server S H)) Sigs
    choose_sigs x f sg =
        if x
        then (λ r. (
          read_sigs l.deflate l.unmarshal_list l.hex_encode l.hex_decode l.compress (served_call l)
              f,
          r,
        ))
        else pure sg

    abbrev sigs_next : Frame → M (Remote (Server S H)) Sigs
    sigs_next f = choose_sigs f.msg.exists f (record {
      exists = false;
      kind = f.msg.kind;
      size = f.msg.size;
      bs = f.msg.bs;
      hash = [];
      blocks = [];
    })

    -- The answer to a request for the signatures of a file.
    read_sigs_lem :
        (sg : Sigs) (f : Frame)
        → l.hex_decode f.msg.hash ≡ some sg.hash
        → f.payload ≡ concat sg.blocks
        → length sg.hash ≡ hash_size
        → All (λ b. length b ≡ hash_size) sg.blocks
        → read_sigs l.deflate l.unmarshal_list l.hex_encode l.hex_decode l.compress
            (served_call l)
            f
          ≡ ok (record {
            exists = f.msg.exists;
            kind = f.msg.kind;
            size = f.msg.size;
            bs = f.msg.bs;
            hash = sg.hash;
            blocks = sg.blocks;
          })
    unfolding read_sigs
    read_sigs_lem sg f h e n all =
        let len : length (concat sg.blocks) ≡ length sg.blocks * hash_size =
          length-concat sg.blocks all in
        let whole : (length (concat sg.blocks) % hash_size == 0) ≡ true = ground (arith, len) in
        let count : length (concat sg.blocks) / hash_size ≡ length sg.blocks = omega (arith, len) in
        rw (
          parse_digest_lem l.hex_decode f.msg.hash sg.hash h n,
          e,
          whole,
          count,
          digests-concat sg.blocks all,
        )

    -- The answer to a request for signatures.
    abbrev pub sigs_answer : Result Sigs → Answer
    sigs_answer (ok sg) = (
      record empty_msg {
        exists = sg.exists;
        kind = sg.kind;
        size = sg.size;
        bs = sg.bs;
        hash = l.hex_encode sg.hash;
      },
      (concat sg.blocks, false),
    )
    sigs_answer (err e) = plain (record empty_msg { err_text = l.error_text e; code = code_for e })

    abbrev pub sigs_msg : Text → Text → ℤ → Msg
    sigs_msg p job bs = record empty_msg { op = "sigs"; path = p; job = job; bs = bs }

    sigs-Replies :
        (y : Result Sigs × S) (s : Server S H)
        → Sent l (sigs_answer y.0).0 (sigs_answer y.0).1.0
        → Replies l.marshal l.unmarshal l.inflate l.deflate false (
            answer_of l
              (◌>>=◌ (λ (t : Server S H). (y.0, record t { world = y.1 })) sigs_reply s).0)
    unfolding pack to_answer err_msg
    sigs-Replies (ok sg, w) s h = record { passes = h; readable = inl (refl, refl) }
    sigs-Replies (err e, w) s h = record { passes = h; readable = inl (refl, refl) }

    abbrev sent_frame : Sigs → Frame
    sent_frame sg =
        frame_of 0 1 (sigs_answer (ok sg)).0 (concat sg.blocks)
          (wire_of l.marshal l.unmarshal l.inflate 1 (sigs_answer (ok sg)).0 (concat sg.blocks))

    next-present :
        (f : Frame) (r : Remote (Server S H))
        → f.msg.exists ≡ true
        → sigs_next f r ≡ (
          read_sigs l.deflate l.unmarshal_list l.hex_encode l.hex_decode l.compress
              (served_call l)
              f,
          r,
        )
    next-present f r h = rw h refl

    next-absent :
        (sg : Sigs) (r : Remote (Server S H))
        → sg.exists ≡ false
        → sg.hash ≡ []
        → sg.blocks ≡ []
        → sigs_next (sent_frame sg) r ≡ (ok sg, r)
    next-absent sg r e h b =
        ap
          (λ (x : Bool).
            choose_sigs x (sent_frame sg) (record sg { exists = false; hash = []; blocks = [] }) r)
          e
        ∙ (λ i. (ok (record sg { exists = sym e i; hash = sym h i; blocks = sym b i }), r))

    sent :
        (sg : Sigs) (w : S) (r : Remote (Server S H))
        → ((d : Text) → length d ≡ hash_size → l.hex_decode (l.hex_encode d) ≡ some d)
        → IsSent sg
        → after_call l false sigs_reply sigs_next (ok sg, w) r ≡ (ok sg, moved l r w)
    unfolding receive pack to_answer
    sent sg w r hex (absent e h b) = next-absent sg (moved l r w) e h b
    sent sg w r hex (present e h b) =
        next-present (sent_frame sg) (moved l r w) e
        ∙ ap (λ x. (x, moved l r w)) (read_sigs_lem sg (sent_frame sg) (hex sg.hash h) refl h b)

    sigs_lem :
        (y : Result Sigs × S) (r : Remote (Server S H))
        → ((d : Text) → length d ≡ hash_size → l.hex_decode (l.hex_encode d) ≡ some d)
        → ((sg : Sigs) → y.0 ≡ ok sg → IsSent sg)
        → after_call l false sigs_reply sigs_next y r ≡ on_world l r y
    unfolding receive pack to_answer
    sigs_lem (ok sg, w) r hex sane = sent sg w r hex (sane sg refl)
    sigs_lem (err e, w) r hex sane = after_call-err l named false sigs_reply sigs_next e w r

    -- Signatures through the client are those of the served file system, digest by digest, or its error.
    -- What the file system signs has digests of 32 bytes, or is nothing, and hexadecimal digits can be
    -- read back; JSON gives the request and the response back, and their frames have at most 256 MiB.
    pub remote_fs-sigs :
        (p job : Text) (bs : ℤ) (r : Remote (Server S H))
        → ((d : Text) → length d ≡ hash_size → l.hex_decode (l.hex_encode d) ≡ some d)
        → ((sg : Sigs) → (l.fs.sigs p job bs r.wire.world).0 ≡ ok sg → IsSent sg)
        → Sent l (sigs_msg p job bs) []
        → Sent l
            (sigs_answer (l.fs.sigs p job bs r.wire.world).0).0
            (sigs_answer (l.fs.sigs p job bs r.wire.world).0).1.0
        → (client l).sigs p job bs r ≡ on_world l r (l.fs.sigs p job bs r.wire.world)
    unfolding remote_fs remote_sigs dispatch do_sigs
    remote_fs-sigs p job bs r hex sane h a =
        let y = l.fs.sigs p job bs r.wire.world in
        ap (go_on l sigs_next r) (
          served_call_lem l (sigs_msg p job bs) [] [] false r.wire h (inl (refl, refl))
            (sigs-Replies y r.wire a))
        ∙ sigs_lem y r hex sane
