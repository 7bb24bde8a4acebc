-- ===== src/Remote/Served/Writers.antt =====
-- A writer of `RemoteFS` and the writer of the served file system that stands behind its handle.
use vextra.Base.{
  ℕ, ◌≡◌, refl, ap, ◌∙◌, inl, inr, [], Bool, true, false, ◌&&◌, Option, none, some, arith, str_eq,
  if◌then◌else◌, length, Text,
}
use vextra.Base.Int.{ℤ, pos}
use vextra.Base.Result.{Err, Result, ok, M, ◌>>=◌}
use vextra.Base.Dict.{nat_key, lookup, erase}
use vextra.Codec.{compress_block, decompress_block, should_try}
use vextra.Codec.Blocks.{decompress_block-compress_block}
use vextra.Wire.{empty_msg, Msg}
use vextra.Server.{
  call, found, Server, Answer, dispatch, do_write, do_commit, commit_or_abort, take_handle,
  drop_handle, parse_digest, hash_size,
}
use vextra.Remote.{
  state_or, Remote, RemoteWriter, remote_fs, remote_write_at, send_write, report_write,
  remote_commit, simple,
}
use vextra.Remote.Served.{
  parse_digest_lem, Link, Sent, plain_msg, seen, served_call, client, on_world, plain_reply,
  plain_call,
}

module _ {S H : Type 0} (l : Link S H) where
  -- The messages of a write and of a commit.
  abbrev pub write_msg : RemoteWriter → ℤ → ℤ → Msg
  write_msg wr off raw = record empty_msg { op = "write"; h = wr.h; off = off; raw_len = raw }

  abbrev pub commit_msg : RemoteWriter → Text → ℕ → ℤ → Msg
  commit_msg wr sum mode mtime = record empty_msg {
    op = "commit";
    h = wr.h;
    hash = l.hex_encode sum;
    mode = mode;
    mtime = mtime;
  }

  -- The response to an operation without a value.
  abbrev pub Answers : Result (Unit {0}) × S → Type 0
  Answers y = Sent l (plain_msg l (λ u. empty_msg) y.0) []

  -- The agent's part of a write, for the writer that was found as `x`.
  abbrev write_step : ℤ → Text → Remote (Server S H) → Option H → Result Answer × Server S H
  write_step off p r x =
      ◌>>=◌ (λ (s : Server S H). (found x, s)) (λ v. call (l.fs.write_at v p off) >>= plain_reply l)
        r.wire

  module _ (named : (e : Err) → str_eq (l.error_text e) "" ≡ false) where
    -- What is sent passes, and arrives as the block `d`.
    abbrev Arrives : RemoteWriter → ℤ → Text → Option Text → Type 0
    Arrives wr off d none = Sent l (write_msg wr off (pos 0)) d
    Arrives wr off d (some cb) =
        Sent l (write_msg wr off (pos (length d))) cb
        × (decompress_block l.inflate cb (pos (length d)) ≡ ok d)

    send_write_lem :
        (wr : RemoteWriter) (d : Text) (off : ℤ) (sent : Option Text) (v : H)
        (r : Remote (Server S H))
        → Arrives wr off d sent
        → Answers (l.fs.write_at v d off r.wire.world)
        → lookup wr.h r.wire.handles ≡ some v
        → send_write l.deflate l.unmarshal_list l.hex_encode l.hex_decode l.compress
            (served_call l)
            wr
            d
            off
            sent
            r
          ≡ on_world l r (l.fs.write_at v d off r.wire.world)
    unfolding send_write dispatch do_write take_handle
    send_write_lem wr d off none v r h a e =
        plain_call l named (write_msg wr off (pos 0)) d d false (l.fs.write_at v d off r.wire.world)
          r.wire r h (inl (refl, refl)) a refl (ap (write_step off d r) e)
    send_write_lem wr d off (some cb) v r (h, q) a e =
        plain_call l named (write_msg wr off (pos (length d))) cb d true
          (l.fs.write_at v d off r.wire.world) r.wire r h (inr (refl, q)) a refl
          (ap (write_step off d r) e)

    abbrev reported : RemoteWriter → Bool → Remote (Server S H) → Remote (Server S H)
    reported wr done r =
        (report_write l.deflate l.unmarshal_list l.hex_encode l.hex_decode l.compress
          (served_call l) wr done r).1

    abbrev sending : RemoteWriter → Text → ℤ → Option Text → M (Remote (Server S H)) (Unit {0})
    sending =
        send_write l.deflate l.unmarshal_list l.hex_encode l.hex_decode l.compress (served_call l)

    -- The outcome of writing a block: that of the served file system.
    abbrev pub Wrote :
        Result (Unit {0}) × Remote (Server S H)
        → Result (Unit {0}) × S
        → Remote (Server S H)
        → Type 0
    Wrote x y r = (x.0 ≡ seen l.error_text y.0) × (x.1.wire ≡ record r.wire { world = y.1 })

    abbrev tried :
        RemoteWriter
        → Text
        → ℤ
        → Option Text
        → Remote (Server S H)
        → Result (Unit {0}) × Remote (Server S H)
    tried wr d off c r =
        ◌>>=◌
          (λ (q : Remote (Server S H)).
            elim c as (λ _. Result (Option Text) × Remote (Server S H)) [
              | none ↦ (ok none, reported wr false q)
              | some cb ↦ (ok (some cb), reported wr true q)
            ])
          (sending wr d off) r

    tried_lem :
        (wr : RemoteWriter) (d : Text) (off : ℤ) (c : Option Text) (v : H) (r : Remote (Server S H))
        → Arrives wr off d c
        → Answers (l.fs.write_at v d off r.wire.world)
        → lookup wr.h r.wire.handles ≡ some v
        → Wrote (tried wr d off c r) (l.fs.write_at v d off r.wire.world) r
    tried_lem wr d off none v r h a e =
        let p = send_write_lem wr d off none v (reported wr false r) h a e in
        (ap (λ x. x.0) p, ap (λ x. x.1.wire) p)
    tried_lem wr d off (some cb) v r h a e =
        let p = send_write_lem wr d off (some cb) v (reported wr true r) h a e in
        (ap (λ x. x.0) p, ap (λ x. x.1.wire) p)

    -- The frames that a write of `d` may send pass.
    pub record WritePasses (wr : RemoteWriter) (off : ℤ) (d : Text) : Type 0 where
      pub whole : Sent l (write_msg wr off (pos 0)) d
      pub compressed :
          (cb : Text)
          → compress_block l.deflate d ≡ some cb
          → Sent l (write_msg wr off (pos (length d))) cb

    compressed-Arrives :
        (wr : RemoteWriter) (off : ℤ) (d : Text) (c : Option Text)
        → ((xs ys : Text) → l.deflate xs ≡ some ys → l.inflate ys ≡ xs)
        → WritePasses wr off d
        → compress_block l.deflate d ≡ c
        → Arrives wr off d c
    compressed-Arrives wr off d none undo h e = h.whole
    compressed-Arrives wr off d (some cb) undo h e = (
      h.compressed cb e,
      (decompress_block-compress_block l.deflate l.inflate d cb undo
          (let f = h.whole.fits in omega arith) e).0,
    )

    choose_lem :
        (b : Bool) (wr : RemoteWriter) (d : Text) (off : ℤ) (v : H) (r : Remote (Server S H))
        → ((xs ys : Text) → l.deflate xs ≡ some ys → l.inflate ys ≡ xs)
        → WritePasses wr off d
        → Answers (l.fs.write_at v d off r.wire.world)
        → lookup wr.h r.wire.handles ≡ some v
        → Wrote
            (if b then tried wr d off (compress_block l.deflate d) r else sending wr d off none r)
            (l.fs.write_at v d off r.wire.world)
            r
    choose_lem true wr d off v r undo h a e =
        tried_lem wr d off (compress_block l.deflate d) v r
          (compressed-Arrives wr off d (compress_block l.deflate d) undo h refl) a e
    choose_lem false wr d off v r undo h a e =
        let p = send_write_lem wr d off none v r h.whole a e in
        (ap (λ x. x.0) p, ap (λ x. x.1.wire) p)

    -- A block that is written through a handle that stands for the writer `v` is written by `v`, as it is,
    -- whether or not it travels compressed, and the result is that of `v`, if INFLATE undoes DEFLATE and
    -- JSON gives the messages back, and if the frames of the request, with the block as it is and with
    -- it compressed, and of the response have at most 256 MiB.
    pub remote_fs-write_at :
        (wr : RemoteWriter) (d : Text) (off : ℤ) (v : H) (r : Remote (Server S H))
        → ((xs ys : Text) → l.deflate xs ≡ some ys → l.inflate ys ≡ xs)
        → WritePasses wr off d
        → Answers (l.fs.write_at v d off r.wire.world)
        → lookup wr.h r.wire.handles ≡ some v
        → Wrote ((client l).write_at wr d off r) (l.fs.write_at v d off r.wire.world) r
    unfolding remote_fs remote_write_at
    remote_fs-write_at wr d off v r undo h a e =
        choose_lem (l.compress && should_try (state_or (lookup wr.st r.writers) 0)) wr d off v r
          undo h a e

    -- The agent's part of a commit whose digest is read as `a`, for the writer that was found as `x`.
    abbrev commit_step :
        RemoteWriter
        → Text
        → ℕ
        → ℤ
        → Remote (Server S H)
        → Result Text
        → Option H
        → Result Answer × Server S H
    commit_step wr sum mode mtime r a x =
        ◌>>=◌ (λ (s : Server S H). (found x, s))
          (λ v. drop_handle wr.h >>= λ u.
            commit_or_abort l.error_text l.marshal_list l.hex_encode l.hex_decode l.host l.arch l.fs
              (commit_msg wr sum mode mtime) v a)
          r.wire

    -- A commit through a handle that stands for the writer `v` commits `v` with the digest, the mode and the
    -- time, and gives its result; the handle stands for nothing afterwards. The request and the response
    -- pass through JSON and the frames.
    pub remote_fs-commit :
        (wr : RemoteWriter) (sum : Text) (mode : ℕ) (mtime : ℤ) (v : H) (r : Remote (Server S H))
        → l.hex_decode (l.hex_encode sum) ≡ some sum
        → length sum ≡ hash_size
        → lookup wr.h r.wire.handles ≡ some v
        → Sent l (commit_msg wr sum mode mtime) []
        → Answers (l.fs.commit v sum mode mtime r.wire.world)
        → (client l).commit wr sum mode mtime r
          ≡ on_world l
              (record r { wire = record r.wire { handles = erase wr.h r.wire.handles } })
              (l.fs.commit v sum mode mtime r.wire.world)
    unfolding remote_fs remote_commit simple dispatch do_commit take_handle drop_handle
        commit_or_abort
    remote_fs-commit wr sum mode mtime v r hex n e h a =
        plain_call l named (commit_msg wr sum mode mtime) [] [] false
          (l.fs.commit v sum mode mtime r.wire.world)
          (record r.wire { handles = erase wr.h r.wire.handles }) r h (inl (refl, refl)) a refl
          (ap (commit_step wr sum mode mtime r (parse_digest l.hex_decode (l.hex_encode sum))) e
            ∙ ap (λ q. commit_step wr sum mode mtime r q (some v))
                (parse_digest_lem l.hex_decode (l.hex_encode sum) sum hex n))
