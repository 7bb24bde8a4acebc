-- ===== src/Remote.antt =====
-- remotefs.go: `RemoteFS`, an `Fs` over the calls of a connection. The memory of what was worth
-- compressing is state of the client: one for each path that is read, and one for each writer, which
-- a writer refers to. JSON and hexadecimal digits are parameters.
pub mod Direct
pub mod Passed
pub mod Served
use vextra.Base.{
  ℕ, zero, suc, ◌+◌, ◌/◌, ◌%◌, Bool, true, false, not, ◌&&◌, Option, none, some, List, [], ◌∷◌,
  ◌==◌, if◌then◌else◌, length, take, drop, Text,
}
use vextra.Base.Int.{ℤ, pos, eqb_ℤ}
use vextra.Base.Result.{Err, Result, ok, err, bind, M, ◌>>=◌, ◌>>◌, pure, raise}
use vextra.Base.Dict.{Dict, nat_key, text_key, lookup, insert}
use vextra.Entry.{Entry}
use vextra.Delta.{Sigs}
use vextra.Codec.{CompState, new_comp_state, should_try, report, compress_block}
use vextra.Wire.{Msg, empty_msg, Frame, flag_z}
use vextra.Fs.{Fs}
use vextra.Server.{hash_size, proto_version, parse_digest}

-- `RemoteFS`, less the connection and what never changes, and the `compState` of each writer.
pub record Remote (W : Type 0) : Type 0 where
  pub wire : W
  pub comp : Dict Text CompState
  pub writers : Dict ℕ CompState
  pub next_writer : ℕ

-- What the agent said of itself.
pub record Peer : Type 0 where
  pub home : Text
  pub host : Text
  pub arch : Text

-- `remoteWriter`; `st` refers to its `compState`.
pub record RemoteWriter : Type 0 where
  pub h : ℕ
  pub st : ℕ

-- The digests that stand one behind the other in a payload.
unfoldable pub digests : ℕ → Text → List Text
digests zero s = []
digests (suc n) s = take hash_size s ∷ digests n (drop hash_size s)

-- `compState` of an unknown path or writer
abbrev pub state_or : Option CompState → CompState → CompState
state_or none d = d
state_or (some c) d = c

module _ (deflate : Text → Option Text) (unmarshal_list : Text → Option (List Entry))
    (hex_encode : Text → Text) (hex_decode : Text → Option Text) (compress : Bool) {W : Type 0}
    (call : Msg → Text → Bool → M W Frame) where
  abbrev pub C : Type 0 → Type 0
  C = M (Remote W)

  abbrev pub ask : Msg → Text → Bool → C Frame
  ask m payload z r = let (x, w) = call m payload z r.wire in (x, record r { wire = w })

  -- `simple`
  unfoldable pub simple : Msg → C (Unit {0})
  simple m = ask m [] false >>= λ f. pure tt

  unfoldable pub remote_stat : Text → Bool → C Entry
  remote_stat p follow = do
    f ← ask (record empty_msg { op = "stat"; path = p; follow = follow }) [] false
    elim f.msg.entry [ none ↦ raise Err.other | some e ↦ pure e ]

  unfoldable pub remote_list : Text → Bool → C (List Entry)
  remote_list p recursive = do
    f ←
        ask (record empty_msg { op = "list"; path = p; recursive = recursive; z = compress }) []
          false
    elim (unmarshal_list f.payload) [ none ↦ raise Err.other | some ents ↦ pure ents ]

  -- The answer to `sigs`, once it is known that there is a file.
  unfoldable pub read_sigs : Frame → Result Sigs
  read_sigs f = bind (parse_digest hex_decode f.msg.hash) λ hash.
      if not (length f.payload % hash_size == 0)
      then err Err.other
      else ok (record {
        exists = f.msg.exists;
        kind = f.msg.kind;
        size = f.msg.size;
        bs = f.msg.bs;
        hash = hash;
        blocks = digests (length f.payload / hash_size) f.payload;
      })

  abbrev pub lift : {A : Type 0} → Result A → C A
  lift x r = (x, r)

  unfoldable pub remote_sigs : Text → Text → ℤ → C Sigs
  remote_sigs p job bs = do
    f ← ask (record empty_msg { op = "sigs"; path = p; job = job; bs = bs }) [] false
    (if f.msg.exists
        then lift (read_sigs f)
        else pure (record {
          exists = false;
          kind = f.msg.kind;
          size = f.msg.size;
          bs = f.msg.bs;
          hash = [];
          blocks = [];
        }))

  -- `stateFor`, and the state in the map from then on
  abbrev pub state_for : Text → C CompState
  state_for p r =
      let c = state_or (lookup p r.comp) (new_comp_state p) in
      (ok c, record r { comp = insert p c r.comp })

  abbrev pub report_read : Text → Bool → C (Unit {0})
  report_read p done r =
      let c = state_or (lookup p r.comp) (new_comp_state p) in
      (ok tt, record r { comp = insert p (report c done) r.comp })

  unfoldable pub remote_read_at : Text → ℤ → ℤ → C Text
  remote_read_at p off n = do
    st ← state_for p
    let try = compress && should_try st
    f ← ask (record empty_msg { op = "read"; path = p; off = off; len = n; z = try }) [] false
    (if try then report_read p (f.flags / flag_z % 2 == 1) else pure tt)
    pure f.payload

  -- A new writer with its own memory.
  abbrev pub new_writer : Text → ℕ → C RemoteWriter
  new_writer p h r = (
    ok (record { h = h; st = r.next_writer }),
    record r {
      writers = insert r.next_writer (new_comp_state p) r.writers;
      next_writer = r.next_writer + 1;
    },
  )

  unfoldable pub remote_begin : Text → Text → ℤ → Bool → C RemoteWriter
  remote_begin p job size use_base = do
    f ←
        ask
          (record empty_msg { op = "begin"; path = p; job = job; size = size; use_base = use_base })
          [] false
    new_writer p f.msg.h

  abbrev pub writer_state : RemoteWriter → Remote W → CompState
  writer_state w r = state_or (lookup w.st r.writers) 0

  abbrev pub report_write : RemoteWriter → Bool → C (Unit {0})
  report_write w done r =
      (ok tt, record r { writers = insert w.st (report (writer_state w r) done) r.writers })

  -- The block as it goes over the wire.
  unfoldable pub send_write : RemoteWriter → Text → ℤ → Option Text → C (Unit {0})
  send_write w p off none =
      ask (record empty_msg { op = "write"; h = w.h; off = off }) p false >>= λ f. pure tt
  send_write w p off (some cb) = do
    f ←
        ask (record empty_msg { op = "write"; h = w.h; off = off; raw_len = pos (length p) }) cb
          true
    pure tt

  -- `compressBlock` and its report
  abbrev pub try_compress : RemoteWriter → Text → C (Option Text)
  try_compress w p r = elim (compress_block deflate p) [
    | none ↦ (ok none, (report_write w false r).1)
    | some cb ↦ (ok (some cb), (report_write w true r).1)
  ]

  unfoldable pub remote_write_at : RemoteWriter → Text → ℤ → C (Unit {0})
  remote_write_at w p off r =
      if compress && should_try (writer_state w r)
      then (try_compress w p >>= send_write w p off) r
      else send_write w p off none r

  unfoldable pub remote_commit : RemoteWriter → Text → ℕ → ℤ → C (Unit {0})
  remote_commit w sum mode mtime = simple (record empty_msg {
    op = "commit";
    h = w.h;
    hash = hex_encode sum;
    mode = mode;
    mtime = mtime;
  })

  unfoldable pub remote_abort : RemoteWriter → Remote W → Remote W
  remote_abort w r = (ask (record empty_msg { op = "abort"; h = w.h }) [] false r).1

  -- `NewRemoteFS`
  unfoldable pub greet : C Peer
  greet = do
    f ← ask (record empty_msg { op = "hello"; ver = proto_version }) [] false
    (if eqb_ℤ f.msg.ver proto_version
        then pure (record { home = f.msg.home; host = f.msg.host; arch = f.msg.arch })
        else raise Err.other)

  unfoldable pub remote_fs : Peer → Fs (Remote W) RemoteWriter
  remote_fs peer = record {
    stat = remote_stat;
    list = remote_list;
    mkdir = λ p mode. simple (record empty_msg { op = "mkdir"; path = p; mode = mode });
    remove =
        λ p recursive. simple (record empty_msg { op = "rm"; path = p; recursive = recursive });
    rename = λ from to. simple (record empty_msg { op = "mv"; path = from; to = to });
    symlink = λ target p. simple (record empty_msg { op = "symlink"; path = p; to = target });
    set_meta = λ p mode mtime.
        simple (record empty_msg { op = "setmeta"; path = p; mode = mode; mtime = mtime });
    sigs = remote_sigs;
    read_at = remote_read_at;
    begin = remote_begin;
    write_at = remote_write_at;
    commit = remote_commit;
    abort = remote_abort;
    home = peer.home;
  }
