-- ===== src/Server.antt =====
-- server.go: a request of the protocol becomes a call of the served file system, with the table of the
-- open writers; with `codeFor` of proto.go and `parseDigest` of hash.go. Requests are handled one after
-- another. The error texts, the JSON of a listing and the hexadecimal digits are parameters.
pub mod Handles
pub mod Replies
pub mod Serve
pub mod Answered
use vextra.Base.{
  ℕ, ◌+◌, ◌*◌, ◌%◌, ◌^◌, String, Bool, true, false, ◌&&◌, ◌||◌, Option, none, some, List, [], ◌∷◌,
  ◌++◌, str_eq, ◌==◌, if◌then◌else◌, length, Text,
}
use vextra.Base.Int.{ℤ, pos, ltb_ℤ, eqb_ℤ}
use vextra.Base.Result.{Err, Result, ok, err, M, ◌>>=◌, ◌>>◌, pure, raise, attempt}
use vextra.Base.Dict.{Dict, nat_key, lookup, insert, erase}
use vextra.Entry.{Entry}
use vextra.Codec.{compress_block}
use vextra.Wire.{Msg, empty_msg, Frame, Sink, Written, write_frame, flag_resp, flag_z}
use vextra.Fs.{Fs}

abbrev pub proto_version : ℤ
proto_version = pos 1

-- `HashSize`
abbrev pub hash_size : ℕ
hash_size = 32

-- The served file system, `handles` and `next`.
pub record Server (S H : Type 0) : Type 0 where
  pub world : S
  pub handles : Dict ℕ H
  pub next : ℕ

-- A response, its payload, and whether the payload may be compressed.
abbrev pub Answer : Type 0
Answer = Msg × (Text × Bool)

abbrev pub plain : Msg → Answer
plain m = (m, ([], false))

-- A call of the served file system.
abbrev pub call : {S H A : Type 0} → M S A → M (Server S H) A
call m s = let (x, w) = m s.world in (x, record s { world = w })

unfoldable pub code_for : Err → String
code_for Err.not_exist = "ENOENT"
code_for Err.verify = "EVERIFY"
code_for Err.outside_root = "EROOT"
code_for (Err.remote c t) =
    if str_eq c "ENOENT" || str_eq c "EVERIFY" || str_eq c "EROOT" then c else "EIO"
code_for _ = "EIO"

abbrev pub found : {H : Type 0} → Option H → Result H
found x = elim x [ none ↦ err Err.other | some w ↦ ok w ]

-- `takeHandle`
unfoldable pub take_handle : {S H : Type 0} → ℕ → M (Server S H) H
take_handle h s = (found (lookup h s.handles), s)

-- `dropHandle`
unfoldable pub drop_handle : {S H : Type 0} → ℕ → M (Server S H) (Unit {0})
drop_handle h s = (ok tt, record s { handles = erase h s.handles })

-- The new handle of a writer; `next` is a uint32.
unfoldable pub new_handle : {S H : Type 0} → H → M (Server S H) ℕ
new_handle w s =
    let id = (s.next + 1) % 2 ^ 32 in
    (ok id, record s { next = id; handles = insert id w s.handles })

unfoldable pub parse_digest : (Text → Option Text) → Text → Result Text
parse_digest hex_decode s = elim (hex_decode s) [
  | none ↦ err Err.other
  | some b ↦ if length b == hash_size then ok b else err Err.other
]

unfoldable pub concat : List Text → Text
concat [] = []
concat (b ∷ bs) = b ++ concat bs

module _ (error_text : Err → String) (marshal_list : List Entry → Option Text)
    (hex_encode : Text → Text) (hex_decode : Text → Option Text) (host arch : Text) {S H : Type 0}
    (fs : Fs S H) where
  -- `errMsg`
  unfoldable pub err_msg : Err → Msg
  err_msg e = record empty_msg { err_text = error_text e; code = code_for e }

  -- An operation that answers nothing.
  abbrev done_after : M S (Unit {0}) → M (Server S H) Answer
  done_after m = call m >>= λ _. pure (plain empty_msg)

  unfoldable pub hello : Msg → M (Server S H) Answer
  hello m =
      if eqb_ℤ m.ver proto_version
      then pure (
          plain
            (record empty_msg { ver = proto_version; home = fs.home; host = host; arch = arch }))
      else raise Err.other

  unfoldable pub do_stat : Msg → M (Server S H) Answer
  do_stat m = do
    e ← call (fs.stat m.path m.follow)
    pure (plain (record empty_msg { entry = some e }))

  unfoldable pub do_list : Msg → M (Server S H) Answer
  do_list m = do
    ents ← call (fs.list m.path m.recursive)
    elim (marshal_list ents) [ none ↦ raise Err.other | some b ↦ pure (empty_msg, (b, true)) ]

  unfoldable pub do_sigs : Msg → M (Server S H) Answer
  do_sigs m = do
    sg ← call (fs.sigs m.path m.job m.bs)
    let reply = record empty_msg {
      exists = sg.exists;
      kind = sg.kind;
      size = sg.size;
      bs = sg.bs;
      hash = hex_encode sg.hash;
    }
    pure (reply, (concat sg.blocks, false))

  unfoldable pub do_read : Msg → M (Server S H) Answer
  do_read m =
      if ltb_ℤ m.len (pos 0) || ltb_ℤ (pos (64 * 2 ^ 20)) m.len
      then raise Err.other
      else call (fs.read_at m.path m.off m.len) >>= λ d. pure (empty_msg, (d, true))

  unfoldable pub do_begin : Msg → M (Server S H) Answer
  do_begin m = do
    w ← call (fs.begin m.path m.job m.size m.use_base)
    id ← new_handle w
    pure (plain (record empty_msg { h = id }))

  unfoldable pub do_write : Msg → Text → M (Server S H) Answer
  do_write m payload = do w ← take_handle m.h; done_after (fs.write_at w payload m.off)

  abbrev abort_writer : H → M (Server S H) (Unit {0})
  abort_writer w = call (λ s. (ok tt, fs.abort w s))

  -- `Commit`, or `Abort` without a digest.
  unfoldable pub commit_or_abort : Msg → H → Result Text → M (Server S H) Answer
  commit_or_abort m w (ok sum) = done_after (fs.commit w sum m.mode m.mtime)
  commit_or_abort m w (err e) = abort_writer w >>= λ _. raise e

  unfoldable pub do_commit : Msg → M (Server S H) Answer
  do_commit m = do
    w ← take_handle m.h
    drop_handle m.h
    commit_or_abort m w (parse_digest hex_decode m.hash)

  unfoldable pub do_abort : Msg → M (Server S H) Answer
  do_abort m = do
    r ← attempt (take_handle m.h)
    elim r [
      | ok w ↦ (drop_handle m.h >>= λ _. abort_writer w >>= λ _. pure (plain empty_msg))
      | err e ↦ pure (plain empty_msg)
    ]

  -- The `switch` of `handle`.
  unfoldable pub dispatch : String → Msg → Text → M (Server S H) Answer
  dispatch op m payload =
      if str_eq op "hello"
      then hello m
      else if str_eq op "stat"
      then do_stat m
      else if str_eq op "list"
      then do_list m
      else if str_eq op "mkdir"
      then done_after (fs.mkdir m.path m.mode)
      else if str_eq op "rm"
      then done_after (fs.remove m.path m.recursive)
      else if str_eq op "mv"
      then done_after (fs.rename m.path m.to)
      else if str_eq op "symlink"
      then done_after (fs.symlink m.to m.path)
      else if str_eq op "setmeta"
      then done_after (fs.set_meta m.path m.mode m.mtime)
      else if str_eq op "sigs"
      then do_sigs m
      else if str_eq op "read"
      then do_read m
      else if str_eq op "begin"
      then do_begin m
      else if str_eq op "write"
      then do_write m payload
      else if str_eq op "commit"
      then do_commit m
      else if str_eq op "abort"
      then do_abort m
      else raise Err.other

  -- An error becomes a response.
  unfoldable pub to_answer : Result Answer → Answer
  to_answer (ok a) = a
  to_answer (err e) = plain (err_msg e)

  unfoldable pub handle : Frame → Server S H → Answer × Server S H
  handle f s = let (r, t) = dispatch f.msg.op f.msg f.payload s in (to_answer r, t)

-- The flags, the message and the payload of a response.
unfoldable pub pack : (Text → Option Text) → Bool → Answer → ℕ × (Msg × Text)
pack deflate client_z (m, (payload, allow_z)) =
    if allow_z && client_z
    then elim (compress_block deflate payload) [
      | none ↦ (flag_resp, (m, payload))
      | some cb ↦ (flag_resp + flag_z, (record m { raw_len = pos (length payload) }, cb))
    ]
    else (flag_resp, (m, payload))

unfoldable pub reply :
    (Msg → Text)
    → (Text → Option Msg)
    → (Text → Text)
    → (Text → Option Text)
    → ℕ
    → Bool
    → Answer
    → Sink
    → Written
reply marshal unmarshal inflate deflate id client_z a s =
    let (flags, (m, payload)) = pack deflate client_z a in
    write_frame marshal unmarshal inflate id flags m payload s
