-- ===== src/Remote/Served.antt =====
-- `RemoteFS` over the agent of server.go, and the file system that the agent serves.
pub mod Files
pub mod Writers
use vextra.Base.{
  ℕ, String, ◌≡◌, refl, ap, ◌∙◌, inl, Bool, false, if◌then◌else◌, Option, none, some, List, [],
  arith, str_eq, length, Text,
}
use vextra.Base.Int.{ℤ}
use vextra.Base.Result.{Err, Result, ok, err, M, ◌>>=◌, pure, raise}
use vextra.Entry.{Entry}
use vextra.Wire.{Msg, empty_msg, Frame, frame_of, flag_z}
use vextra.Fs.{Fs}
use vextra.Server.{
  parse_digest, hash_size, Server, Answer, plain, code_for, to_answer, err_msg, dispatch, handle,
  pack, do_stat,
}
use vextra.Remote.{Remote, RemoteWriter, Peer, simple, remote_stat, remote_fs}
use vextra.Remote.Direct.{receive, got, answered, serve_frame, direct_call}
use vextra.Remote.Passed.{Passes, wire_of, arrived-write_frame, Replies, frame_for, arrived-reply}
use vextra.Server.Replies.{Readable}

pub parse_digest_lem :
    (hex_decode : Text → Option Text) (s b : Text)
    → hex_decode s ≡ some b
    → length b ≡ hash_size
    → parse_digest hex_decode s ≡ ok b
unfolding parse_digest
parse_digest_lem hex_decode s b e n = ground arith

-- The code under which an error of the served file system reaches the client.
abbrev pub seen_err : (Err → String) → Err → Err
seen_err error_text e = Err.remote (code_for e) (error_text e)

-- A result of the served file system, as the client sees it.
abbrev pub seen : {A : Type 0} → (Err → String) → Result A → Result A
seen error_text (ok a) = ok a
seen error_text (err e) = err (seen_err error_text e)

-- A client and the agent that it reaches, with the parameters of both.
pub record Link (S H : Type 0) : Type 0 where
  pub marshal : Msg → Text
  pub unmarshal : Text → Option Msg
  pub error_text : Err → String
  pub marshal_list : List Entry → Option Text
  pub unmarshal_list : Text → Option (List Entry)
  pub hex_encode : Text → Text
  pub hex_decode : Text → Option Text
  pub host : Text
  pub arch : Text
  pub deflate : Text → Option Text
  pub inflate : Text → Text
  pub compress : Bool
  pub fs : Fs S H
  pub peer : Peer

-- What is asked of a file system on names and metadata, without an answer.
pub data Update : Type 0 where
  make : Text → ℕ → Update
  take_away : Text → Bool → Update
  move : Text → Text → Update
  link_to : Text → Text → Update
  set : Text → ℕ → ℤ → Update

-- An update by the operation of a file system.
abbrev pub update : {S H : Type 0} → Fs S H → Update → M S (Unit {0})
update fs (make p mode) = fs.mkdir p mode
update fs (take_away p recursive) = fs.remove p recursive
update fs (move from to) = fs.rename from to
update fs (link_to target p) = fs.symlink target p
update fs (set p mode mtime) = fs.set_meta p mode mtime

-- The message that asks for it.
abbrev pub request : Update → Msg
request (make p mode) = record empty_msg { op = "mkdir"; path = p; mode = mode }
request (take_away p recursive) = record empty_msg { op = "rm"; path = p; recursive = recursive }
request (move from to) = record empty_msg { op = "mv"; path = from; to = to }
request (link_to target p) = record empty_msg { op = "symlink"; path = p; to = target }
request (set p mode mtime) = record empty_msg {
  op = "setmeta";
  path = p;
  mode = mode;
  mtime = mtime;
}

module _ {S H : Type 0} (l : Link S H) where
  -- A call that reaches the agent.
  abbrev pub served_call : Msg → Text → Bool → M (Server S H) Frame
  served_call =
      direct_call l.marshal l.unmarshal l.error_text l.marshal_list l.hex_encode l.hex_decode l.host
        l.arch l.deflate l.inflate l.fs

  abbrev pub client : Fs (Remote (Server S H)) RemoteWriter
  client =
      remote_fs l.deflate l.unmarshal_list l.hex_encode l.hex_decode l.compress served_call l.peer

  -- The client's state after the served file system went over to the world `w`.
  abbrev pub moved : Remote (Server S H) → S → Remote (Server S H)
  moved r w = record r { wire = record r.wire { world = w } }

  -- The outcome `y` of an operation of the served file system, as the client sees it.
  abbrev pub on_world :
      {A : Type 0} → Remote (Server S H) → Result A × S → Result A × Remote (Server S H)
  on_world r y = (seen l.error_text y.0, moved r y.1)

  -- The frame of this message passes.
  abbrev pub Sent : Msg → Text → Type 0
  Sent = Passes l.marshal l.unmarshal l.inflate

  -- The answer to a result of `dispatch`.
  abbrev pub answer_of : Result Answer → Answer
  answer_of = to_answer l.error_text l.marshal_list l.hex_encode l.hex_decode l.host l.arch l.fs

  -- The message of an answer without a value, or with an error.
  abbrev pub plain_msg : {A : Type 0} → (A → Msg) → Result A → Msg
  plain_msg m (ok a) = m a
  plain_msg m (err e) = record empty_msg { err_text = l.error_text e; code = code_for e }

  -- What the client gets of a result of `dispatch`, if the response passes.
  abbrev pub respond : Bool → Result Answer × Server S H → Result Frame × Server S H
  respond z x =
      (receive (frame_for l.marshal l.unmarshal l.inflate l.deflate z (answer_of x.0)), x.1)

  -- The request, as the agent reads it.
  abbrev pub request_frame : ℕ → Msg → Text → Text → Frame
  request_frame flags m payload p =
      frame_of 0 flags m p (wire_of l.marshal l.unmarshal l.inflate flags m payload)

  answered_lem :
      (z : Bool) (x : Result Answer × Server S H)
      → Replies l.marshal l.unmarshal l.inflate l.deflate z (answer_of x.0)
      → answered l.marshal l.unmarshal l.error_text l.marshal_list l.hex_encode l.hex_decode l.host
          l.arch l.deflate l.inflate l.fs z
          (answer_of x.0, x.1)
        ≡ respond z x
  unfolding answered
  answered_lem z x h =
      ap
        (λ y. (
          got l.marshal l.unmarshal l.error_text l.marshal_list l.hex_encode l.hex_decode l.host
              l.arch l.deflate l.inflate l.fs y,
          x.1,
        ))
        (arrived-reply l.marshal l.unmarshal l.inflate l.deflate z (answer_of x.0) h)

  -- A call whose request and response pass is the agent's dispatch.
  pub served_call_lem :
      (m : Msg) (payload p : Text) (z : Bool) (s : Server S H)
      → Sent m payload
      → Readable l.inflate (if z then flag_z else 0, (m, payload)) p
      → let x =
          dispatch l.error_text l.marshal_list l.hex_encode l.hex_decode l.host l.arch l.fs m.op m p
            s in
        Replies l.marshal l.unmarshal l.inflate l.deflate m.z (answer_of x.0)
        → served_call m payload z s ≡ respond m.z x
  unfolding direct_call handle
  served_call_lem m payload p z s h c a =
      let x =
        dispatch l.error_text l.marshal_list l.hex_encode l.hex_decode l.host l.arch l.fs m.op m p
          s in
      ap
        (λ y.
          serve_frame l.marshal l.unmarshal l.error_text l.marshal_list l.hex_encode l.hex_decode
            l.host l.arch l.deflate l.inflate l.fs y s)
        (arrived-write_frame l.marshal l.unmarshal l.inflate (if z then flag_z else 0) m payload p h
          c)
      ∙ answered_lem m.z x a

  -- A call whose outcome is `y`, and what the client does with it.
  abbrev pub after_call :
      {A B : Type 0}
      → Bool
      → (A → M (Server S H) Answer)
      → (Frame → M (Remote (Server S H)) B)
      → Result A × S
      → Remote (Server S H)
      → Result B × Remote (Server S H)
  after_call z reply next y r =
      ◌>>=◌
        (λ (q : Remote (Server S H)).
          let x =
            respond z (◌>>=◌ (λ (t : Server S H). (y.0, record t { world = y.1 })) reply r.wire) in
          (x.0, record q { wire = x.1 }))
        next r

  -- What the client does with the outcome of a call.
  abbrev pub go_on :
      {B : Type 0}
      → (Frame → M (Remote (Server S H)) B)
      → Remote (Server S H)
      → Result Frame × Server S H
      → Result B × Remote (Server S H)
  go_on next r x = ◌>>=◌ (λ (q : Remote (Server S H)). (x.0, record q { wire = x.1 })) next r

  abbrev pub plain_reply : Unit {0} → M (Server S H) Answer
  plain_reply u = pure (plain empty_msg)

  abbrev pub plain_next : Frame → M (Remote (Server S H)) (Unit {0})
  plain_next f = pure tt

  abbrev stat_reply : Entry → M (Server S H) Answer
  stat_reply e = pure (plain (record empty_msg { entry = some e }))

  abbrev stat_next : Frame → M (Remote (Server S H)) Entry
  stat_next f = elim f.msg.entry [ none ↦ raise Err.other | some e ↦ pure e ]

  -- An answer without a payload passes if its message does.
  pub Replies-plain :
      {A : Type 0} (m : A → Msg) (y : Result A × S) (s : Server S H)
      → Sent (plain_msg m y.0) []
      → Replies l.marshal l.unmarshal l.inflate l.deflate false (
          answer_of
            (◌>>=◌
              (λ (t : Server S H). (y.0, record t { world = y.1 }))
              (λ a. pure (plain (m a)))
              s).0)
  unfolding pack to_answer err_msg
  Replies-plain m (ok a, w) s h = record { passes = h; readable = inl (refl, refl) }
  Replies-plain m (err e, w) s h = record { passes = h; readable = inl (refl, refl) }

  -- The errors of the served file system are not anonymous.
  module _ (named : (e : Err) → str_eq (l.error_text e) "" ≡ false) where
    -- An error passes through, whatever the operation.
    pub after_call-err :
        {A B : Type 0} (z : Bool) (reply : A → M (Server S H) Answer)
        (next : Frame → M (Remote (Server S H)) B) (e : Err) (w : S) (r : Remote (Server S H))
        → after_call z reply next (err e, w) r ≡ (err (seen_err l.error_text e), moved r w)
    unfolding receive pack to_answer err_msg
    after_call-err z reply next e w r = rw (named e)

    pub plain_lem :
        (y : Result (Unit {0}) × S) (r : Remote (Server S H))
        → after_call false plain_reply plain_next y r ≡ on_world r y
    unfolding receive pack to_answer
    plain_lem (ok u, w) r = refl
    plain_lem (err e, w) r = after_call-err false plain_reply plain_next e w r

    stat_lem :
        (y : Result Entry × S) (r : Remote (Server S H))
        → after_call {B = Entry} false
            (λ e. pure (plain (record empty_msg { entry = some e })))
            (λ f. elim f.msg.entry [ none ↦ raise Err.other | some e ↦ pure e ])
            y
            r
          ≡ on_world r y
    unfolding receive pack to_answer
    stat_lem (ok e, w) r = refl
    stat_lem (err e, w) r = after_call-err false stat_reply stat_next e w r

    -- A call whose answer is without a value, and which leaves `t` but for the world.
    pub plain_call :
        (m : Msg) (payload p : Text) (z : Bool) (y : Result (Unit {0}) × S) (t : Server S H)
        (r : Remote (Server S H))
        → Sent m payload
        → Readable l.inflate (if z then flag_z else 0, (m, payload)) p
        → Sent (plain_msg (λ u. empty_msg) y.0) []
        → m.z ≡ false
        → dispatch l.error_text l.marshal_list l.hex_encode l.hex_decode l.host l.arch l.fs m.op m p
            r.wire
          ≡ ◌>>=◌ (λ (t : Server S H). (y.0, record t { world = y.1 })) plain_reply t
        → go_on plain_next r (served_call m payload z r.wire) ≡ on_world (record r { wire = t }) y
    plain_call m payload p z y t r h c a e d =
        ap (go_on plain_next r) (
          served_call_lem m payload p z r.wire h c
            (rw (d, e) (Replies-plain (λ u. empty_msg) y t a))
          ∙ rw (d, e) refl)
        ∙ plain_lem y (record r { wire = t })

    -- A call without a payload that leaves all but the world.
    simple_call :
        (m : Msg) (y : Result (Unit {0}) × S) (r : Remote (Server S H))
        → Sent m []
        → Sent (plain_msg (λ u. empty_msg) y.0) []
        → m.z ≡ false
        → dispatch l.error_text l.marshal_list l.hex_encode l.hex_decode l.host l.arch l.fs m.op m
            [] r.wire
          ≡ ◌>>=◌ (λ (t : Server S H). (y.0, record t { world = y.1 })) plain_reply r.wire
        → go_on plain_next r (served_call m [] false r.wire) ≡ on_world r y
    simple_call m y r h a = plain_call m [] [] false y r.wire r h (inl (refl, refl)) a

    -- If the request and the response pass through JSON and the frames, an update that is asked of the
    -- client does to the served file system what the operation does there, and returns its result, an
    -- error under its code and with its text.
    pub remote_fs-metadata :
        (u : Update) (r : Remote (Server S H))
        → Sent (request u) []
        → Sent (plain_msg (λ u. empty_msg) (update l.fs u r.wire.world).0) []
        → update client u r ≡ on_world r (update l.fs u r.wire.world)
    unfolding remote_fs simple dispatch
    remote_fs-metadata (make p mode) r h a =
        simple_call (request (make p mode)) (l.fs.mkdir p mode r.wire.world) r h a refl refl
    remote_fs-metadata (take_away p b) r h a =
        simple_call (request (take_away p b)) (l.fs.remove p b r.wire.world) r h a refl refl
    remote_fs-metadata (move p q) r h a =
        simple_call (request (move p q)) (l.fs.rename p q r.wire.world) r h a refl refl
    remote_fs-metadata (link_to q p) r h a =
        simple_call (request (link_to q p)) (l.fs.symlink q p r.wire.world) r h a refl refl
    remote_fs-metadata (set p mode mtime) r h a =
        simple_call (request (set p mode mtime)) (l.fs.set_meta p mode mtime r.wire.world) r h a
          refl refl

    -- If the request and the response pass through JSON and the frames, `Stat` of the client returns
    -- the entry that the served file system returns for the path, or its error under its code and
    -- with its text.
    pub remote_fs-stat :
        (p : Text) (follow : Bool) (r : Remote (Server S H))
        → Sent (record empty_msg { op = "stat"; path = p; follow = follow }) []
        → Sent
            (plain_msg
              (λ e. record empty_msg { entry = some e })
              (l.fs.stat p follow r.wire.world).0)
            []
        → client.stat p follow r ≡ on_world r (l.fs.stat p follow r.wire.world)
    unfolding remote_fs remote_stat dispatch do_stat
    remote_fs-stat p follow r h a =
        let m = record empty_msg { op = "stat"; path = p; follow = follow } in
        let y = l.fs.stat p follow r.wire.world in
        ap (go_on stat_next r) (
          served_call_lem m [] [] false r.wire h (inl (refl, refl))
            (Replies-plain (λ e. record empty_msg { entry = some e }) y r.wire a))
        ∙ stat_lem y r
