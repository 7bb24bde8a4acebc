-- ===== src/Remote/Direct.antt =====
-- `Conn.Call` of proto.go over an agent that handles each request at once: the request and the
-- response are written and read as frames. A frame that cannot be written or read ends the connection,
-- or leaves the call without a response until the connection ends.
use vextra.Base.{String, Bool, Option, none, List, [], str_eq, if◌then◌else◌, Text}
use vextra.Base.Result.{Err, Result, ok, err, M}
use vextra.Entry.{Entry}
use vextra.Wire.{Msg, Frame, Sink, Written, write_frame, read_frame, flag_z}
use vextra.Fs.{Fs}
use vextra.Server.{Server, Answer, handle, reply}

-- An empty buffer.
abbrev pub fresh : Sink
fresh = record { out = []; room = none }

-- The end of `Call`.
unfoldable pub receive : Frame → Result Frame
receive f = if str_eq f.msg.err_text "" then ok f else err (Err.remote f.msg.code f.msg.err_text)

-- What `readFrame` makes of the bytes that the other side wrote; an error ends the connection.
unfoldable pub arrived : (Msg → Text) → (Text → Option Msg) → (Text → Text) → Written → Result Frame
arrived marshal unmarshal inflate w =
    if w.done
    then elim (read_frame marshal unmarshal inflate w.sink.out) [
      | ok x ↦ ok (x.0)
      | err e ↦ err Err.conn
    ]
    else err Err.conn

module _ (marshal : Msg → Text) (unmarshal : Text → Option Msg) (error_text : Err → String)
    (marshal_list : List Entry → Option Text) (hex_encode : Text → Text)
    (hex_decode : Text → Option Text) (host arch : Text) (deflate : Text → Option Text)
    (inflate : Text → Text) {S H : Type 0} (fs : Fs S H) where
  -- `Call` behind the read of the response.
  abbrev pub got : Result Frame → Result Frame
  got (err e) = err Err.conn
  got (ok f) = receive f

  -- The response, as the client gets it.
  unfoldable pub answered : Bool → Answer × Server S H → Result Frame × Server S H
  answered z (a, s) = (
    got (arrived marshal unmarshal inflate (reply marshal unmarshal inflate deflate 0 z a fresh)),
    s,
  )

  -- The agent behind the read of the request.
  abbrev pub serve_frame : Result Frame → M (Server S H) Frame
  serve_frame (err e) s = (err Err.conn, s)
  serve_frame (ok f) s =
      answered f.msg.z (handle error_text marshal_list hex_encode hex_decode host arch fs f s)

  unfoldable pub direct_call : Msg → Text → Bool → M (Server S H) Frame
  direct_call m payload z = serve_frame (
      arrived marshal unmarshal inflate
        (write_frame marshal unmarshal inflate 0 (if z then flag_z else 0) m payload fresh))
