-- ===== src/Server/Serve.antt =====
-- `Serve` of server.go: the requests of a stream, answered one after another in the order in which they
-- come. The source answers up to 64 at once, and the responses then come in some order.
use vextra.Base.{ℕ, zero, suc, Option, none, some, List, [], ◌∷◌, length, Text, String}
use vextra.Base.Result.{Err, Result, ok, err}
use vextra.Base.Dict.{Dict}
use vextra.Entry.{Entry}
use vextra.Wire.{Msg, Frame, Sink, read_frame}
use vextra.Fs.{Fs}
use vextra.Server.{Server, handle, reply}

-- What `Serve` changes: the server, and the writer of the responses.
abbrev pub Serving : Type 0 → Type 0 → Type 0
Serving S H = Server S H × Sink

module _ {S H : Type 0} (fs : Fs S H) where
  -- The loop behind the last response: the temporary files are kept, so a transfer can go on.
  abbrev abort_all : Dict ℕ H → S → S
  abort_all [] s = s
  abort_all ((h, w) ∷ m) s = abort_all m (fs.abort w s)

  unfoldable pub close_writers : Server S H → Server S H
  close_writers s = record s { world = abort_all s.handles s.world }

-- An end of the stream between two frames is no error.
abbrev pub stream_end : Err → Result (Unit {0})
stream_end Err.eof = ok tt
stream_end e = err e

module _ (error_text : Err → String) (marshal_list : List Entry → Option Text)
    (hex_encode : Text → Text) (hex_decode : Text → Option Text) (host arch : Text)
    (marshal : Msg → Text) (unmarshal : Text → Option Msg) (inflate : Text → Text)
    (deflate : Text → Option Text) {S H : Type 0} (fs : Fs S H) where
  -- One request and its response.
  unfoldable pub serve_one : Frame → Serving S H → Serving S H
  serve_one f (s, out) =
      let (a, t) = handle error_text marshal_list hex_encode hex_decode host arch fs f s in
      (t, (reply marshal unmarshal inflate deflate f.id f.msg.z a out).sink)

  abbrev pub next_frame : Text → Result (Frame × Text)
  next_frame = read_frame marshal unmarshal inflate

  -- A round of the loop, with the rounds that follow it.
  abbrev pub serve_next :
      (Text → Serving S H → Option (Result (Unit {0}) × Serving S H))
      → Serving S H
      → Result (Frame × Text)
      → Option (Result (Unit {0}) × Serving S H)
  serve_next more st (err e) = some (stream_end e, st)
  serve_next more st (ok (f, rest)) = more rest (serve_one f st)

  -- The loop, on fuel: none, if the fuel runs out.
  unfoldable pub serve_loop : ℕ → Text → Serving S H → Option (Result (Unit {0}) × Serving S H)
  serve_loop zero input st = none
  serve_loop (suc n) input st = serve_next (serve_loop n) st (next_frame input)

  abbrev pub closed :
      Option (Result (Unit {0}) × Serving S H) → Option (Result (Unit {0}) × Serving S H)
  closed none = none
  closed (some (r, (s, out))) = some (r, (close_writers fs s, out))

  -- `Serve`
  unfoldable pub serve : Text → S → Sink → Option (Result (Unit {0}) × Serving S H)
  serve input w out =
      closed
        (serve_loop (suc (length input)) input (record { world = w; handles = []; next = 0 }, out))
