-- ===== src/Conn.antt =====
-- `Conn` of proto.go: concurrent calls over one pair of streams. Each step that holds the lock is a
-- function; the goroutines are a step relation over them. A call has a channel, numbered in the order
-- of the calls, with a buffer of one.
pub mod Settled
pub mod Kept
use vextra.Base.{ℕ, ◌+◌, ◌%◌, ◌^◌, ◌<◌, Option, none, some, [], ◌∷◌, str_eq, if◌then◌else◌}
use vextra.Base.Result.{Err, Result, ok, err}
use vextra.Base.Dict.{Dict, nat_key, lookup, insert, erase}
use vextra.Wire.{Frame, Written}

-- What a call finds in its channel: a response, or nothing as the channel was closed. `unsent` stands
-- for a call that returns since its request could not be sent.
pub data CallOutcome : Type 0 where
  frame : Frame → CallOutcome
  closed unsent : CallOutcome

pub record Conn : Type 0 where
  pub pending : Dict ℕ ℕ
  pub next : ℕ
  pub err : Option Err
  -- the channels that were made, and what came of those that nobody waits for any more
  pub made : ℕ
  pub chans : Dict ℕ CallOutcome
  pub bytes_in : ℕ
  pub bytes_out : ℕ

-- `NewConn`
abbrev pub new_conn : Conn
new_conn = record {
  pending = [];
  next = 0;
  err = none;
  made = 0;
  chans = [];
  bytes_in = 0;
  bytes_out = 0;
}

-- `close(ch)` for each channel of a map
unfoldable pub close_all : Dict ℕ ℕ → Dict ℕ CallOutcome → Dict ℕ CallOutcome
close_all [] chans = chans
close_all ((id, ch) ∷ pend) chans = insert ch closed (close_all pend chans)

-- Every cause of a failure is wrapped as an `ErrConn`.
unfoldable pub fail : Conn → Conn
fail c = record c {
  err = elim c.err [ none ↦ some Err.conn | some e ↦ some e ];
  pending = [];
  chans = close_all c.pending c.chans;
}

-- `connErr`
unfoldable pub conn_err : Conn → Err
conn_err c = elim c.err [ none ↦ Err.conn | some e ↦ e ]

-- The first part of `Call`: the id and the channel of a new call.
unfoldable pub open_with : Option Err → Conn → Result (ℕ × ℕ) × Conn
open_with (some e) c = (err e, c)
open_with none c = (
  ok ((c.next + 1) % 2 ^ 32, c.made),
  record c {
    next = (c.next + 1) % 2 ^ 32;
    made = c.made + 1;
    pending = insert ((c.next + 1) % 2 ^ 32) c.made c.pending;
  },
)

abbrev pub open_call : Conn → Result (ℕ × ℕ) × Conn
open_call c = open_with c.err c

-- What `Call` does after `writeFrame`, and `send` with it.
unfoldable pub after_send : ℕ → ℕ → Written → Conn → Conn
after_send id ch w c =
    let sent = record c { bytes_out = c.bytes_out + w.count } in
    if w.done
    then sent
    else fail (record sent { pending = erase id c.pending; chans = insert ch unsent c.chans })

-- The response goes to the channel that waits for its id, if there is one.
unfoldable pub deliver : Frame → Option ℕ → Dict ℕ CallOutcome → Dict ℕ CallOutcome
deliver f none chans = chans
deliver f (some ch) chans = insert ch (frame f) chans

-- One round of `readLoop`.
unfoldable pub read_round : Result Frame → Conn → Conn
read_round (err e) c = fail c
read_round (ok f) c = record c {
  bytes_in = c.bytes_in + f.wire;
  pending = erase f.id c.pending;
  chans = deliver f (lookup f.id c.pending) c.chans;
}

-- The end of `Call`: none, while the call waits.
unfoldable pub end_call : ℕ → Conn → Option (Result Frame)
end_call ch c = elim (lookup ch c.chans) [
  | none ↦ none
  | some closed ↦ some (err (conn_err c))
  | some unsent ↦ some (err (conn_err c))
  | some (frame f) ↦
      some (if str_eq f.msg.err_text "" then ok f else err (Err.remote f.msg.code f.msg.err_text))
]

-- What the goroutines may do, one step at a time.
pub data Step : Conn → Conn → Type 0 where
  opens : (c : Conn) → Step c (open_call c).1
  sends :
      (c : Conn) (ch : ℕ) (w : Written)
      → ch < c.made
      → Step c (after_send ((ch + 1) % 2 ^ 32) ch w c)
  reads : (c : Conn) (r : Result Frame) → Step c (read_round r c)
  closes : (c : Conn) → Step c (fail c)

pub data Reach : Conn → Type 0 where
  begins : Reach new_conn
  next_step : {c d : Conn} → Reach c → Step c d → Reach d
