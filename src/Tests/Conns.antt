-- ===== src/Tests/Conns.antt =====
-- A connection at concrete data: one call, its request, its response, and a failure.
use vextra.Base.{ℕ, ◌+◌, ◌%◌, ◌^◌, ◌≡◌, ◌≢◌, ◌⊎◌, true, none, some, [], arith}
use vextra.Base.Result.{ok}
use vextra.Base.Dict.{nat_key, lookup}
use vextra.Wire.{empty_msg, Frame, frame_of, Written}
use vextra.Conn.{
  open_with, frame, Conn, new_conn, fail, open_call, after_send, read_round, end_call, opens, sends,
  reads, closes, Reach, begins, next_step,
}
use vextra.Conn.Settled.{Reach-matched}
use vextra.Conn.Kept.{Reach-end_call}

abbrev response : Frame
response = frame_of 1 0 empty_msg [] 30

abbrev whole : Written
whole = record { count = 25; done = true; sink = record { out = []; room = none } }

abbrev opened : Conn
opened = (open_call new_conn).1

abbrev sent : Conn
sent = after_send ((0 + 1) % 2 ^ 32) 0 whole opened

abbrev got_it : Conn
got_it = read_round (ok response) sent

abbrev broken : Conn
broken = fail got_it

sent-Reach : Reach sent
unfolding open_with
sent-Reach = next_step (next_step begins (opens new_conn)) (sends opened 0 whole (omega arith))

broken-Reach : Reach broken
broken-Reach = next_step (next_step sent-Reach (reads sent (ok response))) (closes got_it)

Reach-matched_example :
    ((ch : ℕ) (f : Frame) → lookup ch broken.chans ≡ some (frame f) → f.id ≡ (ch + 1) % 2 ^ 32)
    × (broken.err ≢ none → broken.pending ≡ [])
Reach-matched_example = Reach-matched broken-Reach

Reach-end_call_example :
    ((end_call 0 broken ≢ none) ⊎ (lookup (0 + 1) broken.pending ≡ some 0))
    × (broken.err ≢ none → end_call 0 broken ≢ none)
unfolding open_with after_send read_round fail
Reach-end_call_example = Reach-end_call broken-Reach (omega arith) 0 (omega arith)
