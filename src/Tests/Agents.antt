-- ===== src/Tests/Agents.antt =====
-- Requests of the agent at concrete data.
use vextra.Base.{
  ℕ, ◌+◌, String, ◌≡◌, refl, inl, none, some, [], ◌∷◌, arith, ◌==◌, if◌then◌else◌, codes,
}
use vextra.Base.Result.{Err, ok, pure, raise}
use vextra.Base.Dict.{nat_key, lookup}
use vextra.Delta.{no_sigs}
use vextra.Fs.{Fs}
use vextra.Wire.{empty_msg, Frame, frame_of}
use vextra.Server.{Server, Answer, handle}
use vextra.Server.Handles.{Known, handle-begin, handle-closes}

-- A file system that only opens writers: the next one is the number of those opened.
abbrev writers : Fs ℕ ℕ
writers = record {
  stat = λ p follow. raise Err.not_exist;
  list = λ p recursive. pure [];
  mkdir = λ p mode. raise Err.other;
  remove = λ p recursive. raise Err.other;
  rename = λ from to. raise Err.other;
  symlink = λ target p. raise Err.other;
  set_meta = λ p mode mtime. raise Err.other;
  sigs = λ p job bs. pure no_sigs;
  read_at = λ p off n. raise Err.not_exist;
  begin = λ p job size use_base opened. (ok opened, opened + 1);
  write_at = λ h p off. pure tt;
  commit = λ h sum mode mtime. raise Err.verify;
  abort = λ h opened. opened;
  home = [];
}

-- One writer is open, under the handle 1.
abbrev serving : Server ℕ ℕ
serving = record { world = 41; handles = (1, 40) ∷ []; next = 1 }

serving-Known : Known serving
unfolding lookup
serving-Known j h = ground arith

abbrev asked : String → Frame
asked op = frame_of 9 0 (record empty_msg { op = op; path = codes "f"; h = 1 }) [] 30

abbrev agent : Frame → Server ℕ ℕ → Answer × Server ℕ ℕ
agent = handle (λ e. "error") (λ es. none) (λ t. t) (λ t. none) (codes "h") (codes "linux") writers

handle-begin_example :
    (lookup (agent (asked "begin") serving).0.0.h serving.handles ≡ none)
    × ((j : ℕ)
        → lookup j (agent (asked "begin") serving).1.handles ≡ (
            if (agent (asked "begin") serving).0.0.h == j
            then some 41
            else lookup j serving.handles))
    × Known (agent (asked "begin") serving).1
handle-begin_example =
    handle-begin (λ e. "error") (λ es. none) (λ t. t) (λ t. none) (codes "h") (codes "linux")
      writers (asked "begin") serving 41 42 refl refl serving-Known (omega arith)

-- The digest of the request is none, so the writer is aborted.
handle-closes_example :
    lookup 1 (agent (asked "commit") serving).1.handles
    ≡ (if 1 == 1 then none else lookup 1 serving.handles)
handle-closes_example =
    handle-closes (λ e. "error") (λ es. none) (λ t. t) (λ t. none) (codes "h") (codes "linux")
      writers (asked "commit") serving 1 (inl refl)
