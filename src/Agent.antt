-- ===== src/Agent.antt =====
-- `cmdAgent` of main.go: the program at the other side, over the operating system there. It writes its
-- sign and serves the requests of its input.
use vextra.Base.{Option, none, some, List, [], ◌∷◌, if◌then◌else◌, Text, String, codes, text_eq}
use vextra.Base.Result.{Err, Result, ok, err}
use vextra.Entry.{Entry}
use vextra.Wire.{Msg, Sink, sink_write}
use vextra.Transport.{agent_magic}
use vextra.Os.{Os}
use vextra.Local.{new_local_fs}
use vextra.Local.Files.{local_fs}
use vextra.Flags.{XferFlags, Flag, Parse, string_var, parse_flags, flag_result}
use vextra.Server.Serve.{serve}

-- The local variable for --root stands in the flag for the same thing at this side.
abbrev root_flag : List Flag
root_flag = (codes "root", string_var λ s x. record x { remote_root = s }) ∷ []

-- The base of relative paths: the root, or the home of the user, or nothing.
unfoldable pub base_of : Text → Result Text → Text
base_of root (err e) = root
base_of root (ok home) = if text_eq root [] then home else root

module _ (error_text : Err → String) (marshal_list : List Entry → Option Text)
    (hex_encode : Text → Text) (hex_decode : Text → Option Text) (host arch : Text)
    (marshal : Msg → Text) (unmarshal : Text → Option Msg) (inflate : Text → Text)
    (deflate : Text → Option Text) (parse : Parse) (hash : Text → Text) {S D : Type 0}
    (os : Os S D) where
  -- The result, the world and what was written; none would be a loop of requests without an end.
  unfoldable pub serve_root : Text → Text → S → Sink → Option (Result (Unit {0}) × (S × Sink))
  serve_root root input w out =
      let (l, w') = new_local_fs os root (base_of root os.user_home_dir) w in
      let sign = sink_write agent_magic out in
      let served =
        serve error_text marshal_list hex_encode hex_decode host arch marshal unmarshal inflate
          deflate (local_fs hash os l) input w' sign.sink in
      if sign.done
      then elim served [ none ↦ none | some (r, (s, out')) ↦ some (r, (s.world, out')) ]
      else some (err Err.other, (w', sign.sink))

  abbrev root_of : Result (XferFlags × List Text) → Result Text
  root_of r = elim r [ ok (x, found) ↦ ok x.remote_root | err e ↦ err e ]

  -- `cmdAgent`
  unfoldable pub cmd_agent : List Text → Text → S → Sink → Option (Result (Unit {0}) × (S × Sink))
  cmd_agent args input w out = elim (flag_result (root_of (parse_flags parse root_flag args))) [
    | err e ↦ some (err e, (w, out))
    | ok root ↦ serve_root root input w out
  ]
