-- ===== src/Tests/Remotes.antt =====
-- The remote file system over an agent that serves a small file system of one file, `abc`.
use vextra.Base.{
  ℕ, ◌≡◌, refl, true, none, some, [], ◌∷◌, ◌++◌, arith, take, replicate, Text, codes, text_eq,
  if◌then◌else◌,
}
use vextra.Base.Int.{pos, pos_part}
use vextra.Base.Result.{Err, ok, err, pure, raise}
use vextra.Base.Dict.{nat_key, lookup, erase}
use vextra.Delta.{no_sigs}
use vextra.Fs.{Fs}
use vextra.Server.{Server, code_for, pack, concat}
use vextra.Remote.{Remote, RemoteWriter}
use vextra.Wire.{Msg, empty_msg}
use vextra.Codec.{should_try, compress_block, new_comp_state, worth_compressing, ext}
use vextra.Remote.Served.{
  Link, Update, make, request, update, Sent, seen, client, on_world, remote_fs-metadata,
  remote_fs-stat,
}
use vextra.Remote.Served.Files.{
  absent, wants_z, read_msg, ReadPasses, remote_fs-read_at, remote_fs-sigs,
}
use vextra.Remote.Served.Writers.{Wrote, WritePasses, remote_fs-write_at, remote_fs-commit}

-- The world is the content of the file; a writer is the place where its content goes.
abbrev served : Fs Text ℕ
served = record {
  stat = λ p follow. raise Err.not_exist;
  list = λ p recursive. pure [];
  mkdir = λ p mode. raise Err.outside_root;
  remove = λ p recursive content. (ok tt, []);
  rename = λ from to. raise Err.not_exist;
  symlink = λ target p. raise Err.other;
  set_meta = λ p mode mtime. pure tt;
  sigs = λ p job bs. pure no_sigs;
  read_at = λ p off n content. (ok (take (pos_part n) content), content);
  begin = λ p job size use_base content. (ok 7, content);
  write_at = λ h d off content. (ok tt, content ++ d);
  commit = λ h sum mode mtime. raise Err.verify;
  abort = λ h content. content;
  home = [];
}

abbrev digest : Text
digest = replicate 32 5

-- The link over which these two messages pass: the operation of a request is its JSON, and that of a
-- response is empty.
abbrev link : Msg → Msg → Link Text ℕ
link asked answer = record {
  marshal = λ m. codes m.op;
  unmarshal = λ t. some (if text_eq t [] then answer else asked);
  error_text = λ e. "error";
  marshal_list = λ es. none;
  unmarshal_list = λ t. none;
  hex_encode = λ t. t;
  hex_decode = λ t. some t;
  host = codes "h";
  arch = codes "linux";
  deflate = λ t. some t;
  inflate = λ t. t;
  compress = true;
  fs = served;
  peer = record { home = []; host = []; arch = [] };
}

-- The handle 1 stands for the writer 7.
abbrev session : Remote (Server Text ℕ)
session = record {
  wire = record { world = codes "abc"; handles = (1, 7) ∷ []; next = 1 };
  comp = [];
  writers = (0, 1) ∷ [];
  next_writer = 1;
}

abbrev handle_1 : RemoteWriter
handle_1 = record { h = 1; st = 0 }

abbrev make_f : Update
make_f = make (codes "f") 420

-- An error, as it is sent.
abbrev failure : Err → Msg
failure e = record empty_msg { err_text = "error"; code = code_for e }

abbrev refused : Msg
refused = failure Err.outside_root

abbrev missing : Msg
missing = failure Err.not_exist

abbrev unverified : Msg
unverified = failure Err.verify

made : Sent (link (request make_f) refused) (request make_f) []
unfolding text_eq
made = record { json = refl; fits = omega arith }

make_refused : Sent (link (request make_f) refused) refused []
unfolding text_eq
make_refused = record { json = refl; fits = omega arith }

remote_fs-metadata_example :
    update (client (link (request make_f) refused)) make_f session
    ≡ on_world (link (request make_f) refused) session (served.mkdir (codes "f") 420 (codes "abc"))
remote_fs-metadata_example =
    remote_fs-metadata (link (request make_f) refused) (λ e. refl) make_f session made make_refused

abbrev ask_stat : Msg
ask_stat = record empty_msg { op = "stat"; path = codes "f"; follow = true }

stat_sent : Sent (link ask_stat missing) ask_stat []
unfolding text_eq
stat_sent = record { json = refl; fits = omega arith }

stat_missing : Sent (link ask_stat missing) missing []
unfolding text_eq
stat_missing = record { json = refl; fits = omega arith }

remote_fs-stat_example :
    (client (link ask_stat missing)).stat (codes "f") true session
    ≡ on_world (link ask_stat missing) session (served.stat (codes "f") true (codes "abc"))
remote_fs-stat_example =
    remote_fs-stat (link ask_stat missing) (λ e. refl) (codes "f") true session stat_sent
      stat_missing

-- The answer has its length, where it is compressed.
abbrev ask_read : Msg
ask_read = record empty_msg { op = "read"; path = codes "f"; len = pos 2; z = true }

abbrev read_link : Link Text ℕ
read_link = link ask_read empty_msg

inverse : (xs ys : Text) → some xs ≡ some ys → ys ≡ xs
inverse xs ys e = cc e

read_sent :
    Sent read_link
      (read_msg read_link (codes "f") (pos 0) (pos 2) (wants_z read_link (codes "f") session))
      []
unfolding text_eq should_try lookup new_comp_state worth_compressing ext
read_sent = record { json = refl; fits = omega arith }

read_passes : ReadPasses read_link (wants_z read_link (codes "f") session) (ok (codes "ab"))
unfolding text_eq should_try lookup pack compress_block new_comp_state worth_compressing ext
read_passes = record {
  sent = record { json = refl; fits = omega arith };
  bounded = λ d e. let q : codes "ab" ≡ d = cc e in rw⁻¹ q (omega arith);
}

remote_fs-read_at_example :
    (((client read_link).read_at (codes "f") (pos 0) (pos 2) session).0
      ≡ seen read_link.error_text (ok (codes "ab")))
    × (((client read_link).read_at (codes "f") (pos 0) (pos 2) session).1.wire ≡ session.wire)
remote_fs-read_at_example =
    remote_fs-read_at read_link (λ e. refl) (codes "f") (pos 0) 2 session (omega arith) inverse
      read_sent read_passes

abbrev ask_sigs : Msg
ask_sigs = record empty_msg { op = "sigs"; path = codes "f"; bs = pos 4 }

sigs_sent : Sent (link ask_sigs empty_msg) ask_sigs []
unfolding text_eq
sigs_sent = record { json = refl; fits = omega arith }

no_sigs_sent : Sent (link ask_sigs empty_msg) empty_msg []
unfolding text_eq
no_sigs_sent = record { json = refl; fits = omega arith }

remote_fs-sigs_example :
    (client (link ask_sigs empty_msg)).sigs (codes "f") [] (pos 4) session
    ≡ on_world (link ask_sigs empty_msg) session (ok no_sigs, codes "abc")
unfolding concat
remote_fs-sigs_example =
    remote_fs-sigs (link ask_sigs empty_msg) (λ e. refl) (codes "f") [] (pos 4) session
      (λ d n. refl) (λ sg e. absent (cc e) (cc e) (cc e)) sigs_sent no_sigs_sent

abbrev ask_write : Msg
ask_write = record empty_msg { op = "write"; h = 1; off = pos 3 }

abbrev write_link : Link Text ℕ
write_link = link ask_write empty_msg

standing : lookup 1 session.wire.handles ≡ some 7
unfolding lookup
standing = refl

-- Two bytes are not worth a compression.
write_passes : WritePasses write_link (λ e. refl) handle_1 (pos 3) (codes "de")
unfolding text_eq compress_block
write_passes = record {
  whole = record { json = refl; fits = omega arith };
  compressed = λ cb e. cc e;
}

written : Sent write_link empty_msg []
unfolding text_eq
written = record { json = refl; fits = omega arith }

remote_fs-write_at_example :
    Wrote write_link
      (λ e. refl)
      ((client write_link).write_at handle_1 (codes "de") (pos 3) session)
      (ok tt, codes "abcde")
      session
remote_fs-write_at_example =
    remote_fs-write_at write_link (λ e. refl) handle_1 (codes "de") (pos 3) 7 session inverse
      write_passes written standing

abbrev ask_commit : Msg
ask_commit = record empty_msg { op = "commit"; h = 1; hash = digest; mode = 420; mtime = pos 9 }

abbrev commit_link : Link Text ℕ
commit_link = link ask_commit unverified

commit_sent : Sent commit_link ask_commit []
unfolding text_eq
commit_sent = record { json = refl; fits = omega arith }

commit_refused : Sent commit_link unverified []
unfolding text_eq
commit_refused = record { json = refl; fits = omega arith }

remote_fs-commit_example :
    (client commit_link).commit handle_1 digest 420 (pos 9) session
    ≡ on_world commit_link
        (record session { wire = record session.wire { handles = erase 1 session.wire.handles } })
        (err Err.verify, codes "abc")
remote_fs-commit_example =
    remote_fs-commit commit_link (λ e. refl) handle_1 digest 420 (pos 9) 7 session refl refl
      standing commit_sent commit_refused
