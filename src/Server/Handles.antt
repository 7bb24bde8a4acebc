-- ===== src/Server/Handles.antt =====
-- The agent's table of open writers: what `begin`, `commit` and `abort` do to it.
use mathlib.Core.Path.{subst}
use vextra.Base.{
  ℕ, ◌+◌, ◌%◌, ◌^◌, ◌<◌, String, ◌≡◌, refl, sym, ap, ◌∙◌, ◌⊎◌, inl, inr, Option, none, some, List,
  arith, ◌==◌, if◌then◌else◌, ==_iff, Text,
}
use vextra.Base.Result.{Err, Result, ok, err, ◌>>=◌, pure}
use vextra.Base.Dict.{nat_key, lookup, insert, erase, lookup-insert, lookup-erase}
use vextra.Entry.{Entry}
use vextra.Base.Keeps.{Keeps, Keeps-bind, Keeps-pure}
use vextra.Wire.{Msg, Frame, empty_msg}
use vextra.Fs.{Fs}
use vextra.Server.{
  found, call, plain, Server, Answer, handle, dispatch, do_begin, do_commit, do_abort, new_handle,
  take_handle, drop_handle, commit_or_abort, to_answer, parse_digest,
}

-- The handles in use are not above the latest one.
abbrev pub Known : {S H : Type 0} → Server S H → Type 0
Known s = (j : ℕ) → s.next < j → lookup j s.handles ≡ none

module _ (error_text : Err → String) (marshal_list : List Entry → Option Text)
    (hex_encode : Text → Text) (hex_decode : Text → Option Text) (host arch : Text) {S H : Type 0}
    (fs : Fs S H) where
  abbrev run : Frame → Server S H → Answer × Server S H
  run = handle error_text marshal_list hex_encode hex_decode host arch fs

  run_as : String → Frame → Server S H → Answer × Server S H
  run_as op f s =
      let (r, t) =
        dispatch error_text marshal_list hex_encode hex_decode host arch fs op f.msg f.payload s in
      (to_answer error_text marshal_list hex_encode hex_decode host arch fs r, t)

  run-as : (f : Frame) (s : Server S H) (op : String) → f.msg.op ≡ op → run f s ≡ run_as op f s
  unfolding handle run_as
  run-as f s op h = ap (λ x. run_as x f s) h

  abbrev finish : Result Answer × Server S H → Answer × Server S H
  finish x = (to_answer error_text marshal_list hex_encode hex_decode host arch fs x.0, x.1)

  run-begin :
      (f : Frame) (s : Server S H)
      → f.msg.op ≡ "begin"
      → run f s
        ≡ finish (do_begin error_text marshal_list hex_encode hex_decode host arch fs f.msg s)
  unfolding run_as dispatch
  run-begin f s op = run-as f s "begin" op ∙ refl

  -- The table behind the request: what `new_handle` makes of it.
  begin_lem :
      (f : Frame) (s : Server S H) (w : H) (world : S)
      → fs.begin f.msg.path f.msg.job f.msg.size f.msg.use_base s.world ≡ (ok w, world)
      → let id = (s.next + 1) % 2 ^ 32 in
        let x =
          finish (do_begin error_text marshal_list hex_encode hex_decode host arch fs f.msg s) in
        (x.0.0.h ≡ id) × (x.1.handles ≡ insert id w s.handles) × (x.1.next ≡ id)
  unfolding do_begin new_handle to_answer
  begin_lem f s w world e =
      let begun : Result H × S → Result Answer × Server S H = λ x.
        ◌>>=◌ (λ (t : Server S H). (x.0, record t { world = x.1 }))
          (λ v. new_handle v >>= λ id. pure (plain (record empty_msg { h = id }))) s in
      let id = (s.next + 1) % 2 ^ 32 in
      subst
        (λ x.
          ((finish (begun x)).0.0.h ≡ id)
          × ((finish (begun x)).1.handles ≡ insert id w s.handles)
          × ((finish (begun x)).1.next ≡ id))
        (sym e) (refl, refl, refl)

  -- If `Begin` opens a writer, no handle above the latest one is in use, and the counter does not
  -- wrap around: the request `begin` answers a handle that was not in use; it is the new writer's
  -- from then on, each other handle stands for what it stood for, and no handle above the latest
  -- one is in use.
  pub handle-begin :
      (f : Frame) (s : Server S H) (w : H) (world : S)
      → f.msg.op ≡ "begin"
      → fs.begin f.msg.path f.msg.job f.msg.size f.msg.use_base s.world ≡ (ok w, world)
      → Known s
      → s.next + 1 < 2 ^ 32
      → (lookup (run f s).0.0.h s.handles ≡ none)
        × ((j : ℕ)
            → lookup j (run f s).1.handles
              ≡ (if (run f s).0.0.h == j then some w else lookup j s.handles))
        × Known (run f s).1
  handle-begin f s w world op e known fits =
      let (h, t, n) = begin_lem f s w world e in
      let at = λ (j : ℕ). lookup-insert ((s.next + 1) % 2 ^ 32) j w s.handles in
      rw (run-begin f s op, h, t, n)
        (
          known ((s.next + 1) % 2 ^ 32) (omega arith),
          at,
          (λ j above. at j ∙ ground (arith, known j)),
        )

  abbrev Table : List (ℕ × H) → Server S H → Type 0
  Table hs t = t.handles ≡ hs

  commit_or_abort-Table :
      (m : Msg) (w : H) (d : Result Text) (hs : List (ℕ × H))
      → Keeps
          (Table hs)
          (commit_or_abort error_text marshal_list hex_encode hex_decode host arch fs m w d)
  unfolding commit_or_abort
  commit_or_abort-Table m w (ok sum) hs =
      Keeps-bind _ _ (record { at = λ t h. h }) (λ u. Keeps-pure _)
  commit_or_abort-Table m w (err e) hs = record { at = λ t h. h }

  taken :
      (h : ℕ) (s : Server S H) (x : Option H)
      → lookup h s.handles ≡ x
      → take_handle h s ≡ (found x, s)
  unfolding take_handle
  taken h s x e = ap (λ y. (found y, s)) e

  abbrev commit_taken : Msg → Server S H → Result H → Result Answer × Server S H
  commit_taken m s x =
      ◌>>=◌ (λ (t : Server S H). (x, s))
        (λ w. drop_handle m.h >>= λ u.
          commit_or_abort error_text marshal_list hex_encode hex_decode host arch fs m w
            (parse_digest hex_decode m.hash))
        s

  commit_taken-handles :
      (m : Msg) (s : Server S H) (x : Option H)
      → (commit_taken m s (found x)).1.handles
        ≡ elim x [ none ↦ s.handles | some w ↦ erase m.h s.handles ]
  unfolding drop_handle
  commit_taken-handles m s none = refl
  commit_taken-handles m s (some w) =
      (commit_or_abort-Table m w (parse_digest hex_decode m.hash) (erase m.h s.handles)).at _ refl

  commit_lem :
      (m : Msg) (s : Server S H) (x : Option H)
      → lookup m.h s.handles ≡ x
      → (do_commit error_text marshal_list hex_encode hex_decode host arch fs m s).1.handles
        ≡ elim x [ none ↦ s.handles | some w ↦ erase m.h s.handles ]
  unfolding do_commit
  commit_lem m s x h =
      ap
        (λ y.
          (◌>>=◌ (λ (t : Server S H). y)
            (λ w. drop_handle m.h >>= λ u.
              commit_or_abort error_text marshal_list hex_encode hex_decode host arch fs m w
                (parse_digest hex_decode m.hash))
            s).1.handles)
        (taken m.h s x h)
      ∙ commit_taken-handles m s x

  abbrev abort_taken : Msg → Result H × Server S H → Result Answer × Server S H
  abort_taken m y =
      ◌>>=◌ (λ (t : Server S H). (ok (y.0), y.1))
        (λ r. elim r [
          | ok w ↦
              (drop_handle m.h >>= λ u.
              call (λ s. (ok tt, fs.abort w s)) >>= λ v. pure (plain empty_msg))
          | err e ↦ pure (plain empty_msg)
        ])
        y.1

  abort_taken-handles :
      (m : Msg) (s : Server S H) (x : Option H)
      → (abort_taken m (found x, s)).1.handles
        ≡ elim x [ none ↦ s.handles | some w ↦ erase m.h s.handles ]
  unfolding drop_handle
  abort_taken-handles m s none = refl
  abort_taken-handles m s (some w) = refl

  abort_lem :
      (m : Msg) (s : Server S H) (x : Option H)
      → lookup m.h s.handles ≡ x
      → (do_abort error_text marshal_list hex_encode hex_decode host arch fs m s).1.handles
        ≡ elim x [ none ↦ s.handles | some w ↦ erase m.h s.handles ]
  unfolding do_abort
  abort_lem m s x h =
      ap (λ y. (abort_taken m y).1.handles) (taken m.h s x h) ∙ abort_taken-handles m s x

  erased :
      (k j : ℕ) (hs : List (ℕ × H)) (x : Option H)
      → lookup k hs ≡ x
      → lookup j (elim x [ none ↦ hs | some w ↦ erase k hs ])
        ≡ (if k == j then none else lookup j hs)
  erased k j hs none h = ground (arith, ==_iff k j)
  erased k j hs (some w) h = lookup-erase k j hs

  run-commit :
      (f : Frame) (s : Server S H)
      → f.msg.op ≡ "commit"
      → run f s
        ≡ finish (do_commit error_text marshal_list hex_encode hex_decode host arch fs f.msg s)
  unfolding run_as dispatch
  run-commit f s op = run-as f s "commit" op ∙ refl

  run-abort :
      (f : Frame) (s : Server S H)
      → f.msg.op ≡ "abort"
      → run f s
        ≡ finish (do_abort error_text marshal_list hex_encode hex_decode host arch fs f.msg s)
  unfolding run_as dispatch
  run-abort f s op = run-as f s "abort" op ∙ refl

  -- Behind a request `commit` or `abort`, whatever became of it (an unknown handle, a digest that is
  -- none, a commit that failed), the handle that it names stands for nothing, and each other handle
  -- for what it stood for.
  pub handle-closes :
      (f : Frame) (s : Server S H) (j : ℕ)
      → (f.msg.op ≡ "commit") ⊎ (f.msg.op ≡ "abort")
      → lookup j (run f s).1.handles ≡ (if f.msg.h == j then none else lookup j s.handles)
  handle-closes f s j (inl op) =
      let x = lookup f.msg.h s.handles in
      ap (λ r. lookup j r.1.handles) (run-commit f s op)
      ∙ ap (lookup j) (commit_lem f.msg s x refl)
      ∙ erased f.msg.h j s.handles x refl
  handle-closes f s j (inr op) =
      let x = lookup f.msg.h s.handles in
      ap (λ r. lookup j r.1.handles) (run-abort f s op)
      ∙ ap (lookup j) (abort_lem f.msg s x refl)
      ∙ erased f.msg.h j s.handles x refl
