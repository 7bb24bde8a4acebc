-- ===== src/Local/Unchanged.antt =====
-- What operations of `LocalFS` leave alone: `P` is anything that may be said of the world.
use vextra.Base.{
  ℕ, zero, suc, ◌≡◌, refl, ◌≢◌, inl, inr, Bool, true, not, [], ◌∷◌, ◌++◌, arith, if◌then◌else◌,
  Bool-cases, length, Text, text_eq, text_eq_refl, eq_of_text_eq,
}
use vextra.Base.Int.{ℤ}
use vextra.Base.Result.{Err, Result, ok, err, M, ◌>>=◌, ◌>>◌, pure, raise}
use vextra.Base.Keeps.{Keeps, Keeps-pure, Keeps-bind, Keeps-raise, Keeps-if}
use vextra.Path.{is_abs, slash, dir}
use vextra.Path.Rooted.{Cleaned}
use vextra.Os.{FileInfo, Os}
use vextra.Local.{
  within, LocalFs, resolve, confine, normalize, check_escape, deepest, look, escape_of, is_root,
  local_remove, Existing, at, nowhere, no_fuel,
}
use vextra.Local.Confined.{Below, resolve-Below}
use vextra.Local.Files.{LocalWriter, check_content, commit_body, local_fs}

-- A path strictly below the root: the root, a slash and more, with only names between its slashes, none
-- of them empty, "." or "..".
abbrev pub StrictlyBelow : Text → Text → Type 0
StrictlyBelow root q = ((r : Text) × (q ≡ root ++ (slash ∷ r))) × Cleaned q

-- An error, behind which `P` holds.
abbrev Fails : {S A : Type 0} → (S → Type 0) → Result A × S → Type 0
Fails P x = (e : Err) × (x.0 ≡ err e) × P x.1

bind-Fails :
    {S A B : Type 0} (P : S → Type 0) (x : Result A × S) (f : A → M S B)
    → P x.1
    → ((a : A) (s' : S) → x ≡ (ok a, s') → P s' → Fails P (f a s'))
    → Fails P (◌>>=◌ (λ _. x) f x.1)
bind-Fails P (ok a, s) f h k = k a s refl h
bind-Fails P (err e, s) f h k = (e, refl, h)

keeps_at :
    {S A B : Type 0} (P : S → Type 0) (x : Result A × S) (f : A → M S B)
    → P x.1
    → ((a : A) (s' : S) → x ≡ (ok a, s') → P s' → P (f a s').1)
    → P (◌>>=◌ (λ _. x) f x.1).1
keeps_at P (ok a, s) f h k = k a s refl h
keeps_at P (err e, s) f h k = h

root_is_root : (l : LocalFs) → l.root ≢ [] → is_root l l.root ≡ true
unfolding is_root
root_is_root l ne = elim (Bool-cases (text_eq l.root [])) [
  | inl e ↦ absurd (ne (eq_of_text_eq l.root [] e))
  | inr n ↦ ground (arith, text_eq_refl l.root)
]

module _ (hash : Text → Text) {S D : Type 0} (os : Os S D) (l : LocalFs) where
  check_content-Fails :
      (P : S → Type 0) (w : LocalWriter D) (sum : Text) (mode : ℕ) (mtime : ℤ) (content : Text)
      (s : S)
      → P (os.remove w.tmp s).1
      → hash content ≢ sum
      → Fails P (check_content hash os w sum mode mtime content s)
  unfolding check_content
  check_content-Fails P w sum mode mtime content s h ne =
      elim (Bool-cases (text_eq (hash content) sum)) [
        | inl e ↦ absurd (ne (eq_of_text_eq (hash content) sum e))
        | inr n ↦ rw n (Err.verify, refl, h)
      ]

  commit_body-Fails :
      (P : S → Type 0) (w : LocalWriter D) (sum : Text) (mode : ℕ) (mtime : ℤ) (s : S)
      → Keeps P (os.truncate w.f w.size)
      → Keeps P (os.sync w.f)
      → Keeps P (os.read_section w.f w.size)
      → Keeps P (os.remove w.tmp)
      → ((s s' : S) (c : Text) → os.read_section w.f w.size s ≡ (ok c, s') → hash c ≢ sum)
      → P s
      → Fails P (commit_body hash os w sum mode mtime s)
  unfolding commit_body
  commit_body-Fails P w sum mode mtime s kt ks kr km other h =
      let check = check_content hash os w sum mode mtime in
      bind-Fails P (os.truncate w.f w.size s)
        (λ u. os.sync w.f >> (os.read_section w.f w.size >>= check)) (kt.at s h)
        (λ u s1 e1 h1.
          bind-Fails P (os.sync w.f s1) (λ u. os.read_section w.f w.size >>= check) (ks.at s1 h1)
            (λ u s2 e2 h2.
              bind-Fails P (os.read_section w.f w.size s2) check (kr.at s2 h2) (λ c s3 e3 h3.
                check_content-Fails P w sum mode mtime c s3 (km.at s3 h3) (other s2 s3 c e3))))

  -- If what is read of the temporary file never has the digest asked for, then a commit fails, and
  -- whatever is kept by truncating, syncing, reading and closing that file and by removing its name,
  -- such as the content of the destination, is as before.
  pub local_fs-Fails :
      (P : S → Type 0) (w : LocalWriter D) (sum : Text) (mode : ℕ) (mtime : ℤ) (s : S)
      → Keeps P (os.truncate w.f w.size)
      → Keeps P (os.sync w.f)
      → Keeps P (os.read_section w.f w.size)
      → Keeps P (os.remove w.tmp)
      → ((s : S) → P s → P (os.close w.f s))
      → ((s s' : S) (c : Text) → os.read_section w.f w.size s ≡ (ok c, s') → hash c ≢ sum)
      → P s
      → (e : Err) × (((local_fs hash os l).commit w sum mode mtime s).0 ≡ err e)
        × P ((local_fs hash os l).commit w sum mode mtime s).1
  unfolding local_fs
  local_fs-Fails P w sum mode mtime s kt ks kr km kc other h =
      let (e, f, p) = commit_body-Fails P w sum mode mtime s kt ks kr km other h in
      (e, f, kc (commit_body hash os w sum mode mtime s).1 p)

  look-keeps :
      (P : S → Type 0) (cur : Text) (rest : Existing × S) (x : Result FileInfo × S)
      → P x.1
      → P rest.1
      → P (look os cur rest x).1
  look-keeps P cur rest (ok fi, s) h k = h
  look-keeps P cur rest (err e, s) h k = elim (Bool-cases (text_eq (dir cur) cur)) [
    | inl q ↦ rw q h
    | inr q ↦ rw q k
  ]

  deepest-keeps :
      (P : S → Type 0) (f : ℕ) (cur : Text) (s : S)
      → ((p : Text) → Keeps P (os.lstat p))
      → P s
      → P (deepest os f cur s).1
  unfolding deepest
  deepest-keeps P zero cur s k h = h
  deepest-keeps P (suc f) cur s k h =
      let x = (k cur).at s h in
      look-keeps P cur (deepest os f (dir cur) (os.lstat cur s).1) (os.lstat cur s) x
        (deepest-keeps P f (dir cur) (os.lstat cur s).1 k x)

  escape_of-keeps :
      (P : S → Type 0) (x : Existing × S)
      → ((p : Text) → Keeps P (os.eval_symlinks p))
      → P x.1
      → P (escape_of os l x).1
  escape_of-keeps P (at cur, s) k h = (k cur).at s h
  escape_of-keeps P (nowhere, s) k h = h
  escape_of-keeps P (no_fuel, s) k h = h

  check_escape-Keeps :
      (P : S → Type 0) (d : Text)
      → ((q : Text) → Keeps P (os.lstat q))
      → ((q : Text) → Keeps P (os.eval_symlinks q))
      → Keeps P (check_escape os l d)
  unfolding check_escape
  check_escape-Keeps P d kl ke = record {
    at = λ s h.
        escape_of-keeps P (deepest os (length d) d s) ke (deepest-keeps P (length d) d s kl h);
  }

  resolve-Keeps :
      (P : S → Type 0) (p : Text)
      → ((q : Text) → Keeps P (os.lstat q))
      → ((q : Text) → Keeps P (os.eval_symlinks q))
      → Keeps P (resolve os l p)
  unfolding confine
  resolve-Keeps P p kl ke =
      let q = normalize l p in
      let escape =
        Keeps-bind (check_escape os l (dir q)) (λ u. pure q) (check_escape-Keeps P (dir q) kl ke)
          (λ u. Keeps-pure q) in
      let out = Keeps-raise Err.outside_root in
      Keeps-if (text_eq l.root []) _ _ (Keeps-pure q) (
        Keeps-if (not (is_abs q)) _ _ out (
          Keeps-if (not (within l.root q)) _ _ out
            (Keeps-if (text_eq q l.root) _ _ (Keeps-pure q) escape)))

  abbrev removal : Bool → Text → M S (Unit {0})
  removal recursive q =
      if is_root l q then raise Err.other else if recursive then os.remove_all q else os.remove q

  removal-keeps :
      (P : S → Type 0) (q : Text) (recursive : Bool) (s : S)
      → l.root ≢ []
      → ((r : Text) → StrictlyBelow l.root r → Keeps P (os.remove r))
      → ((r : Text) → StrictlyBelow l.root r → Keeps P (os.remove_all r))
      → Below l.root q
      → Cleaned q
      → P s
      → P (removal recursive q s).1
  removal-keeps P q recursive s ne kr ka (inl e) c h = rw (e, root_is_root l ne) h
  removal-keeps P q recursive s ne kr ka (inr b) c h =
      let one = kr q (b, c) in
      let all = ka q (b, c) in
      (Keeps-if _ _ _ (Keeps-raise _) (Keeps-if recursive _ _ all one)).at s h

  -- With a root, `Remove` takes nothing away but what is strictly below the root: whatever is kept by
  -- looking at paths, by following symlinks and by each removal of a path strictly below the root is
  -- as before.
  pub local_fs-remove_below :
      (P : S → Type 0) (p : Text) (recursive : Bool) (s : S)
      → l.root ≢ []
      → ((q : Text) → Keeps P (os.lstat q))
      → ((q : Text) → Keeps P (os.eval_symlinks q))
      → ((r : Text) → StrictlyBelow l.root r → Keeps P (os.remove r))
      → ((r : Text) → StrictlyBelow l.root r → Keeps P (os.remove_all r))
      → P s
      → P ((local_fs hash os l).remove p recursive s).1
  unfolding local_fs local_remove
  local_fs-remove_below P p recursive s ne kl ke kr ka h =
      keeps_at P (resolve os l p s) (removal recursive) ((resolve-Keeps P p kl ke).at s h)
        (λ q s' e k.
          let b = resolve-Below os l p q s s' ne e in
          removal-keeps P q recursive s' ne kr ka b.0 b.1 k)
