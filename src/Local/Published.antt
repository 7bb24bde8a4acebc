-- ===== src/Local/Published.antt =====
-- The commit of a `localWriter`.
use vextra.Base.{ℕ, ◌%◌, ◌≡◌, ap, inl, inr, if◌then◌else◌, Bool-cases, Text, text_eq, eq_of_text_eq}
use vextra.Base.Int.{ℤ, pos, eqb_ℤ, eqb_ℤ_iff}
use vextra.Base.Result.{Err, ok, M, ◌>>=◌, ◌>>◌, pure, raise, >>=-ok}
use mathlib.Core.Path.{subst}
use vextra.Path.{dir}
use vextra.Os.{FileInfo, Os}
use vextra.Local.{LocalFs}
use vextra.Local.Files.{LocalWriter, sync_dir, publish, check_content, commit_body, local_fs}

module _ (hash : Text → Text) {S D : Type 0} (os : Os S D) (l : LocalFs) where
  -- The steps of a commit that succeeded, each from the state where the one before it ended.
  pub record Committed (w : LocalWriter D) (sum : Text) (mode : ℕ) (mtime : ℤ) (s s' : S)
      : Type 0 where
    pub content : Text
    pub fi : FileInfo
    pub s1 : S
    pub s2 : S
    pub s3 : S
    pub s4 : S
    pub s5 : S
    pub s6 : S
    pub s7 : S
    pub truncated : os.truncate w.f w.size s ≡ (ok tt, s1)
    pub synced : os.sync w.f s1 ≡ (ok tt, s2)
    pub read : os.read_section w.f w.size s2 ≡ (ok content, s3)
    pub verified : hash content ≡ sum
    pub chmodded : os.chmod w.tmp (mode % 512) s3 ≡ (ok tt, s4)
    pub timed : os.chtimes w.tmp mtime s4 ≡ (ok tt, s5)
    pub renamed : os.rename w.tmp w.dst s5 ≡ (ok tt, s6)
    pub found : os.lstat w.dst (sync_dir hash os (dir w.dst) s6) ≡ (ok fi, s7)
    pub sized : pos fi.size ≡ w.size
    pub closed : s' ≡ os.close w.f s7

  abbrev check_size : LocalWriter D → FileInfo → M S (Unit {0})
  check_size w fi = if eqb_ℤ (pos fi.size) w.size then pure tt else raise Err.verify

  check_size-ok :
      (w : LocalWriter D) (fi : FileInfo) (s s' : S)
      → check_size w fi s ≡ (ok tt, s')
      → (pos fi.size ≡ w.size) × (s' ≡ s)
  check_size-ok w fi s s' h = elim (Bool-cases (eqb_ℤ (pos fi.size) w.size)) [
    | inl e ↦ ((eqb_ℤ_iff (pos fi.size) w.size).0 e, cc (rw e at h))
    | inr n ↦ absurd (cc (rw n at h))
  ]

  -- The end of a commit, where the destination is looked at.
  abbrev look_back : LocalWriter D → M S (Unit {0})
  look_back w = os.lstat w.dst >>= check_size w

  abbrev sync_dst : LocalWriter D → M S (Unit {0})
  sync_dst w s = (ok tt, sync_dir hash os (dir w.dst) s)

  check_content-ok :
      (w : LocalWriter D) (sum : Text) (mode : ℕ) (mtime : ℤ) (content : Text) (s s' : S)
      → check_content hash os w sum mode mtime content s ≡ (ok tt, s')
      → (hash content ≡ sum) × (publish hash os w mode mtime s ≡ (ok tt, s'))
  unfolding check_content
  check_content-ok w sum mode mtime content s s' h =
      elim (Bool-cases (text_eq (hash content) sum)) [
        | inl e ↦ (eq_of_text_eq (hash content) sum e, rw e at h)
        | inr n ↦ absurd (cc (rw n at h))
      ]

  commit_body-ok :
      (w : LocalWriter D) (sum : Text) (mode : ℕ) (mtime : ℤ) (s s' : S)
      → commit_body hash os w sum mode mtime s ≡ (ok tt, s')
      → Committed w sum mode mtime s (os.close w.f s')
  unfolding commit_body publish
  commit_body-ok w sum mode mtime s s' h =
      let check = check_content hash os w sum mode mtime in
      let rename = os.rename w.tmp w.dst >> (sync_dst w >> look_back w) in
      let a =
        >>=-ok (os.truncate w.f w.size) (λ u. os.sync w.f >> (os.read_section w.f w.size >>= check))
          s tt s' h in
      let b =
        >>=-ok (os.sync w.f) (λ u. os.read_section w.f w.size >>= check) a.state tt s' a.second in
      let c = >>=-ok (os.read_section w.f w.size) check b.state tt s' b.second in
      let (same, p) = check_content-ok w sum mode mtime c.value c.state s' c.second in
      let d =
        >>=-ok (os.chmod w.tmp (mode % 512)) (λ u. os.chtimes w.tmp mtime >> rename) c.state tt s'
          p in
      let e = >>=-ok (os.chtimes w.tmp mtime) (λ u. rename) d.state tt s' d.second in
      let f =
        >>=-ok (os.rename w.tmp w.dst) (λ u. sync_dst w >> look_back w) e.state tt s' e.second in
      let g =
        >>=-ok (os.lstat w.dst) (check_size w) (sync_dir hash os (dir w.dst) f.state) tt s'
          f.second in
      let (sized, last) = check_size-ok w g.value g.state s' g.second in
      record {
        content = c.value;
        fi = g.value;
        s1 = a.state;
        s2 = b.state;
        s3 = c.state;
        s4 = d.state;
        s5 = e.state;
        s6 = f.state;
        s7 = g.state;
        truncated = a.first;
        synced = b.first;
        read = c.first;
        verified = same;
        chmodded = d.first;
        timed = e.first;
        renamed = f.first;
        found = g.first;
        sized = sized;
        closed = ap (os.close w.f) last;
      }

  -- A commit that succeeds made the file as long as it was announced, synced it, read its content, found
  -- that it has the digest asked for, gave it its mode and time, and only then put it in the place
  -- of the destination, which has the announced size afterwards.
  pub local_fs-Committed :
      (w : LocalWriter D) (sum : Text) (mode : ℕ) (mtime : ℤ) (s s' : S)
      → (local_fs hash os l).commit w sum mode mtime s ≡ (ok tt, s')
      → Committed w sum mode mtime s s'
  unfolding local_fs
  local_fs-Committed w sum mode mtime s s' h =
      subst (Committed w sum mode mtime s) (ap (λ x. x.1) h) (
        commit_body-ok w sum mode mtime s (commit_body hash os w sum mode mtime s).1
          (ap (λ x. (x.0, (commit_body hash os w sum mode mtime s).1)) h))
