-- ===== src/Local/Refused.antt =====
-- A path that leads out of the root, in each operation of `LocalFS`.
use vextra.Base.{
  ℕ, ◌≡◌, refl, ap, ◌∙◌, ◌≢◌, ◌⊎◌, inl, inr, Bool, false, [], if◌then◌else◌, Bool-cases, length,
  Text, text_eq, eq_of_text_eq,
}
use vextra.Base.Int.{ℤ, pos}
use vextra.Base.Result.{Err, ok, err, M, ◌>>=◌, pure}
use vextra.Path.{dir, is_abs}
use vextra.Os.{Os}
use vextra.Local.{
  LocalFs, at, within, deepest, escape_of, check_escape, normalize, confine, resolve, local_stat,
  local_list, local_mkdir, local_remove, local_rename, local_symlink, local_set_meta, judge,
}
use vextra.Local.Files.{local_sigs, local_read_at, local_begin, local_fs}

-- After an error nothing else is done.
raised :
    {S A B : Type 0} (m : M S A) (f : A → M S B) (s s' : S) (e : Err)
    → m s ≡ (err e, s')
    → (m >>= f) s ≡ (err e, s')
raised m f s s' e h = ap (λ x. ◌>>=◌ (λ _. x) f s) h

module _ (hash : Text → Text) {S D : Type 0} (os : Os S D) (l : LocalFs) where
  -- The path lies outside the root, or the deepest of its ancestors that exists is, once its symlinks
  -- are followed, outside the root.
  abbrev pub Escapes : Text → S → Type 0
  Escapes p s =
      (within l.root (normalize l p) ≡ false)
      ⊎ ((cur real : Text) × (s1 s2 : S) × (text_eq (normalize l p) l.root ≡ false)
          × (deepest os (length (dir (normalize l p))) (dir (normalize l p)) s ≡ (at cur, s1))
          × (os.eval_symlinks cur s1 ≡ (ok real, s2))
          × (within l.real_root real ≡ false))

  check_escape-outside :
      (d cur real : Text) (s s1 s2 : S)
      → deepest os (length d) d s ≡ (at cur, s1)
      → os.eval_symlinks cur s1 ≡ (ok real, s2)
      → within l.real_root real ≡ false
      → check_escape os l d s ≡ (err Err.outside_root, s2)
  unfolding check_escape
  check_escape-outside d cur real s s1 s2 e f w =
      ap (escape_of os l) e
      ∙ ap (λ x. (judge l x.0, x.1)) f
      ∙ ap (λ b. (if b then ok tt else err Err.outside_root, s2)) w

  confine-outside :
      (p : Text) (s : S)
      → text_eq l.root [] ≡ false
      → within l.root p ≡ false
      → confine os l p s ≡ (err Err.outside_root, s)
  unfolding confine
  confine-outside p s n w = elim (Bool-cases (is_abs p)) [
    | inl a ↦ rw (n, a, w) refl
    | inr na ↦ rw (n, na) refl
  ]

  confine-escape :
      (p : Text) (s s' : S)
      → text_eq l.root [] ≡ false
      → text_eq p l.root ≡ false
      → check_escape os l (dir p) s ≡ (err Err.outside_root, s')
      → (t : S) × (confine os l p s ≡ (err Err.outside_root, t))
  unfolding confine
  confine-escape p s s' n r e = elim (Bool-cases (is_abs p)) [
    | inr na ↦ (s, rw (n, na) refl)
    | inl a ↦ elim (Bool-cases (within l.root p)) [
      | inr nw ↦ (s, rw (n, a, nw) refl)
      | inl w ↦ (
        s',
        rw (n, a, w, r) (raised (check_escape os l (dir p)) (λ u. pure p) s s' Err.outside_root e),
      )
    ]
  ]

  rooted : l.root ≢ [] → text_eq l.root [] ≡ false
  rooted ne = elim (Bool-cases (text_eq l.root [])) [
    | inl e ↦ absurd (ne (eq_of_text_eq l.root [] e))
    | inr n ↦ n
  ]

  resolve-Escapes :
      (p : Text) (s : S)
      → l.root ≢ []
      → Escapes p s
      → (s' : S) × (resolve os l p s ≡ (err Err.outside_root, s'))
  resolve-Escapes p s ne (inl w) = (s, confine-outside (normalize l p) s (rooted ne) w)
  resolve-Escapes p s ne (inr (cur, real, s1, s2, r, e, f, w)) =
      confine-escape (normalize l p) s s2 (rooted ne) r
        (check_escape-outside (dir (normalize l p)) cur real s s1 s2 e f w)

  abbrev pub Stops : {A : Type 0} → M S A → Text → S → Type 0
  Stops m p s = m s ≡ (err Err.outside_root, (resolve os l p s).1)

  -- Each operation on a path stops at it; the other arguments of the operations are any.
  abbrev pub Refuses : Text → Text → Text → Bool → ℕ → ℕ → ℤ → ℤ → ℤ → ℤ → S → Type 0
  Refuses p q job flag mode n mtime bs off size s =
      Stops ((local_fs hash os l).stat p flag) p s
      × Stops ((local_fs hash os l).list p flag) p s
      × Stops ((local_fs hash os l).mkdir p mode) p s
      × Stops ((local_fs hash os l).remove p flag) p s
      × Stops ((local_fs hash os l).rename p q) p s
      × Stops ((local_fs hash os l).symlink q p) p s
      × Stops ((local_fs hash os l).set_meta p mode mtime) p s
      × Stops ((local_fs hash os l).sigs p job bs) p s
      × Stops ((local_fs hash os l).read_at p off (pos n)) p s
      × Stops ((local_fs hash os l).begin p job size flag) p s

  -- With a root, a path that leads out of it is refused with `ErrOutsideRoot` by each operation on it, a
  -- read of a negative length apart, and nothing is done but the look at its ancestors.
  pub local_fs-Escapes :
      (p q job : Text) (flag : Bool) (mode n : ℕ) (mtime bs off size : ℤ) (s : S)
      → l.root ≢ []
      → Escapes p s
      → Refuses p q job flag mode n mtime bs off size s
  unfolding local_fs local_stat local_list local_mkdir local_remove local_rename local_symlink
      local_set_meta local_sigs local_read_at local_begin
  local_fs-Escapes p q job flag mode n mtime bs off size s ne h =
      let (s', e) = resolve-Escapes p s ne h in
      rw e (
        search raised,
        search raised,
        search raised,
        search raised,
        search raised,
        search raised,
        search raised,
        search raised,
        search raised,
        search raised,
      )
