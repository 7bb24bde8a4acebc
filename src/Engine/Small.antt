-- ===== src/Engine/Small.antt =====
-- How the transfer of a small file that succeeds has ended.
use vextra.Base.{
  ℕ, ◌<◌, ◌≡◌, refl, Bool, false, List, [], arith, ltb, ◌==◌, ==_iff, if◌then◌else◌, length, Text,
}
use vextra.Base.Int.{ℤ, pos}
use vextra.Base.Result.{Err, Result, ok, err, M, ◌>>=◌, pure}
use vextra.Base.Gives.{Gives, Gives-pure, Gives-raise, Gives-if, Gives-bind, Gives-any, Holds, Gave}
use vextra.Base.Ends.{Ends, Success, Ends-bind, Ends-mono}
use vextra.Fs.{Fs}
use vextra.Plan.{Action, Options, size_of}
use vextra.Engine.{
  Run, Stats, on, tally, mode_of, mtime_of, count_transfer, or_abort, read_small, transfer_small,
}

pub on-Gave : {S A : Type 0} (m : M S A) → Gives (Gave m) (on m)
on-Gave {S} {A} m = record { at = λ r. go r.world (m r.world) refl }
  where
    go : (w : S) (x : Result A × S) → m w ≡ x → Holds (Gave m) (x.0)
    go w (ok a, w') e = (w, w', e)
    go w (err f, w') e = tt

-- Counting changes no world.
pub Ends-tally :
    {S A : Type 0} (Q : S → Type 0) (m : M (Run S) A) (f : Stats → Stats)
    → Ends (λ a r. Q r.world) m
    → Ends (λ u r. Q r.world) (m >>= λ _. tally f)
Ends-tally {S} {A} Q m f e = record { at = λ r. go r (m r) (e.at r) }
  where
    go :
        (r : Run S) (x : Result A × Run S)
        → Success (λ a r. Q r.world) x
        → Success (λ u r. Q r.world) (◌>>=◌ (λ (s : Run S). x) (λ _. tally f) r)
    go r (ok a, t) q = q
    go r (err e, t) q = tt

module _ (hash : Text → Text) (job_id : Text → ℕ → ℤ → Bool → Text) (block_order : List ℕ → List ℕ)
    {S H K : Type 0} (src : Fs S H) (dst : Fs S K) (o : Options) (a : Action) where
  abbrev pub size : ℕ
  size = size_of a.src

  abbrev pub commit_of : K → Text → M S (Unit {0})
  commit_of writer sum = dst.commit writer sum (mode_of a.src) (mtime_of a.src)

  -- The last call of the destination was a commit of this digest, through a writer that was begun for the
  -- planned file and size; it succeeded and left this world.
  pub record Commits (job sum : Text) (w : S) : Type 0 where
    pub writer : K
    pub use_base : Bool
    pub opened : Gave (dst.begin a.dst_path job (pos size) use_base) writer
    pub before : S
    pub done : commit_of writer sum before ≡ (ok tt, w)

  -- A call of the destination without a value ends with that call.
  pub call-Ends : (m : M S (Unit {0})) → Ends (λ u r. (w : S) × (m w ≡ (ok tt, r.world))) (on m)
  call-Ends m = record { at = λ r. go r (m r.world) refl }
    where
      go :
          (r : Run S) (x : Result (Unit {0}) × S)
          → m r.world ≡ x
          → Success (λ u r. (w : S) × (m w ≡ (ok tt, r.world))) (x.0, record r { world = x.1 })
      go r (ok u, w) e = (r.world, e)
      go r (err x, w) e = tt

  pub commit-Ends :
      (job : Text) (use_base : Bool) (writer : K) (sum : Text) (f : Stats → Stats)
      → Gave (dst.begin a.dst_path job (pos size) use_base) writer
      → Ends (λ u r. Commits job sum r.world) (on (commit_of writer sum) >>= λ _. tally f)
  commit-Ends job use_base writer sum f g =
      Ends-tally (Commits job sum) (on (commit_of writer sum)) f (
        Ends-mono _
          (λ u r q. record {
            writer = writer;
            use_base = use_base;
            opened = g;
            before = q.0;
            done = q.1;
          })
          (call-Ends (commit_of writer sum)))

  -- The content that the source gave for a small file.
  pub record ReadWhole (content : Text) : Type 0 where
    pub sized : length content ≡ size
    pub given : 0 < size → Gave (src.read_at a.src_path (pos 0) (pos size)) content

  read_small-ReadWhole : Gives ReadWhole (read_small hash job_id block_order src dst o a size)
  unfolding read_small
  read_small-ReadWhole =
      Gives-if (ltb 0 size) _ _
        (λ e. Gives-bind (on (src.read_at a.src_path (pos 0) (pos size))) _ (on-Gave _) λ d q.
          Gives-if (length d == size) _ _
            (λ l. Gives-pure d (record { sized = (==_iff (length d) size).0 l; given = λ _. q }))
            (λ l. Gives-raise Err.verify))
        (λ e.
          Gives-pure []
            (record { sized = ground (arith, e); given = λ l. absurd (ground (arith, e)) }))

  -- A small file: what the source gave was committed under its hash.
  pub record SmallDone (job : Text) (w : S) : Type 0 where
    pub content : Text
    pub read : ReadWhole content
    pub commits : Commits job (hash content) w

  pub SmallDone-Ends :
      (job : Text)
      → Ends (λ u r. SmallDone job r.world) (transfer_small hash job_id block_order src dst o a job)
  unfolding transfer_small
  SmallDone-Ends job =
      Ends-bind (read_small hash job_id block_order src dst o a size) _ read_small-ReadWhole λ c q.
        Ends-bind (on (dst.begin a.dst_path job (pos size) false)) _ (on-Gave _) λ w g.
          Ends-bind
            (if ltb 0 size
              then or_abort hash job_id block_order src dst o (on (dst.write_at w c (pos 0))) w
              else pure tt)
            _ (Gives-any _)
            λ v u2.
              Ends-mono _ (λ x r h. record { content = c; read = q; commits = h })
                (commit-Ends job false w (hash c) (count_transfer a (pos size) (pos 0)) g)
