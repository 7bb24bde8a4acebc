-- ===== src/Engine.antt =====
-- The transfers: `loadSigs`, `estimate`, `transferSmall`, `transferLarge`, `transferFile` and
-- `doAction` of engine.go. Blocks are sent one after another, in an order that a parameter chooses:
-- the source's goroutines finish them in some order. The byte budget, the bandwidth limit and the
-- progress line change no result, and are left out.
pub mod Small
pub mod Large
pub mod Ended
pub mod Kept
use vextra.Base.{
  ℕ, ◌+◌, ◌*◌, Bool, true, false, not, ◌&&◌, ◌||◌, Option, none, some, List, [], ◌∷◌, str_eq, ltb,
  leb, ◌==◌, if◌then◌else◌, length, Text, text_eq,
}
use vextra.Base.Int.{ℤ, pos, ◌+ℤ◌, ◌-ℤ◌, eqb_ℤ}
use vextra.Base.Result.{Err, Result, ok, err, M, ◌>>=◌, ◌>>◌, pure, raise, attempt}
use vextra.Entry.{Entry, t_dir}
use vextra.Path.{dot, dir, base}
use vextra.Delta.{Sigs, block_size_for, diff_blocks, min_ℤ}
use vextra.Fs.{Fs}
use vextra.Plan.{act_file, act_link, Action, Options, DeltaInfo, is_new, size_of}
use vextra.Build.{is_not_exist}

pub record Stats : Type 0 where
  pub new_files : ℕ
  pub mod_files : ℕ
  pub meta_only : ℕ
  pub links : ℕ
  pub dirs : ℕ
  pub deleted : ℕ
  pub failed : ℕ
  pub file_bytes : ℕ
  pub sent_bytes : ℤ
  pub reused_bytes : ℤ

abbrev pub no_stats : Stats
no_stats = record {
  new_files = 0;
  mod_files = 0;
  meta_only = 0;
  links = 0;
  dirs = 0;
  deleted = 0;
  failed = 0;
  file_bytes = 0;
  sent_bytes = pos 0;
  reused_bytes = pos 0;
}

-- The world, the counters, and the failures, the latest one last.
pub record Run (S : Type 0) : Type 0 where
  pub world : S
  pub stats : Stats
  pub fails : List (Text × Err)

-- A call of a file system.
abbrev pub on : {S A : Type 0} → M S A → M (Run S) A
on m r = let (x, w) = m r.world in (x, record r { world = w })

abbrev pub tally : {S : Type 0} → (Stats → Stats) → M (Run S) (Unit {0})
tally f r = (ok tt, record r { stats = f r.stats })

-- `displayName`
unfoldable pub display_name : Action → Text
unfolding base
display_name a = if text_eq a.rel dot then base a.dst_path else a.rel

abbrev pub mode_of : Option Entry → ℕ
mode_of none = 0
mode_of (some e) = e.mode

abbrev pub mtime_of : Option Entry → ℤ
mtime_of none = pos 0
mtime_of (some e) = e.mtime

abbrev pub link_of : Option Entry → Text
link_of none = []
link_of (some e) = e.link

abbrev pub is_dir : Option Entry → Bool
is_dir none = false
is_dir (some e) = str_eq e.type t_dir

-- `ds.Exists && ds.Kind == "final"`
abbrev pub is_final : Sigs → Bool
is_final ds = ds.exists && str_eq ds.kind "final"

-- `len(changed) == 0 && ds.Exists && ds.Kind == "final" && ds.Size == size`
abbrev pub same_content : List ℕ → Sigs → ℕ → Bool
same_content changed ds size = elim changed [
  | [] ↦ is_final ds && eqb_ℤ ds.size (pos size)
  | _ ∷ _ ↦ false
]

-- `e.count`
unfoldable pub count_transfer : Action → ℤ → ℤ → Stats → Stats
count_transfer a sent reused s = record s {
  new_files = if is_new a then s.new_files + 1 else s.new_files;
  mod_files = if is_new a then s.mod_files else s.mod_files + 1;
  sent_bytes = s.sent_bytes +ℤ sent;
  reused_bytes = s.reused_bytes +ℤ reused;
}

-- `err != nil && !errors.Is(err, fs.ErrNotExist)`
unfoldable pub unless_missing : {S : Type 0} → Result (Unit {0}) → M S (Unit {0})
unless_missing (ok u) = pure tt
unless_missing (err e) = if is_not_exist e then pure tt else raise e

-- Of two failures the source's comes first.
abbrev pub both_sigs : {S : Type 0} → Result Sigs → Result Sigs → M S (Sigs × Sigs)
both_sigs (err e) d = raise e
both_sigs (ok ss) (err e) = raise e
both_sigs (ok ss) (ok ds) = pure (ss, ds)

abbrev pub has_dst : Action → Bool
has_dst a = elim a.dst [ none ↦ false | some _ ↦ true ]

module _ (hash : Text → Text) (job_id : Text → ℕ → ℤ → Bool → Text) (block_order : List ℕ → List ℕ)
    {S H K : Type 0} (src : Fs S H) (dst : Fs S K) (o : Options) where
  abbrev pub E : Type 0 → Type 0
  E = M (Run S)

  unfoldable pub load_sigs : Action → Text → ℕ → E (Sigs × Sigs)
  load_sigs a job bs = do
    d ← attempt (on (dst.sigs a.dst_path job (pos bs)))
    s ← attempt (on (src.sigs a.src_path [] (pos bs)))
    both_sigs s d

  -- `errChanged` is an `ErrVerify`.
  abbrev pub check_source : Sigs → ℕ → E (Unit {0})
  check_source ss size =
      if not ss.exists || not (eqb_ℤ ss.size (pos size)) then raise Err.verify else pure tt

  unfoldable pub estimate : Action → E DeltaInfo
  estimate a = do
    let size = size_of a.src
    let bs = block_size_for size o.block_size
    pair ← load_sigs a (job_id a.dst_path size (mtime_of a.src) o.resume) bs
    check_source (pair.0) size
    let delta = diff_blocks (pair.0) (pair.1) bs size
    pure (record {
      bs = bs;
      blocks = length (pair.0).blocks;
      changed = length (delta.0);
      bytes = delta.1;
      same = same_content (delta.0) (pair.1) size;
      resume = (pair.1).exists && str_eq (pair.1).kind "tmp";
    })

  -- Runs the cleanup if the computation fails, and passes the error on.
  unfoldable pub or_abort : E (Unit {0}) → K → E (Unit {0})
  or_abort m w = do
    r ← attempt m
    elim r [ ok u ↦ pure tt | err e ↦ (on (λ s. (ok tt, dst.abort w s)) >>= λ _. raise e) ]

  -- The content of a small file; an empty one is not read.
  unfoldable pub read_small : Action → ℕ → E Text
  read_small a size =
      if ltb 0 size
      then (on (src.read_at a.src_path (pos 0) (pos size)) >>= λ d.
          (if length d == size then pure d else raise Err.verify))
      else pure []

  unfoldable pub transfer_small : Action → Text → E (Unit {0})
  transfer_small a job = do
    let size = size_of a.src
    content ← read_small a size
    w ← on (dst.begin a.dst_path job (pos size) false)
    (if ltb 0 size then or_abort (on (dst.write_at w content (pos 0))) w else pure tt)
    on (dst.commit w (hash content) (mode_of a.src) (mtime_of a.src))
    tally (count_transfer a (pos size) (pos 0))

  -- One block: `ReadAt` at the source, `WriteAt` at the destination.
  unfoldable pub send_block : Action → ℕ → ℕ → K → ℕ → E (Unit {0})
  send_block a bs size w i = do
    let off = pos (i * bs)
    let n = min_ℤ (pos bs) (pos size -ℤ off)
    content ← on (src.read_at a.src_path off n)
    (if eqb_ℤ (pos (length content)) n then pure tt else raise Err.verify)
    on (dst.write_at w content off)

  -- The first failure stops the blocks that have not begun.
  unfoldable pub send_blocks : Action → ℕ → ℕ → K → List ℕ → E (Unit {0})
  send_blocks a bs size w [] = pure tt
  send_blocks a bs size w (i ∷ is) = send_block a bs size w i >>= λ _. send_blocks a bs size w is

  -- The part of `transferLarge` that moves blocks.
  unfoldable pub send_delta : Action → Text → ℕ → Sigs → Sigs → List ℕ × ℤ → E (Unit {0})
  send_delta a job bs ss ds (changed, total) = do
    let size = size_of a.src
    w ← on (dst.begin a.dst_path job (pos size) (is_final ds))
    or_abort (send_blocks a bs size w (block_order changed)) w
    on (dst.commit w ss.hash (mode_of a.src) (mtime_of a.src))
    tally (count_transfer a total (pos size -ℤ total))

  abbrev count_same : ℕ → Stats → Stats
  count_same size s = record s {
    meta_only = s.meta_only + 1;
    reused_bytes = s.reused_bytes +ℤ pos size;
  }

  unfoldable pub transfer_large : Action → Text → E (Unit {0})
  transfer_large a job = do
    let size = size_of a.src
    let bs = block_size_for size o.block_size
    pair ← load_sigs a job bs
    check_source (pair.0) size
    let delta = diff_blocks (pair.0) (pair.1) bs size
    (if same_content (delta.0) (pair.1) size
        then (on (dst.set_meta a.dst_path (mode_of a.src) (mtime_of a.src)) >>= λ _.
            tally (count_same size))
        else send_delta a job bs (pair.0) (pair.1) delta)

  -- Takes away what stands in the way.
  unfoldable pub clear_way : Bool → Action → E (Unit {0})
  clear_way wanted a =
      if wanted && has_dst a
      then (attempt (on (dst.remove a.dst_path true)) >>= unless_missing)
      else pure tt

  unfoldable pub transfer_file : Action → E (Unit {0})
  transfer_file a = do
    let size = size_of a.src
    let job = job_id a.dst_path size (mtime_of a.src) o.resume
    clear_way a.replace a
    (if text_eq a.rel dot then on (dst.mkdir (dir a.dst_path) 493) else pure tt)
    (if leb size o.small_file then transfer_small a job else transfer_large a job)
    tally (λ s. record s { file_bytes = s.file_bytes + size })

  unfoldable pub do_action : Action → E (Unit {0})
  do_action a = elim a.kind [
    | act_link ↦ do
      clear_way true a
      on (dst.symlink (link_of a.src) a.dst_path)
      tally (λ s. record s { links = s.links + 1 })
    | act_file ↦ transfer_file a
    | _ ↦ pure tt
  ]
