-- ===== src/Delta.antt =====
-- Block signatures and the position-by-position delta: `blockSizeFor` and `diffBlocks` of
-- engine.go, `Sigs` of fs.go, `computeSigs` of localfs.go. A digest is the text that the hash
-- gives; the hash is a parameter.
pub mod BlockSize
pub mod Blocks
pub mod Diff
pub mod Patch
pub mod Signs
pub mod Restore
use vextra.Base.{
  ℕ, zero, suc, ◌+◌, ◌-◌, ◌*◌, ◌/◌, ◌^◌, String, ◌≡◌, Bool, true, false, not, ◌&&◌, ◌||◌, Option,
  none, some, List, [], ◌∷◌, ◌++◌, Text, text_eq, length, get_elem?, take, drop, ltb, leb, ◌==◌,
  if◌then◌else◌,
}
use vextra.Base.Int.{ℤ, pos, ◌+ℤ◌, ◌-ℤ◌, ltb_ℤ}
use vextra.Base.Result.{Err, Result}

abbrev pub min_block_size : ℕ
min_block_size = 2 ^ 16

abbrev pub max_block_size : ℕ
max_block_size = 2 ^ 22

abbrev pub target_blocks : ℕ
target_blocks = 512

-- `for bs < maxBlockSize && bs < want { bs <<= 1 }`, on fuel.
unfoldable pub grow : ℕ → ℕ → ℕ → ℕ
grow zero want bs = bs
grow (suc f) want bs =
    let next = grow f want (bs * 2) in if ltb bs max_block_size && ltb bs want then next else bs

-- Six doublings take the smallest size to the largest one; the seventh round only tests.
unfoldable pub block_size_for : ℕ → ℕ → ℕ
unfolding grow
block_size_for size fixed =
    if ltb 0 fixed then fixed else grow 7 (size / target_blocks) min_block_size

pub record Sigs : Type 0 where
  pub exists : Bool
  pub kind : String
  pub size : ℤ
  pub bs : ℤ
  pub hash : Text
  pub blocks : List Text

abbrev pub no_sigs : Sigs
no_sigs = record { exists = false; kind = ""; size = pos 0; bs = pos 0; hash = []; blocks = [] }

abbrev pub min_ℤ : ℤ → ℤ → ℤ
min_ℤ a b = if ltb_ℤ a b then a else b

-- `!ds.Exists || i >= len(ds.Blocks) || ds.Blocks[i] != ss.Blocks[i]`
unfoldable pub differs : Sigs → ℕ → Text → Bool
differs ds i block = elim (get_elem? ds.blocks i) [
  | none ↦ true
  | some d ↦ not ds.exists || not (text_eq d block)
]

-- The loop of `diffBlocks` from block `i` on.
diff_loop : Sigs → ℕ → ℕ → ℕ → List Text → List ℕ × ℤ
diff_loop ds bs size i [] = ([], pos 0)
diff_loop ds bs size i (block ∷ blocks) =
    let (changed, total) = diff_loop ds bs size (i + 1) blocks in
    if differs ds i block
    then (i ∷ changed, min_ℤ (pos bs) (pos size -ℤ pos (i * bs)) +ℤ total)
    else (changed, total)

-- The indices of the blocks to send, and the number of their bytes.
unfoldable pub diff_blocks : Sigs → Sigs → ℕ → ℕ → List ℕ × ℤ
unfolding diff_loop
diff_blocks ss ds bs size = diff_loop ds bs size 0 ss.blocks

-- What a reader still holds, and whether it then fails in place of ending.
pub record Reader : Type 0 where
  pub rest : Text
  pub fails : Bool

module _ (hash : Text → Text) where
  -- The loop of `computeSigs` on fuel: `none` means that the fuel ran out. `io.ReadFull` fills a
  -- buffer of `bs` bytes, or stops at the end of the input. `full` is what was hashed so far.
  sign_loop : ℕ → Bool → ℕ → Text → Text → List Text → Option (Result (Text × List Text))
  sign_loop zero fails bs rest full blocks = none
  sign_loop (suc f) fails bs rest full blocks =
      let chunk = take bs rest in
      let full' = full ++ chunk in
      let blocks' = if ltb 0 (length chunk) then blocks ++ (hash chunk ∷ []) else blocks in
      let more = sign_loop f fails bs (drop bs rest) full' blocks' in
      if length chunk == bs
      then more
      else if fails
      then some (Result.err Err.other)
      else some (Result.ok (full', blocks'))

  abbrev signed : ℕ → String → Result (Text × List Text) → Result Sigs
  signed bs kind (Result.err e) = Result.err e
  signed bs kind (Result.ok (full, blocks)) = Result.ok (record {
    exists = true;
    kind = kind;
    size = pos (length full);
    bs = pos bs;
    hash = hash full;
    blocks = blocks;
  })

  unfoldable pub compute_sigs : Reader → ℕ → String → Option (Result Sigs)
  unfolding sign_loop
  compute_sigs r bs kind =
      if bs == 0
      then some (Result.err Err.other)
      else elim (sign_loop (length r.rest + 1) r.fails bs r.rest [] []) [
        | none ↦ none
        | some x ↦ some (signed bs kind x)
      ]
