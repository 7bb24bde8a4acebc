-- ===== src/Delta/Signs.antt =====
-- What `computeSigs` of localfs.go returns, for every input, block size and failure of the reader.
use vextra.Base.{
  ℕ, zero, suc, ◌+◌, ◌*◌, ◌≤◌, ◌<◌, String, ◌≡◌, refl, ◌∙◌, Bool, true, some, List, [], ◌∷◌, ◌++◌,
  arith, ltb, ◌==◌, if◌then◌else◌, length, take, drop, length-take, length-drop, take-append-drop,
  take_all, Text,
}
use vextra.Base.Int.{pos}
use native.Mathlib.Decide.{dec_lt}
use vextra.Base.Result.{Err, Result}
use mathlib.Core.List.{append_assoc, append-nil}
use vextra.Delta.{Sigs, Reader, sign_loop, compute_sigs}
use vextra.Delta.Blocks.{hash_blocks, block_count, block_count_bounds}

-- The signatures of a text, by their specification.
abbrev pub sigs_of : (Text → Text) → Text → ℕ → String → Sigs
sigs_of hash xs bs kind = record {
  exists = true;
  kind = kind;
  size = pos (length xs);
  bs = pos bs;
  hash = hash xs;
  blocks = hash_blocks hash bs (block_count (length xs) bs) xs;
}

abbrev read_result : Bool → Text → List Text → Result (Text × List Text)
read_result fails full blocks = if fails then Result.err Err.other else Result.ok (full, blocks)

module _ (hash : Text → Text) where
  -- A full block was read: the loop goes on behind it.
  full_round :
      (f : ℕ) (fails : Bool) (bs : ℕ) (rest full : Text) (blocks : List Text)
      → 0 < bs
      → bs ≤ length rest
      → sign_loop hash (suc f) fails bs rest full blocks
        ≡ sign_loop hash f fails bs
            (drop bs rest)
            (full ++ take bs rest)
            (blocks ++ (hash (take bs rest) ∷ []))
  unfolding sign_loop
  full_round f fails bs rest full blocks p h = ground (arith, length-take bs rest)

  -- A short read, or none: the loop ends.
  last_round :
      (f : ℕ) (fails : Bool) (bs : ℕ) (rest full : Text) (blocks : List Text)
      → length rest < bs
      → sign_loop hash (suc f) fails bs rest full blocks
        ≡ some (
            read_result fails
              (full ++ rest)
              (if ltb 0 (length rest) then blocks ++ (hash rest ∷ []) else blocks))
  unfolding sign_loop
  last_round f fails bs rest full blocks h = rw (take_all bs rest (omega arith)) (ground arith)

  sign_loop_lem :
      (f : ℕ) (fails : Bool) (bs n : ℕ) (rest full : Text) (blocks : List Text)
      → 0 < bs
      → length rest < f
      → length rest ≤ n * bs
      → n * bs < length rest + bs
      → sign_loop hash f fails bs rest full blocks
        ≡ some (read_result fails (full ++ rest) (blocks ++ hash_blocks hash bs n rest))
  sign_loop_lem zero fails bs n rest full blocks p h lo hi = absurd (omega arith)
  sign_loop_lem (suc f) fails bs zero [] full blocks p h lo hi =
      last_round f fails bs [] full blocks p ∙ rw append-nil (rw append-nil)
  sign_loop_lem (suc f) fails bs zero (x ∷ rest) full blocks p h lo hi = absurd (omega arith)
  sign_loop_lem (suc f) fails bs (suc n) rest full blocks p h lo hi =
      elim (dec_lt (length rest) bs) [
        | yes short ↦
            let e : n ≡ 0 = grind arith in
            last_round f fails bs rest full blocks short
            ∙ rw (e, take_all bs rest (omega arith)) (ground arith)
        | no long ↦
            full_round f fails bs rest full blocks p (omega arith)
            ∙ sign_loop_lem f fails bs n (drop bs rest) (full ++ take bs rest) _ p
                (omega (arith, length-drop bs rest)) (omega (arith, length-drop bs rest))
                (omega (arith, length-drop bs rest))
            ∙ rw (append_assoc, take-append-drop, append_assoc)
      ]

  -- A block size of 0 is refused. Otherwise the loop ends, a failing reader makes it fail, and the
  -- signatures are the size and the hash of the whole input, and the hash of each of its
  -- ⌈size / bs⌉ blocks in order, the last of which may be short.
  pub compute_sigs_lem :
      (r : Reader) (bs : ℕ) (kind : String)
      → compute_sigs hash r bs kind
        ≡ some (
            if bs == 0
            then Result.err Err.other
            else if r.fails
            then Result.err Err.other
            else Result.ok (sigs_of hash r.rest bs kind))
  unfolding compute_sigs
  compute_sigs_lem r zero kind = refl
  compute_sigs_lem r (suc b) kind =
      let c = block_count_bounds (length r.rest) (suc b) (omega arith) in
      ground (
        arith,
        sign_loop_lem (length r.rest + 1) r.fails (suc b) (block_count (length r.rest) (suc b))
            r.rest [] [] (omega arith) (omega arith) c.0 c.1,
      )
