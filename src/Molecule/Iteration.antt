-- ===== src/Molecule/Iteration.antt =====
-- The iterator over a vector that crates/types/src/molecules/types.rs repeats for each vector type,
-- as a state that `next` changes, and the loop `for item in vector`.
use ckb_vote_poc.Base.{
  ℕ, zero, suc, ◌+◌, ◌-◌, ◌<◌, ◌≡◌, refl, ap, ◌∙◌, >>=-assoc, true, false, Option, none, some, List,
  [], ◌∷◌, leb, ltb, if◌then◌else◌, Result, ok, panic, ◌>>=◌, arith,
}
use ckb_vote_poc.Chain.{Bytes, VerificationError}
use ckb_vote_poc.Molecule.{collect}

-- `BlockVecIterator(BlockVec, usize, usize)` and its like.
pub record VecIterator : Type 0 where
  pub vector : Bytes
  pub index : ℕ
  pub end : ℕ

-- `next`
unfoldable pub next_with :
    (Bytes → ℕ → Result VerificationError Bytes)
    → VecIterator
    → Result VerificationError (Option Bytes × VecIterator)
next_with get_unchecked iterator =
    if leb iterator.end iterator.index then ok (none, iterator) else do
      ret ← get_unchecked iterator.vector iterator.index
      ok (some ret, record iterator { index = iterator.index + 1 })

-- `len`, where overflow is checked.
unfoldable pub remaining : VecIterator → Result VerificationError ℕ
remaining iterator =
    if ltb iterator.end iterator.index then panic else ok (iterator.end - iterator.index)

-- The loop that calls `next` until it has no item, at most `fuel` times.
unfoldable pub drain_with :
    (Bytes → ℕ → Result VerificationError Bytes)
    → ℕ
    → VecIterator
    → Result VerificationError (List Bytes)
drain_with get_unchecked zero iterator = panic
drain_with get_unchecked (suc fuel) iterator = do
  step ← next_with get_unchecked iterator
  elim (step.0) [
    | none ↦ ok []
    | some item ↦ (do items ← drain_with get_unchecked fuel (step.1); ok (item ∷ items))
  ]

-- The loop, with more calls of `next` at hand than there are items left, ends, and yields what
-- reading at every index from the iterator's on yields: the same items, or the same failure.
pub drain_with-collect :
    (get_unchecked : Bytes → ℕ → Result VerificationError Bytes) (vector : Bytes)
    → (fuel left index end : ℕ) → end ≡ index + left
    → left < fuel
    → drain_with get_unchecked fuel (record { vector = vector; index = index; end = end })
      ≡ collect (get_unchecked vector) left index
unfolding drain_with next_with collect
drain_with-collect get_unchecked vector zero left index end e h = absurd (omega arith)
drain_with-collect get_unchecked vector (suc fuel) zero index end e h =
    let over : leb end index ≡ true = ground arith in rw over refl
drain_with-collect get_unchecked vector (suc fuel) (suc left) index end e h =
    let more : leb end index ≡ false = ground arith in
    let rest =
      drain_with-collect get_unchecked vector fuel left (index + 1) end (omega arith)
        (omega arith) in
    rw more (
      >>=-assoc (get_unchecked vector index) _ _
      ∙ ap
          (λ items.
            get_unchecked vector index >>= λ item. items >>= λ more_items. ok (item ∷ more_items))
          rest)
