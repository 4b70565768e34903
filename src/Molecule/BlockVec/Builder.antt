-- ===== src/Molecule/BlockVec/Builder.antt =====
-- `BlockVecBuilder` and `BlockVecIterator` of crates/types/src/molecules/types.rs, whose state is the
-- builder's vector of blocks and the iterator's two indices. A setter's `into` is the identity here.
use ckb_vote_poc.Base.{
  ℕ, ◌+◌, ◌*◌, Option, List, [], ◌∷◌, ◌++◌, map, length, sum, get_elem?, set_elem, Result, ok,
  ◌>>=◌, suc,
}
use ckb_vote_poc.Chain.{Bytes, Packages, VerificationError}
use ckb_vote_poc.Molecule.{number_size, get_unchecked}
use ckb_vote_poc.Molecule.Iteration.{VecIterator, next_with, drain_with}
use ckb_vote_poc.Molecule.BlockVec

pub record BlockVecBuilder : Type 0 where
  pub blocks : List Bytes

abbrev pub new_builder : BlockVecBuilder
new_builder = record { blocks = [] }

unfoldable pub set : BlockVecBuilder → List Bytes → BlockVecBuilder
set builder v = record builder { blocks = v }

unfoldable pub push : BlockVecBuilder → Bytes → BlockVecBuilder
push builder v = record builder { blocks = builder.blocks ++ (v ∷ []) }

unfoldable pub extend : BlockVecBuilder → List Bytes → BlockVecBuilder
extend builder iter = record builder { blocks = builder.blocks ++ iter }

-- The old block at the index, if there is one, and the builder with the new one in its place.
unfoldable pub replace : BlockVecBuilder → ℕ → Bytes → Option Bytes × BlockVecBuilder
replace builder index v =
    (get_elem? builder.blocks index, record builder { blocks = set_elem builder.blocks index v })

unfoldable pub expected_length : BlockVecBuilder → ℕ
expected_length builder =
    number_size * (length builder.blocks + 1) + sum (map length builder.blocks)

module _ (P : Packages) where
  unfoldable pub build : BlockVecBuilder → Bytes
  build builder = BlockVec.build P builder.blocks

  unfoldable pub into_iter : Bytes → Result VerificationError VecIterator
  into_iter vector = do
    len ← BlockVec.len P vector
    ok (record { vector = vector; index = 0; end = len })

  unfoldable pub next : VecIterator → Result VerificationError (Option Bytes × VecIterator)
  next = next_with (get_unchecked P)

  -- `extend` calls `next` once more than there are blocks.
  unfoldable pub as_builder : Bytes → Result VerificationError BlockVecBuilder
  as_builder vector = do
    iterator ← into_iter vector
    blocks ← drain_with (get_unchecked P) (suc iterator.end) iterator
    ok (extend new_builder blocks)

  unfoldable pub from_iter : List Bytes → Bytes
  from_iter iter = build (extend new_builder iter)

  -- `v.into_iter().collect()`
  unfoldable pub from_vec : List Bytes → Bytes
  from_vec v = from_iter v
