-- ===== src/Molecule/Uint16Vec/Builder.antt =====
-- `Uint16VecBuilder` and `Uint16VecIterator` of crates/types/src/molecules/types.rs, whose state is
-- the builder's vector of items and the iterator's two indices. A setter's `into` is the identity
-- here.
use ckb_vote_poc.Base.{
  ℕ, ◌+◌, ◌*◌, Option, List, [], ◌∷◌, ◌++◌, length, get_elem?, set_elem, Result, ok, ◌>>=◌, suc,
}
use ckb_vote_poc.Chain.{Bytes, Packages, VerificationError}
use ckb_vote_poc.Molecule.{number_size}
use ckb_vote_poc.Molecule.Iteration.{VecIterator, next_with, drain_with}
use ckb_vote_poc.Molecule.Uint16Vec
use ckb_vote_poc.Molecule.Uint16Vec.{item_size, get_unchecked}

pub record Uint16VecBuilder : Type 0 where
  pub items : List Bytes

abbrev pub new_builder : Uint16VecBuilder
new_builder = record { items = [] }

unfoldable pub set : Uint16VecBuilder → List Bytes → Uint16VecBuilder
set builder v = record builder { items = v }

unfoldable pub push : Uint16VecBuilder → Bytes → Uint16VecBuilder
push builder v = record builder { items = builder.items ++ (v ∷ []) }

unfoldable pub extend : Uint16VecBuilder → List Bytes → Uint16VecBuilder
extend builder iter = record builder { items = builder.items ++ iter }

-- The old item at the index, if there is one, and the builder with the new one in its place.
unfoldable pub replace : Uint16VecBuilder → ℕ → Bytes → Option Bytes × Uint16VecBuilder
replace builder index v =
    (get_elem? builder.items index, record builder { items = set_elem builder.items index v })

unfoldable pub expected_length : Uint16VecBuilder → ℕ
expected_length builder = number_size + item_size * length builder.items

module _ (P : Packages) where
  unfoldable pub build : Uint16VecBuilder → Bytes
  build builder = Uint16Vec.build P builder.items

  unfoldable pub into_iter : Bytes → Result VerificationError VecIterator
  into_iter vector = do
    len ← Uint16Vec.len P vector
    ok (record { vector = vector; index = 0; end = len })

  -- `extend` calls `next` once more than there are items.
  unfoldable pub as_builder : Bytes → Result VerificationError Uint16VecBuilder
  as_builder vector = do
    iterator ← into_iter vector
    items ← drain_with get_unchecked (suc iterator.end) iterator
    ok (extend new_builder items)

  unfoldable pub from_iter : List Bytes → Bytes
  from_iter iter = build (extend new_builder iter)

  -- `v.into_iter().collect()`
  unfoldable pub from_vec : List Bytes → Bytes
  from_vec v = from_iter v

unfoldable pub next : VecIterator → Result VerificationError (Option Bytes × VecIterator)
next = next_with get_unchecked
