-- ===== src/Count/Ballots.antt =====
-- Vote cells written with the little-endian numbers of Rust's `to_le_bytes`, and what `count_vote` of
-- crates/verification/src/lib.rs reads of them.
use ckb_vote_poc.Base.{
  ℕ, zero, suc, ◌+◌, ◌*◌, ◌/◌, ◌^◌, ◌<◌, ◌≡◌, refl, ap, true, List, [], ◌∷◌, map, length,
  length-map, All, ◌==◌, length-append, ok, ◌++◌, arith,
}
use ckb_vote_poc.Chain.{Packages, NumberLaws}
use ckb_vote_poc.Molecule.{concat}
use ckb_vote_poc.Molecule.Vote
use ckb_vote_poc.Molecule.Uint16Vec
use ckb_vote_poc.Molecule.Layout.{length-write_table}
use ckb_vote_poc.Molecule.Fields.{vote_fields}
use ckb_vote_poc.Molecule.Uint16Vec.RoundTrip.{IsUint16s, length-concat, Uint16Vec_iter-build}
use ckb_vote_poc.Count.Read.{little_endian, from_le_bytes, read_indices, read_ballot}
use ckb_vote_poc.Guest.{to_le_bytes}

pub length-to_le_bytes : (size n : ℕ) → length (to_le_bytes size n) ≡ size
unfolding to_le_bytes
length-to_le_bytes zero n = refl
length-to_le_bytes (suc size) n = ap suc (length-to_le_bytes size (n / 256))

-- The numbers of so many bytes, without a power that would have to be computed.
abbrev capacity : ℕ → ℕ
capacity zero = 1
capacity (suc size) = 256 * capacity size

little_endian-to_le_bytes :
    (size n : ℕ) → n < capacity size → little_endian (to_le_bytes size n) ≡ n
unfolding to_le_bytes
little_endian-to_le_bytes zero n h = omega arith
little_endian-to_le_bytes (suc size) n h =
    omega (arith, little_endian-to_le_bytes size (n / 256) (omega arith))

from_le_bytes-to_le_bytes :
    (size n : ℕ) → n < capacity size → from_le_bytes size (to_le_bytes size n) ≡ ok n
unfolding from_le_bytes
from_le_bytes-to_le_bytes size n h =
    let sized : (length (to_le_bytes size n) == size) ≡ true =
      let e = length-to_le_bytes size n in ground arith in
    rw sized (ap ok (little_endian-to_le_bytes size n h))

read_indices-map :
    (indices : List ℕ)
    → All (λ idx. idx < 2 ^ 16) indices
    → read_indices (map (to_le_bytes 2) indices) ≡ ok indices
unfolding read_indices
read_indices-map [] few = refl
read_indices-map (idx ∷ indices) (small, few) =
    rw (from_le_bytes-to_le_bytes 2 idx small, read_indices-map indices few) refl

uint16s : (indices : List ℕ) → IsUint16s (map (to_le_bytes 2) indices)
uint16s [] = tt
uint16s (idx ∷ indices) = (length-to_le_bytes 2 idx, uint16s indices)

module _ (P : Packages) (L : NumberLaws P) where
  vote_size :
      (direction amount : ℕ) (indices : List ℕ)
      → length (
          Vote.build P
            (direction ∷ [])
            (to_le_bytes 8 amount)
            (Uint16Vec.build P (map (to_le_bytes 2) indices)))
        ≡ 29 + 2 * length indices
  unfolding Vote.build Uint16Vec.build concat
  vote_size direction amount indices =
      let items = map (to_le_bytes 2) indices in
      let vec = P.pack_number (length items) ++ concat items in
      omega (
        arith,
        length-write_table P L ((direction ∷ []) ∷ to_le_bytes 8 amount ∷ vec ∷ []),
        length-append (to_le_bytes 8 amount) (vec ++ []),
        length-append vec [],
        length-append (P.pack_number (length items)) (concat items),
        length-concat items (uint16s indices),
        length-map indices (to_le_bytes 2),
        length-to_le_bytes 8 amount,
        L.pack_length (length items),
      )

  -- If numbers follow the molecule format, counting reads from a vote cell exactly the direction, the
  -- amount and the deposit indices that were written into it, as long as the amount has 64 bits, each
  -- index 16, and the cell's size fits a molecule number.
  pub read_ballot-build :
      (direction amount : ℕ) (dao_index : List ℕ)
      → amount < 2 ^ 64
      → All (λ idx. idx < 2 ^ 16) dao_index
      → 29 + 2 * length dao_index < 2 ^ 32
      → read_ballot P (
          Vote.build P
            (direction ∷ [])
            (to_le_bytes 8 amount)
            (Uint16Vec.build P (map (to_le_bytes 2) dao_index)))
        ≡ ok (record { direction = direction; amount = amount; dao_index = dao_index })
  unfolding read_ballot
  read_ballot-build direction amount dao_index fits small few =
      let (f₁, f₂, f₃) =
        vote_fields P L (direction ∷ []) (to_le_bytes 8 amount)
          (Uint16Vec.build P (map (to_le_bytes 2) dao_index))
          (omega (arith, vote_size direction amount dao_index)) in
      rw
        (
          f₁,
          f₂,
          f₃,
          from_le_bytes-to_le_bytes 8 amount fits,
          Uint16Vec_iter-build P L (map (to_le_bytes 2) dao_index) (uint16s dao_index)
              (omega (arith, length-map dao_index (to_le_bytes 2))),
          read_indices-map dao_index small,
        )
        refl
