-- ===== src/Count/Read.antt =====
-- What `count_vote` of crates/verification/src/lib.rs reads of a proposal's and of a vote's bytes.
use ckb_vote_poc.Base.{
  ℕ, ◌+◌, ◌*◌, Option, none, some, List, [], ◌∷◌, length, get_elem?, ◌==◌, if◌then◌else◌, Result,
  ok, err, panic, ◌>>=◌, unwrap,
}
use ckb_vote_poc.Chain.{Bytes, Packages, VerificationError}
use ckb_vote_poc.Molecule.Vote
use ckb_vote_poc.Molecule.Proposal
use ckb_vote_poc.Molecule.Uint16Vec

abbrev pub little_endian : Bytes → ℕ
little_endian [] = 0
little_endian (b ∷ bs) = b + 256 * little_endian bs

-- `uN::from_le_bytes(slice.try_into().unwrap())` for a number of `size` bytes.
unfoldable pub from_le_bytes : ℕ → Bytes → Result VerificationError ℕ
from_le_bytes size slice = if length slice == size then ok (little_endian slice) else panic

-- `.ok()`
abbrev pub ok_option {ℓ} :
    {A : Type ℓ} → Result VerificationError A → Result VerificationError (Option A)
ok_option (ok a) = ok (some a)
ok_option (err e) = ok none
ok_option panic = panic

-- What `count_vote` reads of the proposal.
pub record Terms : Type 0 where
  pub vote_code_hash : Bytes
  pub vote_hash_type : Bytes
  pub minimal_req : ℕ
  pub duration : ℕ

-- What `count_vote` reads of a vote cell's data.
pub record Ballot : Type 0 where
  pub direction : ℕ
  pub amount : ℕ
  pub dao_index : List ℕ

-- `u16::from_le_bytes` of each item.
unfoldable pub read_indices : List Bytes → Result VerificationError (List ℕ)
unfolding from_le_bytes
read_indices [] = ok []
read_indices (item ∷ items) = do
  idx ← from_le_bytes 2 item
  rest ← read_indices items
  ok (idx ∷ rest)

module _ (P : Packages) where
  unfoldable pub read_terms : Bytes → Result VerificationError Terms
  read_terms proposal = do
    code_hash ← Proposal.vote_cell_code_hash P proposal
    hash_type ← Proposal.vote_cell_hash_type P proposal
    minimal ← Proposal.minimal_requirement P proposal
    minimal_req ← from_le_bytes 8 minimal
    window ← Proposal.duration P proposal
    duration ← from_le_bytes 4 window
    ok (record {
      vote_code_hash = code_hash;
      vote_hash_type = hash_type;
      minimal_req = minimal_req;
      duration = duration;
    })

  unfoldable pub read_ballot : Bytes → Result VerificationError Ballot
  read_ballot vote = do
    value ← Vote.vote P vote
    direction ← unwrap (get_elem? value 0)
    shannon ← Vote.amount P vote
    amount ← from_le_bytes 8 shannon
    indices ← Vote.dao_index P vote
    items ← Uint16Vec.iter P indices
    dao_index ← read_indices items
    ok (record { direction = direction; amount = amount; dao_index = dao_index })
