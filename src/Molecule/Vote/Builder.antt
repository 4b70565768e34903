-- ===== src/Molecule/Vote/Builder.antt =====
-- `VoteBuilder` of crates/types/src/molecules/types.rs. A setter's `into` is the identity here.
use ckb_vote_poc.Base.{ℕ, ◌+◌, ◌*◌, length, Result, ok, ◌>>=◌}
use ckb_vote_poc.Chain.{Bytes, Packages, VerificationError}
use ckb_vote_poc.Molecule.{number_size}
use ckb_vote_poc.Molecule.Vote
use ckb_vote_poc.Molecule.Uint16Vec

pub record VoteBuilder : Type 0 where
  pub vote : Bytes
  pub amount : Bytes
  pub dao_index : Bytes

unfoldable pub with_vote : VoteBuilder → Bytes → VoteBuilder
with_vote builder v = record builder { vote = v }

unfoldable pub with_amount : VoteBuilder → Bytes → VoteBuilder
with_amount builder v = record builder { amount = v }

unfoldable pub with_dao_index : VoteBuilder → Bytes → VoteBuilder
with_dao_index builder v = record builder { dao_index = v }

unfoldable pub expected_length : VoteBuilder → ℕ
expected_length builder =
    number_size * (Vote.field_count_const + 1)
    + length builder.vote
    + length builder.amount
    + length builder.dao_index

module _ (P : Packages) where
  unfoldable pub new_builder : VoteBuilder
  new_builder = record {
    vote = P.default_byte;
    amount = P.default_uint64;
    dao_index = Uint16Vec.default_value;
  }

  unfoldable pub build : VoteBuilder → Bytes
  build builder = Vote.build P builder.vote builder.amount builder.dao_index

  unfoldable pub as_builder : Bytes → Result VerificationError VoteBuilder
  as_builder entity = do
    vote' ← Vote.vote P entity
    amount' ← Vote.amount P entity
    dao_index' ← Vote.dao_index P entity
    ok (with_dao_index (with_amount (with_vote new_builder vote') amount') dao_index')
