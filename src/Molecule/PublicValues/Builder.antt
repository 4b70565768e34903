-- ===== src/Molecule/PublicValues/Builder.antt =====
-- `PublicValuesBuilder` of crates/types/src/molecules/types.rs. A setter's `into` is the identity here.
use ckb_vote_poc.Base.{ℕ, ◌+◌, ◌*◌, length, Result, ok, ◌>>=◌}
use ckb_vote_poc.Chain.{Bytes, Packages, VerificationError}
use ckb_vote_poc.Molecule.{number_size}
use ckb_vote_poc.Molecule.PublicValues
use ckb_vote_poc.Molecule.Proposal

pub record PublicValuesBuilder : Type 0 where
  pub proposal : Bytes
  pub start_block_hash : Bytes
  pub end_block_hash : Bytes
  pub proposal_script : Bytes
  pub passed : Bytes
  pub yes_vote : Bytes
  pub no_vote : Bytes

unfoldable pub with_proposal : PublicValuesBuilder → Bytes → PublicValuesBuilder
with_proposal builder v = record builder { proposal = v }

unfoldable pub with_start_block_hash : PublicValuesBuilder → Bytes → PublicValuesBuilder
with_start_block_hash builder v = record builder { start_block_hash = v }

unfoldable pub with_end_block_hash : PublicValuesBuilder → Bytes → PublicValuesBuilder
with_end_block_hash builder v = record builder { end_block_hash = v }

unfoldable pub with_proposal_script : PublicValuesBuilder → Bytes → PublicValuesBuilder
with_proposal_script builder v = record builder { proposal_script = v }

unfoldable pub with_passed : PublicValuesBuilder → Bytes → PublicValuesBuilder
with_passed builder v = record builder { passed = v }

unfoldable pub with_yes_vote : PublicValuesBuilder → Bytes → PublicValuesBuilder
with_yes_vote builder v = record builder { yes_vote = v }

unfoldable pub with_no_vote : PublicValuesBuilder → Bytes → PublicValuesBuilder
with_no_vote builder v = record builder { no_vote = v }

unfoldable pub expected_length : PublicValuesBuilder → ℕ
expected_length builder =
    number_size * (PublicValues.field_count_const + 1)
    + length builder.proposal
    + length builder.start_block_hash
    + length builder.end_block_hash
    + length builder.proposal_script
    + length builder.passed
    + length builder.yes_vote
    + length builder.no_vote

module _ (P : Packages) where
  unfoldable pub new_builder : PublicValuesBuilder
  new_builder = record {
    proposal = Proposal.default_value;
    start_block_hash = P.default_byte32;
    end_block_hash = P.default_byte32;
    proposal_script = P.default_script;
    passed = P.default_byte;
    yes_vote = P.default_uint64;
    no_vote = P.default_uint64;
  }

  unfoldable pub build : PublicValuesBuilder → Bytes
  build builder =
      PublicValues.build P builder.proposal builder.start_block_hash builder.end_block_hash
        builder.proposal_script builder.passed builder.yes_vote builder.no_vote

  unfoldable pub as_builder : Bytes → Result VerificationError PublicValuesBuilder
  as_builder entity = do
    proposal' ← PublicValues.proposal P entity
    start_block_hash' ← PublicValues.start_block_hash P entity
    end_block_hash' ← PublicValues.end_block_hash P entity
    proposal_script' ← PublicValues.proposal_script P entity
    passed' ← PublicValues.passed P entity
    yes_vote' ← PublicValues.yes_vote P entity
    no_vote' ← PublicValues.no_vote P entity
    ok (
        with_no_vote
          (with_yes_vote
            (with_passed
              (with_proposal_script
                (with_end_block_hash
                  (with_start_block_hash (with_proposal new_builder proposal') start_block_hash')
                  end_block_hash')
                proposal_script')
              passed')
            yes_vote')
          no_vote')
