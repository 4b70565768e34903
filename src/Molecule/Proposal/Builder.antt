-- ===== src/Molecule/Proposal/Builder.antt =====
-- `ProposalBuilder` of crates/types/src/molecules/types.rs. A setter's `into` is the identity here.
use ckb_vote_poc.Base.{ℕ, ◌+◌, ◌*◌, length, Result, ok, ◌>>=◌}
use ckb_vote_poc.Chain.{Bytes, Packages, VerificationError}
use ckb_vote_poc.Molecule.{number_size}
use ckb_vote_poc.Molecule.Proposal

pub record ProposalBuilder : Type 0 where
  pub duration : Bytes
  pub vote_cell_code_hash : Bytes
  pub vote_cell_hash_type : Bytes
  pub description : Bytes
  pub receiver : Bytes
  pub amount : Bytes
  pub minimal_requirement : Bytes

unfoldable pub with_duration : ProposalBuilder → Bytes → ProposalBuilder
with_duration builder v = record builder { duration = v }

unfoldable pub with_vote_cell_code_hash : ProposalBuilder → Bytes → ProposalBuilder
with_vote_cell_code_hash builder v = record builder { vote_cell_code_hash = v }

unfoldable pub with_vote_cell_hash_type : ProposalBuilder → Bytes → ProposalBuilder
with_vote_cell_hash_type builder v = record builder { vote_cell_hash_type = v }

unfoldable pub with_description : ProposalBuilder → Bytes → ProposalBuilder
with_description builder v = record builder { description = v }

unfoldable pub with_receiver : ProposalBuilder → Bytes → ProposalBuilder
with_receiver builder v = record builder { receiver = v }

unfoldable pub with_amount : ProposalBuilder → Bytes → ProposalBuilder
with_amount builder v = record builder { amount = v }

unfoldable pub with_minimal_requirement : ProposalBuilder → Bytes → ProposalBuilder
with_minimal_requirement builder v = record builder { minimal_requirement = v }

unfoldable pub expected_length : ProposalBuilder → ℕ
expected_length builder =
    number_size * (Proposal.field_count_const + 1)
    + length builder.duration
    + length builder.vote_cell_code_hash
    + length builder.vote_cell_hash_type
    + length builder.description
    + length builder.receiver
    + length builder.amount
    + length builder.minimal_requirement

module _ (P : Packages) where
  unfoldable pub new_builder : ProposalBuilder
  new_builder = record {
    duration = P.default_uint32;
    vote_cell_code_hash = P.default_byte32;
    vote_cell_hash_type = P.default_byte;
    description = P.default_bytes;
    receiver = P.default_script;
    amount = P.default_uint64;
    minimal_requirement = P.default_uint64;
  }

  unfoldable pub build : ProposalBuilder → Bytes
  build builder =
      Proposal.build P builder.duration builder.vote_cell_code_hash builder.vote_cell_hash_type
        builder.description builder.receiver builder.amount builder.minimal_requirement

  unfoldable pub as_builder : Bytes → Result VerificationError ProposalBuilder
  as_builder entity = do
    duration' ← Proposal.duration P entity
    vote_cell_code_hash' ← Proposal.vote_cell_code_hash P entity
    vote_cell_hash_type' ← Proposal.vote_cell_hash_type P entity
    description' ← Proposal.description P entity
    receiver' ← Proposal.receiver P entity
    amount' ← Proposal.amount P entity
    minimal_requirement' ← Proposal.minimal_requirement P entity
    ok (
        with_minimal_requirement
          (with_amount
            (with_receiver
              (with_description
                (with_vote_cell_hash_type
                  (with_vote_cell_code_hash (with_duration new_builder duration')
                    vote_cell_code_hash')
                  vote_cell_hash_type')
                description')
              receiver')
            amount')
          minimal_requirement')
