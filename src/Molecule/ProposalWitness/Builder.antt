-- ===== src/Molecule/ProposalWitness/Builder.antt =====
-- `ProposalWitnessBuilder` of crates/types/src/molecules/types.rs. A setter's `into` is the identity here.
use ckb_vote_poc.Base.{ℕ, ◌+◌, ◌*◌, length, Result, ok, ◌>>=◌}
use ckb_vote_poc.Chain.{Bytes, Packages, VerificationError}
use ckb_vote_poc.Molecule.{number_size}
use ckb_vote_poc.Molecule.ProposalWitness
use ckb_vote_poc.Molecule.PublicValues

pub record ProposalWitnessBuilder : Type 0 where
  pub proof : Bytes
  pub public_values : Bytes

unfoldable pub with_proof : ProposalWitnessBuilder → Bytes → ProposalWitnessBuilder
with_proof builder v = record builder { proof = v }

unfoldable pub with_public_values : ProposalWitnessBuilder → Bytes → ProposalWitnessBuilder
with_public_values builder v = record builder { public_values = v }

unfoldable pub expected_length : ProposalWitnessBuilder → ℕ
expected_length builder =
    number_size * (ProposalWitness.field_count_const + 1)
    + length builder.proof
    + length builder.public_values

module _ (P : Packages) where
  unfoldable pub new_builder : ProposalWitnessBuilder
  new_builder = record { proof = P.default_bytes; public_values = PublicValues.default_value }

  unfoldable pub build : ProposalWitnessBuilder → Bytes
  build builder = ProposalWitness.build P builder.proof builder.public_values

  unfoldable pub as_builder : Bytes → Result VerificationError ProposalWitnessBuilder
  as_builder entity = do
    proof' ← ProposalWitness.proof P entity
    public_values' ← ProposalWitness.public_values P entity
    ok (with_public_values (with_proof new_builder proof') public_values')
