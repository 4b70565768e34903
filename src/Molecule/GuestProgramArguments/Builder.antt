-- ===== src/Molecule/GuestProgramArguments/Builder.antt =====
-- `GuestProgramArgumentsBuilder` of crates/types/src/molecules/types.rs. A setter's `into` is the identity here.
use ckb_vote_poc.Base.{ℕ, ◌+◌, ◌*◌, length, Result, ok, ◌>>=◌}
use ckb_vote_poc.Chain.{Bytes, Packages, VerificationError}
use ckb_vote_poc.Molecule.{number_size}
use ckb_vote_poc.Molecule.GuestProgramArguments

pub record GuestProgramArgumentsBuilder : Type 0 where
  pub blocks : Bytes
  pub witness_root : Bytes
  pub proposal_script : Bytes

unfoldable pub with_blocks : GuestProgramArgumentsBuilder → Bytes → GuestProgramArgumentsBuilder
with_blocks builder v = record builder { blocks = v }

unfoldable pub with_witness_root :
    GuestProgramArgumentsBuilder → Bytes → GuestProgramArgumentsBuilder
with_witness_root builder v = record builder { witness_root = v }

unfoldable pub with_proposal_script :
    GuestProgramArgumentsBuilder → Bytes → GuestProgramArgumentsBuilder
with_proposal_script builder v = record builder { proposal_script = v }

unfoldable pub expected_length : GuestProgramArgumentsBuilder → ℕ
expected_length builder =
    number_size * (GuestProgramArguments.field_count_const + 1)
    + length builder.blocks
    + length builder.witness_root
    + length builder.proposal_script

module _ (P : Packages) where
  unfoldable pub new_builder : GuestProgramArgumentsBuilder
  new_builder = record {
    blocks = P.default_bytes;
    witness_root = P.default_byte32_vec;
    proposal_script = P.default_script;
  }

  unfoldable pub build : GuestProgramArgumentsBuilder → Bytes
  build builder =
      GuestProgramArguments.build P builder.blocks builder.witness_root builder.proposal_script

  unfoldable pub as_builder : Bytes → Result VerificationError GuestProgramArgumentsBuilder
  as_builder entity = do
    blocks' ← GuestProgramArguments.blocks P entity
    witness_root' ← GuestProgramArguments.witness_root P entity
    proposal_script' ← GuestProgramArguments.proposal_script P entity
    ok (
        with_proposal_script (with_witness_root (with_blocks new_builder blocks') witness_root')
          proposal_script')
