-- ===== src/Prepare.antt =====
-- `prepare_guest_program_arguments` of crates/verification/src/lib.rs, which the host runs.
pub mod Laws
use ckb_vote_poc.Base.{List, [], ◌∷◌, map, true, Result, ok, ◌>>=◌, ◌>>◌, unwrap, expect}
use ckb_vote_poc.Chain.{Bytes, Packages, VerificationError, Block}
use ckb_vote_poc.Molecule.BlockVec
use ckb_vote_poc.Molecule.GuestProgramArguments
use ckb_vote_poc.Integrity.{merkle_root, witness_hash}
use ckb_vote_poc.Guest.{read_blocks}

module _ (P : Packages) where
  -- The loop over the blocks.
  unfoldable pub all_witness_root : List Block → Result VerificationError (List Bytes)
  all_witness_root [] = ok []
  all_witness_root (block ∷ blocks) = do
    root ← unwrap (merkle_root P (map (witness_hash P) block.transactions))
    roots ← all_witness_root blocks
    ok (root ∷ roots)

  unfoldable pub prepare_guest_program_arguments : Bytes → Result VerificationError Bytes
  prepare_guest_program_arguments bytes = do
    expect {E = VerificationError} (BlockVec.verify P bytes true)
    blocks ← read_blocks P bytes
    roots ← all_witness_root blocks
    ok (
        GuestProgramArguments.build P (P.build_bytes bytes) (P.build_byte32_vec roots)
          P.default_script)
