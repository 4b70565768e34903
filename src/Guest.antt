-- ===== src/Guest.antt =====
-- sp1/ckb-vote-verification/program/src/main.rs: the program that runs in the zkVM. A panic means
-- that there is no proof.
pub mod Laws
pub mod Total
use ckb_vote_poc.Base.{
  ℕ, zero, suc, ◌-◌, ◌/◌, ◌%◌, false, List, [], ◌∷◌, map, length, get_elem?, if◌then◌else◌, Result,
  ok, ◌>>=◌, ◌>>◌, unwrap, expect,
}
use ckb_vote_poc.Chain.{Bytes, Packages, VerificationError, Block}
use ckb_vote_poc.Molecule.GuestProgramArguments
use ckb_vote_poc.Molecule.PublicValues
use ckb_vote_poc.Molecule.BlockVec
use ckb_vote_poc.Molecule.Shallow.{verify_block_vec}
use ckb_vote_poc.Integrity.{header_hash, verify_block_integrity}
use ckb_vote_poc.Count.{VoteResult, count_vote}

-- `n.to_le_bytes()` of `size` bytes.
unfoldable pub to_le_bytes : ℕ → ℕ → Bytes
to_le_bytes zero n = []
to_le_bytes (suc size) n = (n % 256) ∷ to_le_bytes size (n / 256)

module _ (P : Packages) where
  -- What the readers of the blocks return. The bytes inside a transaction were not verified, and a
  -- reader that finds them malformed panics.
  unfoldable pub decode_blocks : List Bytes → Result VerificationError (List Block)
  decode_blocks [] = ok []
  decode_blocks (slice ∷ slices) = do
    block ← unwrap (P.read_block slice)
    blocks ← decode_blocks slices
    ok (block ∷ blocks)

  -- The blocks that the reader of a block vector yields.
  unfoldable pub read_blocks : Bytes → Result VerificationError (List Block)
  read_blocks blocks_bytes = do slices ← BlockVec.iter P blocks_bytes; decode_blocks slices

  -- The public values that are committed.
  unfoldable pub public_values : Bytes → Bytes → Bytes → VoteResult → Bytes
  public_values start_hash end_hash proposal_script result =
      PublicValues.build P result.proposal start_hash end_hash proposal_script
        ((if result.passed then 1 else 0) ∷ []) (to_le_bytes 8 result.yes_vote)
        (to_le_bytes 8 result.no_vote)

  -- From the argument bytes to the committed bytes.
  unfoldable pub main : Bytes → Result VerificationError Bytes
  main args_bytes = do
    args ← expect (GuestProgramArguments.from_slice P args_bytes)
    blocks_field ← GuestProgramArguments.blocks P args
    let blocks_bytes = P.bytes_raw_data blocks_field
    expect {E = VerificationError} (verify_block_vec P blocks_bytes false)
    blocks ← read_blocks blocks_bytes
    witness_root ← GuestProgramArguments.witness_root P args
    expect (verify_block_integrity P blocks (P.read_byte32_vec witness_root))
    first_block ← unwrap (get_elem? blocks 0)
    last_block ← unwrap (get_elem? blocks (length blocks - 1))
    proposal_script ← GuestProgramArguments.proposal_script P args
    result ← count_vote P blocks (P.read_script proposal_script)
    ok (
        public_values (header_hash P first_block.header) (header_hash P last_block.header)
          proposal_script result)
