-- ===== src/TestTool.antt =====
-- crates/testtool/src/lib.rs: blocks with a proposal and votes, made from template blocks. The bytes
-- inside chain data stand for their own `blockchain::Bytes`. A field that a builder is not given has
-- the default of its type, which is of the packages.
pub mod Laws
pub mod Total
use ckb_vote_poc.Base.{
  ℕ, true, zero, suc, ◌+◌, ◌-◌, ◌%◌, ◌^◌, some, List, [], ◌∷◌, ◌++◌, map, length, take, ◌==◌,
  if◌then◌else◌, Result, ok, err, panic, ◌>>=◌, ◌>>◌, unwrap,
}
use ckb_vote_poc.Chain.{
  Bytes, Packages, VerificationError, Script, CellOutput, RawTransaction, Transaction, Header,
  Block,
}
use ckb_vote_poc.Molecule.Uint16Vec
use ckb_vote_poc.Molecule.Vote
use ckb_vote_poc.Molecule.Proposal
use ckb_vote_poc.Molecule.Proposal.Builder.{ProposalBuilder}
use ckb_vote_poc.Molecule.Vote.Builder.{VoteBuilder}
use ckb_vote_poc.Molecule.BlockVec
use ckb_vote_poc.Molecule.GuestProgramArguments
use ckb_vote_poc.Integrity.{merkle_root, header_hash, tx_hash, witness_hash}
use ckb_vote_poc.Guest.{to_le_bytes, read_blocks}
use ckb_vote_poc.Prepare.{all_witness_root}

pub data Error : Type 0 where
  parse : VerificationError → Error

-- The conversion of a `?`.
abbrev pub from_verification : {A : Type 0} → Result VerificationError A → Result Error A
from_verification (ok a) = ok a
from_verification (err e) = err (parse e)
from_verification panic = panic

-- The header with another parent hash and another transactions root.
unfoldable pub rebuild_header : Header → Bytes → Bytes → Header
rebuild_header header parent_hash transactions_root = record {
  raw = record {
    version = header.raw.version;
    compact_target = header.raw.compact_target;
    timestamp = header.raw.timestamp;
    number = header.raw.number;
    epoch = header.raw.epoch;
    parent_hash = parent_hash;
    transactions_root = transactions_root;
    proposals_hash = header.raw.proposals_hash;
    extra_hash = header.raw.extra_hash;
    dao = header.raw.dao;
  };
  nonce = header.nonce;
}

-- `(num_blocks - 1) as u32`, which panics at 0 where overflow is checked, as in the tests.
unfoldable pub last_index : ℕ → Result VerificationError ℕ
last_index zero = panic
last_index (suc n) = ok (n % 2 ^ 32)

module _ (P : Packages) where
  unfoldable pub blake160 : Bytes → Bytes
  blake160 data_ = take 20 (P.blake2b data_)

  unfoldable pub calc_transactions_root : List Transaction → Result VerificationError Bytes
  calc_transactions_root txs = do
    raw_root ← unwrap (merkle_root P (map (tx_hash P) txs))
    witness_root ← unwrap (merkle_root P (map (witness_hash P) txs))
    unwrap (merkle_root P (raw_root ∷ witness_root ∷ []))

  -- The transaction with one output that both builders make.
  unfoldable pub one_output_tx : Script → Script → Bytes → Transaction
  one_output_tx lock type_script data_ = record {
    raw = record {
      version = P.empty_raw_transaction.version;
      cell_deps = P.empty_raw_transaction.cell_deps;
      header_deps = P.empty_raw_transaction.header_deps;
      inputs = P.empty_raw_transaction.inputs;
      outputs =
          record { capacity = P.empty_cell_output.capacity; lock = lock; type_ = some type_script }
          ∷ [];
      outputs_data = data_ ∷ [];
    };
    witnesses = P.empty_transaction.witnesses;
  }

  unfoldable pub build_proposal_tx : Bytes → Script → Transaction
  build_proposal_tx proposal proposal_script = one_output_tx P.empty_script proposal_script proposal

  -- A YES of 100 shannon without deposits, under a lock of the voter's own.
  unfoldable pub build_vote_tx : Script → ℕ → Transaction
  build_vote_tx vote_type_script voter_index =
      let lock : Script = record {
        code_hash = P.empty_script.code_hash;
        hash_type = P.empty_script.hash_type;
        args = to_le_bytes 8 voter_index;
      } in
      one_output_tx lock vote_type_script (
        Vote.Builder.build P (
          Vote.Builder.with_amount (Vote.Builder.with_vote (Vote.Builder.new_builder P) (1 ∷ []))
            (to_le_bytes 8 100)))

  unfoldable pub rebuild_block_with_extra_tx : Block → Transaction → Result VerificationError Block
  rebuild_block_with_extra_tx template extra_tx = do
    let txs = template.transactions ++ (extra_tx ∷ [])
    new_transactions_root ← calc_transactions_root txs
    ok (record {
      header = rebuild_header template.header template.header.raw.parent_hash new_transactions_root;
      uncles = template.uncles;
      transactions = txs;
      proposals = template.proposals;
    })

  -- `for i in 0..num_blocks`
  unfoldable pub append_transactions :
      Bytes → Script → Script → ℕ → List Block → Result VerificationError (List Block)
  append_transactions proposal proposal_script vote_type_script i [] = ok []
  append_transactions proposal proposal_script vote_type_script i (template ∷ templates) = do
    block ← rebuild_block_with_extra_tx template (
        if i == 0
        then build_proposal_tx proposal proposal_script
        else build_vote_tx vote_type_script i)
    blocks ← append_transactions proposal proposal_script vote_type_script (i + 1) templates
    ok (block ∷ blocks)

  -- The block with the hash of the parent's header.
  unfoldable pub relink_block : Block → Block → Block
  relink_block parent old = record {
    header =
        rebuild_header old.header (header_hash P parent.header) old.header.raw.transactions_root;
    uncles = old.uncles;
    transactions = old.transactions;
    proposals = old.proposals;
  }

  -- `for i in 1..blocks.len()`, after the block `parent`, whose own header was recomputed.
  unfoldable pub relink_after : List Block → Block → List Block
  relink_after [] parent = []
  relink_after (old ∷ blocks) parent =
      relink_block parent old ∷ relink_after blocks (relink_block parent old)

  unfoldable pub relink : List Block → List Block
  relink [] = []
  relink (first ∷ blocks) = first ∷ relink_after blocks first

  -- `proposal.as_builder().duration(...).build()`
  unfoldable pub stamp_duration : Bytes → Bytes → Result VerificationError Bytes
  stamp_duration proposal duration' = do
    builder ← Proposal.Builder.as_builder P proposal
    ok (Proposal.Builder.build P (Proposal.Builder.with_duration builder duration'))

  unfoldable pub generate_blocks :
      Bytes → List Block → Result VerificationError (List Block × Script)
  generate_blocks proposal templates = do
    duration ← last_index (length templates)
    stamped ← stamp_duration proposal (to_le_bytes 4 duration)
    let proposal_script : Script = record {
      code_hash = P.blake2b stamped;
      hash_type = P.empty_script.hash_type;
      args = P.empty_script.args;
    }
    vote_cell_code_hash ← Proposal.vote_cell_code_hash P stamped
    vote_cell_hash_type ← Proposal.vote_cell_hash_type P stamped
    let vote_type_script : Script = record {
      code_hash = vote_cell_code_hash;
      hash_type = vote_cell_hash_type;
      args = blake160 (P.script_slice proposal_script);
    }
    blocks ← append_transactions stamped proposal_script vote_type_script 0 templates
    ok (relink blocks, proposal_script)

  unfoldable pub generate_from_templates : Bytes → Bytes → Result Error Bytes
  generate_from_templates proposal template_blocks = from_verification (do
    BlockVec.verify P template_blocks true
    templates ← read_blocks P template_blocks
    generated ← generate_blocks proposal templates
    witness_roots ← all_witness_root P (generated.0)
    ok (
        GuestProgramArguments.build P
          (P.build_bytes (BlockVec.build P (map P.block_slice (generated.0))))
          (P.build_byte32_vec witness_roots) (P.script_slice (generated.1))))
