-- ===== src/Tests/Generating.antt =====
-- Runs of the test tool.
use ckb_vote_poc.Base.{◌^◌, ◌<◌, ◌≡◌, refl, List, [], ◌∷◌, ◌++◌, length, map, true, ok, arith}
use ckb_vote_poc.Chain.{Bytes, Block}
use ckb_vote_poc.Molecule.{
  slice_range, any_decrease, collect, get_unchecked, verify_items, verify_dynvec, dynvec_offsets,
  read_number, chunk_numbers, check_total_size, check_offset_first, read_offsets, item_count,
  inner_field, last_field, pack_offsets, concat, write_table, write_dynvec,
}
use ckb_vote_poc.Molecule.Proposal
use ckb_vote_poc.Molecule.Proposal.Builder.{ProposalBuilder}
use ckb_vote_poc.Molecule.BlockVec
use ckb_vote_poc.Molecule.Vectors.{BlockVec_iter-build}
use ckb_vote_poc.Molecule.GuestProgramArguments
use ckb_vote_poc.Merkle.{merkle_root, merge_pairs, drain, remainder}
use ckb_vote_poc.Integrity
use ckb_vote_poc.Integrity.{merge, tx_hash, witness_hash, verify_block_integrity}
use ckb_vote_poc.Guest.{read_blocks, decode_blocks, to_le_bytes}
use ckb_vote_poc.Prepare.{all_witness_root}
use ckb_vote_poc.TestTool
use ckb_vote_poc.TestTool.{
  generate_from_templates, generate_blocks, append_transactions, relink, relink_after,
  stamp_duration, last_index, rebuild_block_with_extra_tx, rebuild_header, one_output_tx,
  build_proposal_tx,
}
use ckb_vote_poc.TestTool.Laws.{generate-verify}
use ckb_vote_poc.TestTool.Total.{generate_total}
use ckb_vote_poc.Tests.Demo.{number_laws, builder_laws, no_shannon}
use ckb_vote_poc.Tests.Settling.{voted_block, guest_packages, blocks_bytes}
use ckb_vote_poc.Tests.Preparing.{blocks_are_read}

three_blocks_size :
    length (BlockVec.build guest_packages ((1 ∷ []) ∷ [] ∷ (2 ∷ 3 ∷ []) ∷ [])) < 2 ^ 32
unfolding BlockVec.build write_dynvec write_table pack_offsets concat
three_blocks_size = omega arith

BlockVec_iter-build_example :
    BlockVec.iter guest_packages (BlockVec.build guest_packages ((1 ∷ []) ∷ [] ∷ (2 ∷ 3 ∷ []) ∷ []))
    ≡ ok ((1 ∷ []) ∷ [] ∷ (2 ∷ 3 ∷ []) ∷ [])
BlockVec_iter-build_example =
    BlockVec_iter-build guest_packages (number_laws voted_block) ((1 ∷ []) ∷ [] ∷ (2 ∷ 3 ∷ []) ∷ [])
      three_blocks_size

-- A proposal that is voted on in the block after the one that creates it.
abbrev long_proposal : Bytes
long_proposal =
    Proposal.build guest_packages (1 ∷ 0 ∷ 0 ∷ 0 ∷ []) (9 ∷ []) (1 ∷ []) [] [] no_shannon no_shannon

-- The same, voted on in the block that creates it.
abbrev stamped : Bytes
stamped =
    Proposal.build guest_packages (0 ∷ 0 ∷ 0 ∷ 0 ∷ []) (9 ∷ []) (1 ∷ []) [] [] no_shannon no_shannon

abbrev generated : Bytes
generated =
    GuestProgramArguments.build guest_packages
      ((0 ∷ 0 ∷ 0 ∷ 0 ∷ []) ++ BlockVec.build guest_packages ([] ∷ [])) (3 ∷ 1 ∷ 2 ∷ 0 ∷ []) stamped

blocks_verify : BlockVec.verify guest_packages blocks_bytes true ≡ ok tt
unfolding BlockVec.verify BlockVec.build verify_dynvec dynvec_offsets check_total_size write_dynvec
    write_table pack_offsets concat read_number check_offset_first read_offsets slice_range
    any_decrease chunk_numbers verify_items
blocks_verify = refl

is_generated : generate_from_templates guest_packages long_proposal blocks_bytes ≡ ok generated
unfolding generate_from_templates generate_blocks append_transactions relink relink_after
    stamp_duration Proposal.Builder.as_builder Proposal.Builder.build Proposal.Builder.new_builder
    Proposal.Builder.with_duration Proposal.Builder.with_vote_cell_code_hash
    Proposal.Builder.with_vote_cell_hash_type Proposal.Builder.with_description
    Proposal.Builder.with_receiver Proposal.Builder.with_amount
    Proposal.Builder.with_minimal_requirement last_index rebuild_block_with_extra_tx rebuild_header
    one_output_tx build_proposal_tx TestTool.calc_transactions_root all_witness_root read_blocks
    decode_blocks BlockVec.verify BlockVec.build BlockVec.iter BlockVec.len get_unchecked collect
    verify_dynvec dynvec_offsets check_total_size write_dynvec write_table pack_offsets concat
    read_number check_offset_first read_offsets slice_range any_decrease chunk_numbers verify_items
    item_count inner_field last_field Proposal.build Proposal.duration Proposal.vote_cell_code_hash
    Proposal.vote_cell_hash_type Proposal.description Proposal.receiver Proposal.amount
    Proposal.minimal_requirement to_le_bytes Integrity.merkle_root merkle_root merge_pairs drain
    remainder merge witness_hash tx_hash GuestProgramArguments.build
is_generated = refl

generated_size : length generated < 2 ^ 32
unfolding GuestProgramArguments.build BlockVec.build Proposal.build write_dynvec write_table
    pack_offsets concat
generated_size = omega arith

generate-verify_example :
    (blocks : List Block) × (blocks_field roots_field : Bytes) × (length blocks ≡ 1)
    × (GuestProgramArguments.blocks guest_packages generated ≡ ok blocks_field)
    × (GuestProgramArguments.witness_root guest_packages generated ≡ ok roots_field)
    × (BlockVec.iter guest_packages (guest_packages.bytes_raw_data blocks_field)
        ≡ ok (map guest_packages.block_slice blocks))
    × (verify_block_integrity guest_packages blocks (guest_packages.read_byte32_vec roots_field)
        ≡ ok tt)
generate-verify_example =
    generate-verify guest_packages (number_laws voted_block) (builder_laws voted_block)
      long_proposal blocks_bytes generated (voted_block ∷ []) blocks_are_read is_generated
      generated_size

proposal_size : length long_proposal < 2 ^ 32
unfolding Proposal.build write_table pack_offsets concat
proposal_size = omega arith

generate_total_example :
    (args : Bytes) × (generate_from_templates guest_packages long_proposal blocks_bytes ≡ ok args)
generate_total_example =
    generate_total guest_packages (number_laws voted_block) (1 ∷ 0 ∷ 0 ∷ 0 ∷ []) (9 ∷ []) (1 ∷ [])
      [] [] no_shannon no_shannon refl proposal_size blocks_bytes (voted_block ∷ []) blocks_verify
      blocks_are_read (λ e. cc e)
