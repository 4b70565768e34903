-- ===== src/Tests/Preparing.antt =====
-- A run of the preparation of the guest's arguments.
use ckb_vote_poc.Base.{
  ℕ, zero, suc, ◌^◌, ◌<◌, ◌≡◌, refl, some, [], ◌∷◌, ◌++◌, length, get_elem?, arith, ok, subst,
}
use ckb_vote_poc.Chain.{Bytes, Block}
use ckb_vote_poc.Molecule.{
  slice_range, any_decrease, collect, verify_items, read_number, chunk_numbers, check_total_size,
  check_offset_first, read_offsets, dynvec_offsets, verify_dynvec, item_count, get_unchecked,
  pack_offsets, concat, write_table, write_dynvec,
}
use ckb_vote_poc.Molecule.BlockVec
use ckb_vote_poc.Molecule.GuestProgramArguments
use ckb_vote_poc.Merkle.{merkle_root, merge_pairs, drain, remainder}
use ckb_vote_poc.Integrity
use ckb_vote_poc.Integrity.{merge, tx_hash, witness_hash, verify_block_integrity}
use ckb_vote_poc.Integrity.Laws.{LinkedAt}
use ckb_vote_poc.Guest.{read_blocks, decode_blocks}
use ckb_vote_poc.Prepare.{all_witness_root, prepare_guest_program_arguments}
use ckb_vote_poc.Prepare.Laws.{HasTransactionsRoot, prepare-verify}
use ckb_vote_poc.Tests.Demo.{number_laws, builder_laws}
use ckb_vote_poc.Tests.Settling.{voted_block, guest_packages, blocks_bytes}

abbrev prepared : Bytes
prepared =
    GuestProgramArguments.build guest_packages ((0 ∷ 0 ∷ 0 ∷ 0 ∷ []) ++ blocks_bytes)
      (2 ∷ 3 ∷ 0 ∷ []) []

pub blocks_are_read : read_blocks guest_packages blocks_bytes ≡ ok (voted_block ∷ [])
unfolding read_blocks decode_blocks BlockVec.iter BlockVec.len BlockVec.build collect get_unchecked
    item_count read_number slice_range write_dynvec write_table pack_offsets concat
blocks_are_read = refl

arguments_are_prepared : prepare_guest_program_arguments guest_packages blocks_bytes ≡ ok prepared
unfolding prepare_guest_program_arguments all_witness_root read_blocks decode_blocks BlockVec.iter
    BlockVec.len BlockVec.build BlockVec.verify verify_dynvec dynvec_offsets verify_items
    check_total_size check_offset_first read_offsets chunk_numbers any_decrease collect
    get_unchecked item_count read_number slice_range write_dynvec write_table pack_offsets concat
    GuestProgramArguments.build Integrity.merkle_root merkle_root merge_pairs drain remainder merge
    witness_hash
arguments_are_prepared = refl

alone : (i : ℕ) → LinkedAt guest_packages (voted_block ∷ []) i
alone i a b p q = cc

voted_block-HasTransactionsRoot : HasTransactionsRoot guest_packages voted_block
unfolding Integrity.merkle_root merkle_root merge_pairs drain remainder merge witness_hash tx_hash
voted_block-HasTransactionsRoot = (1 ∷ 2 ∷ [], 1 ∷ 2 ∷ [], refl, refl, refl)

every-HasTransactionsRoot :
    (i : ℕ) (b : Block)
    → get_elem? (voted_block ∷ []) i ≡ some b
    → HasTransactionsRoot guest_packages b
every-HasTransactionsRoot zero b p =
    let same : voted_block ≡ b = cc p in
    subst (HasTransactionsRoot guest_packages) same voted_block-HasTransactionsRoot
every-HasTransactionsRoot (suc i) b p = cc

prepared_size : length prepared < 2 ^ 32
unfolding GuestProgramArguments.build BlockVec.build write_dynvec write_table pack_offsets concat
prepared_size = omega arith

prepare-verify_example :
    (blocks_field roots_field : Bytes) × (GuestProgramArguments.blocks guest_packages prepared
      ≡ ok blocks_field)
    × (GuestProgramArguments.witness_root guest_packages prepared ≡ ok roots_field)
    × (guest_packages.bytes_raw_data blocks_field ≡ blocks_bytes)
    × (verify_block_integrity guest_packages
          (voted_block ∷ [])
          (guest_packages.read_byte32_vec roots_field)
        ≡ ok tt)
prepare-verify_example =
    prepare-verify guest_packages (number_laws voted_block) (builder_laws voted_block) blocks_bytes
      prepared (voted_block ∷ []) blocks_are_read (λ e. cc e) alone every-HasTransactionsRoot
      arguments_are_prepared prepared_size
