-- ===== src/Tests/Accepting.antt =====
-- A run of the guest on what the host writes to its stdin.
use ckb_vote_poc.Base.{
  ℕ, zero, suc, subst, get_elem?, Succeeds, ◌^◌, ◌<◌, ◌≡◌, refl, false, some, [], ◌∷◌, ◌++◌, length,
  ok, arith,
}
use ckb_vote_poc.Chain.{Bytes, Block}
use ckb_vote_poc.Molecule.{
  slice_range, any_decrease, collect, verify_items, verify_fields, read_number, chunk_numbers,
  check_total_size, check_offset_first, read_offsets, table_offsets, dynvec_offsets, verify_table,
  item_count, get_unchecked, pack_offsets, concat, write_table, write_dynvec,
}
use ckb_vote_poc.Molecule.BlockVec
use ckb_vote_poc.Molecule.GuestProgramArguments
use ckb_vote_poc.Molecule.Shallow.{
  verify_header_size, verify_vector_shallow, verify_block_shallow, verify_block_vec,
}
use ckb_vote_poc.Merkle.{merkle_root, merge_pairs, drain, remainder}
use ckb_vote_poc.Integrity
use ckb_vote_poc.Integrity.{
  zeros, merge, header_hash, tx_hash, witness_hash, calc_transactions_root, check_parents,
  check_roots, verify_block_integrity,
}
use ckb_vote_poc.Guest
use ckb_vote_poc.Guest.{read_blocks, decode_blocks, public_values, to_le_bytes}
use ckb_vote_poc.Host.{prepare_stdin_real}
use ckb_vote_poc.Prepare.Laws.{HasTransactionsRoot}
use ckb_vote_poc.Integrity.Laws.{LinkedAt}
use ckb_vote_poc.Molecule.Fields.{guest_program_arguments_fields}
use ckb_vote_poc.Host.Accepted.{prepare_stdin_real-Succeeds}
use ckb_vote_poc.Tests.Demo.{number_laws, builder_laws, verifier_laws}
use ckb_vote_poc.Tests.Settling.{blocks_bytes, full_slice, full_script}
use ckb_vote_poc.Tests.Hosting.{host_block, host_packages, prepared, host_prepares, prepared_size}

abbrev stdin : Bytes
stdin =
    GuestProgramArguments.build host_packages ((0 ∷ 0 ∷ 0 ∷ 0 ∷ []) ++ blocks_bytes)
      (host_packages.build_byte32_vec ((1 ∷ zeros 31) ∷ [])) full_slice

stdin_size : length stdin < 2 ^ 32
unfolding zeros GuestProgramArguments.build BlockVec.build write_dynvec write_table pack_offsets
    concat
stdin_size = omega arith

host_blocks_are_read : read_blocks host_packages blocks_bytes ≡ ok (host_block ∷ [])
unfolding read_blocks decode_blocks BlockVec.iter BlockVec.len BlockVec.build collect get_unchecked
    item_count read_number slice_range write_dynvec write_table pack_offsets concat
host_blocks_are_read = refl

host_block_alone : (i : ℕ) → LinkedAt host_packages (host_block ∷ []) i
host_block_alone i a b p q = cc

host_block-HasTransactionsRoot : HasTransactionsRoot host_packages host_block
unfolding zeros Integrity.merkle_root merkle_root merge_pairs drain remainder merge witness_hash
    tx_hash
host_block-HasTransactionsRoot = (1 ∷ zeros 31, 1 ∷ zeros 31, refl, refl, refl)

host_blocks-HasTransactionsRoot :
    (i : ℕ) (b : Block)
    → get_elem? (host_block ∷ []) i ≡ some b
    → HasTransactionsRoot host_packages b
host_blocks-HasTransactionsRoot zero b p =
    let same : host_block ≡ b = cc p in
    subst (HasTransactionsRoot host_packages) same host_block-HasTransactionsRoot
host_blocks-HasTransactionsRoot (suc i) b p = cc

host_blocks_verify : verify_block_vec host_packages blocks_bytes false ≡ ok tt
unfolding verify_header_size verify_vector_shallow verify_block_shallow verify_block_vec
    dynvec_offsets write_dynvec BlockVec.build slice_range any_decrease verify_items verify_fields
    read_number chunk_numbers check_total_size check_offset_first read_offsets table_offsets
    verify_table pack_offsets concat write_table
host_blocks_verify = refl

blocks_given :
    GuestProgramArguments.blocks host_packages prepared ≡ ok ((0 ∷ 0 ∷ 0 ∷ 0 ∷ []) ++ blocks_bytes)
blocks_given =
    let fields =
      guest_program_arguments_fields host_packages (number_laws host_block) _ _ _ prepared_size in
    fields.0

roots_given :
    GuestProgramArguments.witness_root host_packages prepared
    ≡ ok (host_packages.build_byte32_vec ((1 ∷ zeros 31) ∷ []))
roots_given =
    let fields =
      guest_program_arguments_fields host_packages (number_laws host_block) _ _ _ prepared_size in
    fields.1

stdin_is_prepared : prepare_stdin_real host_packages blocks_bytes full_script ≡ ok stdin
unfolding prepare_stdin_real
stdin_is_prepared = rw (host_prepares, blocks_given, roots_given) refl

prepare_stdin_real-Succeeds_example : Succeeds (Guest.main host_packages stdin)
prepare_stdin_real-Succeeds_example =
    prepare_stdin_real-Succeeds host_packages (number_laws host_block) (builder_laws host_block)
      (verifier_laws host_block) blocks_bytes prepared ((0 ∷ 0 ∷ 0 ∷ 0 ∷ []) ++ blocks_bytes)
      (host_packages.build_byte32_vec ((1 ∷ zeros 31) ∷ [])) stdin (host_block ∷ []) full_script
      host_blocks_are_read (λ e. cc e) host_block_alone host_blocks-HasTransactionsRoot
      host_blocks_verify host_prepares prepared_size blocks_given roots_given stdin_is_prepared
      stdin_size refl refl refl
