-- ===== src/Tests/Shallow.antt =====
-- A run of the full verification of a block vector, with a package that follows the schema.
use ckb_vote_poc.Base.{◌≡◌, refl, not, false, ok}
use ckb_vote_poc.Chain.{Packages}
use ckb_vote_poc.Molecule.{
  slice_range, any_decrease, verify_items, verify_fields, read_number, chunk_numbers,
  check_total_size, check_offset_first, read_offsets, table_offsets, dynvec_offsets, verify_table,
  verify_dynvec, pack_offsets, concat, write_table, write_dynvec,
}
use ckb_vote_poc.Molecule.BlockVec
use ckb_vote_poc.Molecule.Shallow.{verify_block_vec}
use ckb_vote_poc.Molecule.Schema.{block_fields, BlockSchema, full-verify_block_vec}
use ckb_vote_poc.Tests.Demo.{packages, accept, sized, sized_size}
use ckb_vote_poc.Tests.Settling.{blocks_bytes}

-- Blocks are verified, but what is inside an uncle or a transaction is not.
abbrev schema_packages : Packages
schema_packages = record packages {
  verify_block = λ slice compatible.
      verify_table packages (not compatible)
        (block_fields packages (sized 208) accept accept compatible) slice;
}

schema : BlockSchema schema_packages
unfolding verify_table table_offsets check_total_size check_offset_first read_offsets read_number
    chunk_numbers verify_dynvec dynvec_offsets
schema = record {
  verify_header = sized 208;
  verify_uncle = accept;
  verify_transaction = accept;
  header_size = sized_size 208;
  block_checked = λ slice compatible h. h;
}

blocks_conform : BlockVec.verify schema_packages blocks_bytes false ≡ ok tt
unfolding BlockVec.verify BlockVec.build verify_table table_offsets check_total_size
    check_offset_first read_offsets read_number chunk_numbers verify_dynvec dynvec_offsets
    verify_items verify_fields slice_range any_decrease pack_offsets concat write_table write_dynvec
blocks_conform = refl

full-verify_block_vec_example : verify_block_vec schema_packages blocks_bytes false ≡ ok tt
full-verify_block_vec_example =
    full-verify_block_vec schema_packages schema blocks_bytes false blocks_conform
