-- ===== src/Tests/Rebuilding.antt =====
-- Runs of the verifiers, the iterators and `as_builder` on small tables and vectors.
use ckb_vote_poc.Base.{◌≡◌, ◌↔◌, refl, true, false, List, [], ◌∷◌, map, All, ok, ◌>>=◌, arith}
use ckb_vote_poc.Chain.{Bytes, NumberLaws, Verified}
use ckb_vote_poc.Molecule.{
  read_number, slice_range, any_decrease, verify_items, verify_fields, chunk_numbers,
  check_total_size, check_offset_first, read_offsets, dynvec_offsets, verify_dynvec, table_offsets,
  verify_table, pack_offsets, concat, write_table, write_dynvec,
}
use ckb_vote_poc.Molecule.Pieces.{IsBytes}
use ckb_vote_poc.Molecule.Canonical.{IsWritten, verify_table-IsWritten_iff}
use ckb_vote_poc.Molecule.CanonicalVec.{block_vec_rebuild}
use ckb_vote_poc.Molecule.Rebuild.{proposal_rebuild}
use ckb_vote_poc.Molecule.Vote
use ckb_vote_poc.Molecule.Proposal
use ckb_vote_poc.Molecule.Proposal.Builder.{ProposalBuilder}
use ckb_vote_poc.Molecule.BlockVec
use ckb_vote_poc.Molecule.BlockVec.Builder as BlockVecBuild
use ckb_vote_poc.Molecule.Uint16Vec
use ckb_vote_poc.Molecule.Uint16Vec.Builder as Uint16VecBuild
use ckb_vote_poc.Molecule.Uint16Vec.RoundTrip.{uint16_vec_rebuild}
use ckb_vote_poc.Count.Read.{read_ballot}
use ckb_vote_poc.Count.Ballots.{read_ballot-build}
use ckb_vote_poc.Guest.{to_le_bytes}
use ckb_vote_poc.Tests.Demo.{packages, block, number_laws, proposal_bytes}

abbrev laws : NumberLaws packages
laws = number_laws (block 0 [] [] [])

-- A table with a field of one byte and a field of four.
abbrev table_fields : List (Bytes → Verified)
table_fields = (λ s. packages.verify_byte s false) ∷ (λ s. packages.verify_uint32 s false) ∷ []

abbrev table_bytes : Bytes
table_bytes = 17 ∷ 0 ∷ 0 ∷ 0 ∷ 12 ∷ 0 ∷ 0 ∷ 0 ∷ 13 ∷ 0 ∷ 0 ∷ 0 ∷ 7 ∷ 1 ∷ 2 ∷ 3 ∷ 4 ∷ []

table_bytes-IsBytes : IsBytes table_bytes
table_bytes-IsBytes = ground arith

verify_table-IsWritten_iff_example :
    (verify_table packages true table_fields table_bytes ≡ ok tt)
    ↔ IsWritten packages laws table_fields table_bytes
verify_table-IsWritten_iff_example =
    verify_table-IsWritten_iff packages laws table_fields table_bytes table_bytes-IsBytes

proposal_bytes-IsBytes : IsBytes proposal_bytes
unfolding Proposal.build write_table pack_offsets concat
proposal_bytes-IsBytes = ground arith

proposal_verified : Proposal.verify packages proposal_bytes false ≡ ok tt
unfolding Proposal.build Proposal.verify verify_table table_offsets check_total_size
    check_offset_first read_offsets chunk_numbers any_decrease verify_fields slice_range read_number
    write_table pack_offsets concat
proposal_verified = refl

proposal_rebuild_example :
    (do
      builder ← Proposal.Builder.as_builder packages proposal_bytes
      ok (Proposal.Builder.build packages builder))
    ≡ ok proposal_bytes
proposal_rebuild_example =
    proposal_rebuild packages laws proposal_bytes proposal_bytes-IsBytes proposal_verified

-- A vector of two blocks.
abbrev two_blocks : Bytes
two_blocks = BlockVec.build packages ((1 ∷ 2 ∷ []) ∷ (3 ∷ []) ∷ [])

two_blocks-IsBytes : IsBytes two_blocks
unfolding BlockVec.build write_dynvec write_table pack_offsets concat
two_blocks-IsBytes = ground arith

two_blocks_verified : BlockVec.verify packages two_blocks true ≡ ok tt
unfolding BlockVec.build BlockVec.verify verify_dynvec dynvec_offsets check_total_size
    check_offset_first read_offsets chunk_numbers any_decrease verify_items slice_range read_number
    write_dynvec write_table pack_offsets concat
two_blocks_verified = refl

block_vec_rebuild_example :
    (blocks : List Bytes) × (BlockVec.iter packages two_blocks ≡ ok blocks)
    × (BlockVecBuild.as_builder packages two_blocks ≡ ok (record { blocks = blocks }))
    × (BlockVecBuild.build packages (record { blocks = blocks }) ≡ two_blocks)
    × All (λ block. packages.verify_block block true ≡ ok tt) blocks
block_vec_rebuild_example =
    block_vec_rebuild packages laws two_blocks true two_blocks-IsBytes two_blocks_verified

-- A vector of the items 1 and 513.
abbrev two_items : Bytes
two_items = 2 ∷ 0 ∷ 0 ∷ 0 ∷ 1 ∷ 0 ∷ 1 ∷ 2 ∷ []

two_items_verified : Uint16Vec.verify packages two_items false ≡ ok tt
unfolding Uint16Vec.verify read_number
two_items_verified = refl

two_items-IsBytes : IsBytes two_items
two_items-IsBytes = ground arith

uint16_vec_rebuild_example :
    (items : List Bytes) × (Uint16Vec.iter packages two_items ≡ ok items)
    × (Uint16VecBuild.as_builder packages two_items ≡ ok (record { items = items }))
    × (Uint16VecBuild.build packages (record { items = items }) ≡ two_items)
uint16_vec_rebuild_example =
    uint16_vec_rebuild packages laws two_items false two_items-IsBytes two_items_verified

-- A NO of 500 shannon for the deposits at cell deps 0 and 300.
read_ballot-build_example :
    read_ballot packages (
      Vote.build packages
        (0 ∷ [])
        (to_le_bytes 8 500)
        (Uint16Vec.build packages (map (to_le_bytes 2) (0 ∷ 300 ∷ []))))
    ≡ ok (record { direction = 0; amount = 500; dao_index = 0 ∷ 300 ∷ [] })
read_ballot-build_example =
    read_ballot-build packages laws 0 500 (0 ∷ 300 ∷ []) (omega arith)
      (omega arith, (omega arith, tt)) (omega arith)
