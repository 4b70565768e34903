-- ===== src/Tests/Settling.antt =====
-- A run of the guest program, and the consumption of the proposal that it settles.
use ckb_vote_poc.Base.{
  ◌≡◌, ◌∙◌, ap, refl, ◌⊎◌, true, none, some, List, [], ◌∷◌, ◌++◌, take, bytes_eq, bytes_eq_iff, ok,
}
use ckb_vote_poc.Chain.{Bytes, Packages, Script, CellDep, CellOutput, Block}
use ckb_vote_poc.Molecule.{
  slice_range, any_decrease, collect, verify_items, verify_fields, read_number, chunk_numbers,
  check_total_size, check_offset_first, read_offsets, dynvec_offsets, table_offsets, verify_table,
  item_count, inner_field, last_field, get_unchecked, pack_offsets, concat, write_table,
  write_dynvec,
}
use ckb_vote_poc.Molecule.Vote
use ckb_vote_poc.Molecule.Proposal
use ckb_vote_poc.Molecule.Uint16Vec
use ckb_vote_poc.Molecule.BlockVec
use ckb_vote_poc.Molecule.PublicValues
use ckb_vote_poc.Molecule.ProposalWitness
use ckb_vote_poc.Molecule.GuestProgramArguments
use ckb_vote_poc.Molecule.Shallow.{
  verify_header_size, verify_vector_shallow, verify_block_shallow, verify_block_vec,
}
use ckb_vote_poc.Syscalls.{
  Source, input, output, cell_dep, group_input, group_output, Cell, Context,
}
use ckb_vote_poc.Merkle.{merkle_root, merge_pairs, drain, remainder}
use ckb_vote_poc.Integrity
use ckb_vote_poc.Integrity.{
  merge, zeros, header_hash, tx_hash, calc_transactions_root, check_parents, check_roots,
  verify_block_integrity,
}
use ckb_vote_poc.Count.Dict.{lookup, insert, remove}
use ckb_vote_poc.Count.Read.{from_le_bytes, read_indices, read_terms, read_ballot}
use ckb_vote_poc.Count.Find.{find_in_outputs, find_in_transactions, find_proposal}
use ckb_vote_poc.Count.{
  VoteResult, spend_inputs, record_deposits, is_vote_script, record_vote, output_ballot,
  record_outputs, count_transaction, count_transactions, count_blocks, count_proposal, count_vote,
  min_shannon, decide_passed, tally,
}
use ckb_vote_poc.ProposalScript
use ckb_vote_poc.ProposalScript.Run.{Created}
use ckb_vote_poc.Guest.{read_blocks, decode_blocks, public_values, to_le_bytes, main}
use ckb_vote_poc.Settlement.{Sound, Settled, run-Settled}
use ckb_vote_poc.Tests.Demo.{
  packages, packages_for, number_laws, header, block, transaction, script_of, voter_lock,
  vote_bytes, no_shannon,
}

abbrev ten_bytes : Bytes
ten_bytes = 1 ∷ 2 ∷ 3 ∷ 4 ∷ 5 ∷ 6 ∷ 7 ∷ 8 ∷ 9 ∷ 10 ∷ []

-- A proposal's script of 54 bytes, 52 of them its arguments.
abbrev pub full_script : Script
full_script =
    script_of
      (7 ∷ 1 ∷ ten_bytes ++ ten_bytes ++ ten_bytes ++ ten_bytes ++ ten_bytes ++ (0 ∷ 0 ∷ []))

abbrev pub full_slice : Bytes
full_slice = packages.script_slice full_script

-- A proposal that is voted on in the block that creates it.
abbrev pub short_proposal : Bytes
short_proposal =
    Proposal.build packages (0 ∷ 0 ∷ 0 ∷ 0 ∷ []) (9 ∷ []) (1 ∷ []) [] [] no_shannon
      (0 ∷ 0 ∷ 0 ∷ 0 ∷ 0 ∷ 0 ∷ 0 ∷ 0 ∷ [])

abbrev pub proposal_output : CellOutput
proposal_output = record { capacity = 0; lock = voter_lock; type_ = some full_script }

abbrev pub full_vote_script : Script
full_vote_script = record { code_hash = 9 ∷ []; hash_type = 1 ∷ []; args = take 20 full_slice }

abbrev pub vote_output : CellOutput
vote_output = record { capacity = 0; lock = voter_lock; type_ = some full_vote_script }

abbrev pub deposit_dep : CellDep
deposit_dep = record { out_point = record { tx_hash = 77 ∷ []; index = 3 }; dep_type = 0 }

-- The one block of the window: the proposal is created, and then a vote is cast.
abbrev pub voted_block : Block
voted_block = block 5 [] (1 ∷ 2 ∷ 1 ∷ 2 ∷ []) (
    transaction 1 [] [] (proposal_output ∷ []) (short_proposal ∷ [])
    ∷ transaction 2 (deposit_dep ∷ []) [] (vote_output ∷ []) (vote_bytes ∷ [])
    ∷ [])

abbrev pub guest_packages : Packages
guest_packages = packages_for voted_block

abbrev ten_zeros : Bytes
ten_zeros = 0 ∷ 0 ∷ 0 ∷ 0 ∷ 0 ∷ 0 ∷ 0 ∷ 0 ∷ 0 ∷ 0 ∷ []

abbrev fifty_zeros : Bytes
fifty_zeros = ten_zeros ++ ten_zeros ++ ten_zeros ++ ten_zeros ++ ten_zeros

-- A header of 208 bytes, and three empty vectors.
abbrev block_slice : Bytes
block_slice = write_table packages (
    (fifty_zeros
      ++ fifty_zeros
      ++ fifty_zeros
      ++ fifty_zeros
      ++ (0 ∷ 0 ∷ 0 ∷ 0 ∷ 0 ∷ 0 ∷ 0 ∷ 0 ∷ []))
    ∷ (4 ∷ 0 ∷ 0 ∷ 0 ∷ [])
    ∷ (4 ∷ 0 ∷ 0 ∷ 0 ∷ [])
    ∷ (4 ∷ 0 ∷ 0 ∷ 0 ∷ [])
    ∷ [])

abbrev pub blocks_bytes : Bytes
blocks_bytes = BlockVec.build packages (block_slice ∷ [])

abbrev pub args_bytes : Bytes
args_bytes =
    GuestProgramArguments.build packages ((0 ∷ 0 ∷ 0 ∷ 0 ∷ []) ++ blocks_bytes) (2 ∷ 3 ∷ 0 ∷ [])
      full_slice

abbrev voted_hash : Bytes
voted_hash = header_hash guest_packages (header 5 [] (1 ∷ 2 ∷ 1 ∷ 2 ∷ []))

abbrev pub voted_result : VoteResult
voted_result = record { proposal = short_proposal; yes_vote = 500; no_vote = 0; passed = true }

abbrev committed_bytes : Bytes
committed_bytes = public_values guest_packages voted_hash voted_hash full_slice voted_result

guest_commits : main guest_packages args_bytes ≡ ok committed_bytes
unfolding main read_blocks decode_blocks public_values to_le_bytes verify_header_size
    verify_vector_shallow verify_block_shallow verify_block_vec dynvec_offsets get_unchecked
    write_dynvec BlockVec.build BlockVec.iter BlockVec.len GuestProgramArguments.build
    GuestProgramArguments.verify GuestProgramArguments.from_slice GuestProgramArguments.blocks
    GuestProgramArguments.witness_root GuestProgramArguments.proposal_script PublicValues.build
    verify_block_integrity check_parents check_roots calc_transactions_root Integrity.merkle_root
    merge merkle_root merge_pairs drain remainder header_hash tx_hash count_vote count_proposal
    count_blocks count_transactions count_transaction record_outputs output_ballot record_vote
    is_vote_script record_deposits spend_inputs tally decide_passed min_shannon find_proposal
    find_in_transactions find_in_outputs read_terms read_ballot read_indices from_le_bytes lookup
    insert remove bytes_eq slice_range any_decrease collect verify_items verify_fields read_number
    chunk_numbers check_total_size check_offset_first read_offsets table_offsets verify_table
    item_count inner_field last_field pack_offsets concat write_table Vote.build Vote.verify
    Vote.from_compatible_slice Vote.vote Vote.amount Vote.dao_index Proposal.build Proposal.verify
    Proposal.from_compatible_slice Proposal.vote_cell_code_hash Proposal.vote_cell_hash_type
    Proposal.minimal_requirement Proposal.duration Uint16Vec.verify Uint16Vec.iter Uint16Vec.len
    Uint16Vec.get_unchecked
guest_commits = refl

-- A verifier that accepts what this run committed.
abbrev run_verifier : ProposalScript.Sp1
run_verifier = record {
  hex_encode = λ data_. data_;
  plonk_vk_bytes = [];
  plonk_verify = λ proof pv vk_hash vk. bytes_eq pv committed_bytes;
}

abbrev voted_cell : Cell
voted_cell = record {
  capacity = 0;
  lock = voter_lock;
  type_ = some full_script;
  type_hash = some full_slice;
  data_ = short_proposal;
}

abbrev voted_cells : Source → List Cell
voted_cells input = voted_cell ∷ []
voted_cells output = []
voted_cells cell_dep = []
voted_cells group_input = voted_cell ∷ []
voted_cells group_output = []

abbrev voted_context : Context
voted_context = record {
  load_script = some full_script;
  cells = voted_cells;
  header_deps = voted_block.header ∷ voted_block.header ∷ [];
  load_witness_args = λ i source. some (record {
    lock = none;
    input_type = some (ProposalWitness.build packages (0 ∷ 0 ∷ 0 ∷ 0 ∷ []) committed_bytes);
    output_type = none;
  });
  check_type_id = λ start size. none;
}

run_is_Sound :
    (script : Script)
    → voted_context.load_script ≡ some script
    → Sound guest_packages run_verifier voted_context script
run_is_Sound script loaded proof pv accepted =
    let same : committed_bytes ≡ pv = cc ((bytes_eq_iff pv committed_bytes).0 accepted) in
    (args_bytes, guest_commits ∙ ap ok same)

voted_is_accepted : ProposalScript.run guest_packages run_verifier voted_context ≡ ok tt
unfolding ProposalScript.run ProposalScript.verify_consumption ProposalScript.check_public_values
    ProposalScript.check_field ProposalScript.vk_hash_hex ProposalScript.has_type_hash
    ProposalScript.any_cell public_values to_le_bytes header_hash bytes_eq slice_range any_decrease
    verify_fields read_number chunk_numbers check_total_size check_offset_first read_offsets
    table_offsets verify_table item_count inner_field last_field pack_offsets concat write_table
    Proposal.build Proposal.verify PublicValues.build PublicValues.verify PublicValues.proposal
    PublicValues.start_block_hash PublicValues.end_block_hash PublicValues.proposal_script
    PublicValues.passed ProposalWitness.build ProposalWitness.verify ProposalWitness.from_slice
    ProposalWitness.proof ProposalWitness.public_values
voted_is_accepted = refl

run-Settled_example :
    (script : Script) × (voted_context.load_script ≡ some script)
    × (Created guest_packages run_verifier voted_context script
        ⊎ Settled guest_packages run_verifier voted_context script)
run-Settled_example =
    run-Settled guest_packages run_verifier voted_context (number_laws voted_block) run_is_Sound
      voted_is_accepted
