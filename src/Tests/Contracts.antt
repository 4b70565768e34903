-- ===== src/Tests/Contracts.antt =====
-- Runs of the two type scripts.
use ckb_vote_poc.Base.{
  ℕ, zero, suc, ◌*◌, min, get_elem?, arith, ◌≡◌, refl, ◌↔◌, ◌⊎◌, true, Option, none, some, List, [],
  ◌∷◌, ◌++◌, length, take, bytes_eq, ok,
}
use ckb_vote_poc.Chain.{Bytes, Script, OutPoint, CellDep, CellOutput, Header}
use ckb_vote_poc.Molecule.{
  slice_range, any_decrease, collect, verify_items, verify_fields, read_number, chunk_numbers,
  check_total_size, check_offset_first, read_offsets, table_offsets, verify_table, item_count,
  inner_field, last_field, pack_offsets, concat, write_table,
}
use ckb_vote_poc.Molecule.Vote
use ckb_vote_poc.Molecule.Proposal
use ckb_vote_poc.Molecule.Uint16Vec
use ckb_vote_poc.Molecule.PublicValues
use ckb_vote_poc.Molecule.ProposalWitness
use ckb_vote_poc.Count.{u64_max, is_vote_script, output_ballot}
use ckb_vote_poc.Count.Read.{Terms, Ballot, from_le_bytes, little_endian}
use ckb_vote_poc.VoteScript.Counted.{Resolves, IsCounted, run-IsCounted}
use ckb_vote_poc.VoteScript.Repeated.{copies, check_amount-copies}
use ckb_vote_poc.VoteScript.Deposits.{IsDeposit}
use ckb_vote_poc.Syscalls.{
  Source, input, output, cell_dep, group_input, group_output, Cell, Context,
}
use ckb_vote_poc.Integrity.{header_hash}
use ckb_vote_poc.VoteScript
use ckb_vote_poc.VoteScript.Laws.{IsVote, run_iff}
use ckb_vote_poc.ProposalScript
use ckb_vote_poc.ProposalScript.Laws.{IsCreation, verify_creation_iff}
use ckb_vote_poc.ProposalScript.Run.{Outcome, proposal_run_iff}
use ckb_vote_poc.Tests.Demo.{
  packages, block, compatible_laws, header, script_of, voter_lock, proposal_bytes, vote_bytes,
  no_shannon,
}

abbrev ten_bytes : Bytes
ten_bytes = 1 ∷ 2 ∷ 3 ∷ 4 ∷ 5 ∷ 6 ∷ 7 ∷ 8 ∷ 9 ∷ 10 ∷ []

-- A proposal's script of 54 bytes, 52 of them its arguments.
abbrev full_script : Script
full_script =
    script_of
      (7 ∷ 1 ∷ ten_bytes ++ ten_bytes ++ ten_bytes ++ ten_bytes ++ ten_bytes ++ (0 ∷ 0 ∷ []))

abbrev full_slice : Bytes
full_slice = packages.script_slice full_script

-- The vote's script: its arguments are the hash of the proposal's script.
abbrev ballot_script : Script
ballot_script = record { code_hash = 9 ∷ []; hash_type = 1 ∷ []; args = take 20 full_slice }

abbrev pub proposal_cell : Cell
proposal_cell = record {
  capacity = 0;
  lock = voter_lock;
  type_ = some full_script;
  type_hash = some full_slice;
  data_ = proposal_bytes;
}

abbrev pub deposit_cell : Cell
deposit_cell = record {
  capacity = 500;
  lock = voter_lock;
  type_ = some (record { code_hash = VoteScript.dao_code_hash; hash_type = 1 ∷ []; args = [] });
  type_hash = none;
  data_ = [];
}

abbrev ballot_cell : Cell
ballot_cell = record {
  capacity = 0;
  lock = voter_lock;
  type_ = some ballot_script;
  type_hash = none;
  data_ = vote_bytes;
}

abbrev ballot_cells : Source → List Cell
ballot_cells input = deposit_cell ∷ []
ballot_cells output = ballot_cell ∷ []
ballot_cells cell_dep = deposit_cell ∷ proposal_cell ∷ []
ballot_cells group_input = []
ballot_cells group_output = ballot_cell ∷ []

-- A transaction that creates a vote cell.
abbrev pub ballot_context : Context
ballot_context = record {
  load_script = some ballot_script;
  cells = ballot_cells;
  header_deps = [];
  load_witness_args = λ i source. none;
  check_type_id = λ start size. none;
}

ballot_is_accepted : VoteScript.run packages ballot_context ≡ ok tt
unfolding VoteScript.run VoteScript.check_creation VoteScript.check_amount VoteScript.sum_deposits
    VoteScript.check_deposit VoteScript.has_lock VoteScript.is_proposal VoteScript.blake160
    VoteScript.le_bytes_or VoteScript.any_cell from_le_bytes bytes_eq slice_range any_decrease
    collect verify_items verify_fields read_number chunk_numbers check_total_size check_offset_first
    read_offsets table_offsets verify_table item_count inner_field last_field pack_offsets concat
    write_table Vote.build Vote.verify Vote.from_slice Vote.vote Vote.amount Vote.dao_index
    Proposal.build Uint16Vec.verify Uint16Vec.iter Uint16Vec.len Uint16Vec.get_unchecked
ballot_is_accepted = refl

run_iff_example : (VoteScript.run packages ballot_context ≡ ok tt) ↔ (
    (script : Script) × (ballot_context.load_script ≡ some script)
    × (length script.args ≡ 20)
    × ((length (ballot_context.cells group_output) ≡ 0)
        ⊎ IsVote packages ballot_context (take 20 script.args)))
run_iff_example = run_iff packages ballot_context

abbrev ballot_terms : Terms
ballot_terms = record {
  vote_code_hash = 9 ∷ [];
  vote_hash_type = 1 ∷ [];
  minimal_req = 0;
  duration = 0;
}

-- The vote cell as an output of a block.
abbrev ballot_output : CellOutput
ballot_output = record { capacity = 0; lock = voter_lock; type_ = some ballot_script }

ballot_names :
    is_vote_script packages ballot_terms (take 20 ballot_script.args) ballot_script ≡ true
unfolding is_vote_script bytes_eq
ballot_names = refl

-- A vote that claims 1000 shannon and lists a deposit of 500 twice.
abbrev twice : Bytes
twice = 2 ∷ 0 ∷ 0 ∷ 0 ∷ 0 ∷ 0 ∷ 0 ∷ 0 ∷ []

abbrev thousand : Bytes
thousand = 232 ∷ 3 ∷ 0 ∷ 0 ∷ 0 ∷ 0 ∷ 0 ∷ 0 ∷ []

abbrev twice_vote : Bytes
twice_vote = Vote.build packages (1 ∷ []) thousand twice

twice_amount : Vote.amount packages twice_vote ≡ ok thousand
unfolding Vote.build Vote.amount pack_offsets concat write_table chunk_numbers read_number
    inner_field slice_range any_decrease
twice_amount = refl

twice_indices : Vote.dao_index packages twice_vote ≡ ok twice
unfolding Vote.build Vote.dao_index pack_offsets concat write_table chunk_numbers read_number
    inner_field last_field item_count slice_range any_decrease
twice_indices = refl

twice_items : Uint16Vec.iter packages twice ≡ ok (copies 2 (0 ∷ 0 ∷ []))
unfolding Uint16Vec.iter Uint16Vec.len Uint16Vec.get_unchecked read_number slice_range collect
twice_items = refl

first_index : from_le_bytes 2 (0 ∷ 0 ∷ []) ≡ ok 0
unfolding from_le_bytes
first_index = refl

first-IsDeposit : IsDeposit packages ballot_context voter_lock 0 500
first-IsDeposit = record {
  cell = deposit_cell;
  dao = record { code_hash = VoteScript.dao_code_hash; hash_type = 1 ∷ []; args = [] };
  listed = refl;
  owned = refl;
  typed = refl;
  dao_code = refl;
  dao_type = refl;
  no_args = refl;
  amount = refl;
}

check_amount-copies_example :
    (VoteScript.check_amount packages ballot_context voter_lock twice_vote ≡ ok tt)
    ↔ (little_endian thousand ≡ min (2 * 500) u64_max)
check_amount-copies_example =
    check_amount-copies packages ballot_context voter_lock twice_vote thousand twice (0 ∷ 0 ∷ []) 0
      500 2 twice_amount refl twice_indices twice_items first_index first-IsDeposit (omega arith)
      (omega arith)

-- The cell deps of the transaction, and the cells at their out points.
abbrev dep_at : ℕ → CellDep
dep_at i = record { out_point = record { tx_hash = []; index = i }; dep_type = 0 }

abbrev ballot_deps : List CellDep
ballot_deps = dep_at 0 ∷ dep_at 1 ∷ []

abbrev live_cell : OutPoint → Option Cell
live_cell out_point = get_elem? (ballot_cells cell_dep) out_point.index

deps_resolve : Resolves packages ballot_context live_cell ballot_deps
deps_resolve zero cell e = (dep_at 0, refl, e)
deps_resolve (suc zero) cell e = (dep_at 1, refl, e)
deps_resolve (suc (suc i)) cell e = cc

run-IsCounted_example :
    (cast : Option Ballot) × (output_ballot packages ballot_terms
        (take 20 ballot_script.args)
        (vote_bytes ∷ [])
        0
        ballot_output
      ≡ ok cast)
    × IsCounted packages ballot_context live_cell ballot_deps voter_lock cast
run-IsCounted_example =
    run-IsCounted packages ballot_context (compatible_laws (block 0 [] [] [])) live_cell ballot_deps
      deps_resolve ballot_script ballot_cell ballot_is_accepted refl refl ballot_terms
      (vote_bytes ∷ []) 0 ballot_output refl ballot_names refl

abbrev pub verifier : ProposalScript.Sp1
verifier = record {
  hex_encode = λ data_. data_;
  plonk_vk_bytes = [];
  plonk_verify = λ proof pv vk_hash vk. bytes_eq proof (88 ∷ []);
}

abbrev start_header : Header
start_header = header 0 [] []

abbrev end_header : Header
end_header = header 1 [] []

-- Public values that say passed, in a witness with a proof.
abbrev settlement_witness : Bytes
settlement_witness = ProposalWitness.build packages (1 ∷ 0 ∷ 0 ∷ 0 ∷ 88 ∷ []) (
    PublicValues.build packages proposal_bytes (header_hash packages start_header)
      (header_hash packages end_header) full_slice (1 ∷ []) no_shannon no_shannon)

abbrev settlement_cells : Source → List Cell
settlement_cells input = proposal_cell ∷ []
settlement_cells output = []
settlement_cells cell_dep = []
settlement_cells group_input = proposal_cell ∷ []
settlement_cells group_output = []

-- A transaction that consumes a proposal that passed.
abbrev pub settlement_context : Context
settlement_context = record {
  load_script = some full_script;
  cells = settlement_cells;
  header_deps = start_header ∷ end_header ∷ [];
  load_witness_args = λ i source.
      some (record { lock = none; input_type = some settlement_witness; output_type = none });
  check_type_id = λ start size. none;
}

settlement_is_accepted : ProposalScript.run packages verifier settlement_context ≡ ok tt
unfolding ProposalScript.run ProposalScript.verify_consumption ProposalScript.check_public_values
    ProposalScript.check_field ProposalScript.vk_hash_hex ProposalScript.has_type_hash
    ProposalScript.any_cell header_hash bytes_eq slice_range any_decrease verify_fields read_number
    chunk_numbers check_total_size check_offset_first read_offsets table_offsets verify_table
    item_count inner_field last_field pack_offsets concat write_table Proposal.build Proposal.verify
    PublicValues.build PublicValues.verify PublicValues.proposal PublicValues.start_block_hash
    PublicValues.end_block_hash PublicValues.proposal_script PublicValues.passed
    ProposalWitness.build ProposalWitness.verify ProposalWitness.from_slice ProposalWitness.proof
    ProposalWitness.public_values
settlement_is_accepted = refl

proposal_run_iff_example : (ProposalScript.run packages verifier settlement_context ≡ ok tt) ↔ (
    (script : Script) × (settlement_context.load_script ≡ some script)
    × (length script.args ≡ 52)
    × Outcome packages verifier settlement_context script)
proposal_run_iff_example = proposal_run_iff packages verifier settlement_context

verify_creation_iff_example :
    (ProposalScript.verify_creation packages verifier settlement_context full_script.args full_slice
      ≡ ok tt)
    ↔ IsCreation packages verifier settlement_context full_slice
verify_creation_iff_example =
    verify_creation_iff packages verifier settlement_context full_script.args full_slice

abbrev kept_cells : Source → List Cell
kept_cells input = proposal_cell ∷ []
kept_cells output = proposal_cell ∷ []
kept_cells cell_dep = []
kept_cells group_input = proposal_cell ∷ []
kept_cells group_output = proposal_cell ∷ []

-- A transaction that consumes a proposal and creates it again.
abbrev kept_context : Context
kept_context = record {
  load_script = some full_script;
  cells = kept_cells;
  header_deps = [];
  load_witness_args = λ i source. none;
  check_type_id = λ start size. some tt;
}

kept_among :
    ProposalScript.any_cell (ProposalScript.has_type_hash full_slice) (proposal_cell ∷ []) ≡ true
unfolding ProposalScript.has_type_hash ProposalScript.any_cell bytes_eq
kept_among = refl
