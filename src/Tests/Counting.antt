-- ===== src/Tests/Counting.antt =====
-- Runs of `count_vote`.
use ckb_vote_poc.Base.{
  ℕ, ◌+◌, ◌-◌, ◌*◌, ◌^◌, ◌≡◌, ◌<◌, refl, ◌↔◌, true, some, List, [], ◌∷◌, arith, min, bytes_eq, ok,
}
use ckb_vote_poc.Chain.{Bytes, Block, CellDep, CellInput, CellOutput}
use ckb_vote_poc.Molecule.{
  slice_range, any_decrease, collect, verify_items, verify_fields, read_number, chunk_numbers,
  check_total_size, check_offset_first, read_offsets, table_offsets, verify_table, item_count,
  inner_field, last_field, pack_offsets, concat, write_table,
}
use ckb_vote_poc.Molecule.Vote
use ckb_vote_poc.Molecule.Proposal
use ckb_vote_poc.Molecule.Uint16Vec
use ckb_vote_poc.Count.Dict.{Map, lookup, insert, remove}
use ckb_vote_poc.Count.Read.{Terms, from_le_bytes, read_indices, read_terms, read_ballot}
use ckb_vote_poc.Count.Find.{find_in_outputs, find_in_transactions, find_proposal}
use ckb_vote_poc.Count.{
  VoteResult, State, init, u64_max, spend_inputs, record_deposits, is_vote_script, record_vote,
  output_ballot, record_outputs, count_transaction, count_transactions, count_blocks,
  count_proposal, count_vote, min_shannon, decide_passed, tally,
}
use ckb_vote_poc.Count.History.{
  Event, spend, cast, owner, standing, after, spends, deposit_keys, cast_of, casts,
  transaction_events, transactions_events, blocks_events,
}
use ckb_vote_poc.Count.Refine.{count_blocks-history}
use ckb_vote_poc.Count.Tally.{yes_sum, no_sum, tally-sums, decide_passed_iff, decide_passed_wraps}
use ckb_vote_poc.Tests.Demo.{
  packages, block, transaction, proposal_script, vote_script, voter_lock, proposal_bytes,
  vote_bytes,
}

abbrev proposal_output : CellOutput
proposal_output = record { capacity = 0; lock = voter_lock; type_ = some proposal_script }

abbrev vote_output : CellOutput
vote_output = record { capacity = 0; lock = voter_lock; type_ = some vote_script }

abbrev deposit_dep : CellDep
deposit_dep = record { out_point = record { tx_hash = 77 ∷ []; index = 3 }; dep_type = 0 }

abbrev deposit_input : CellInput
deposit_input = record { since = 0; previous_output = record { tx_hash = 77 ∷ []; index = 3 } }

-- The proposal is created, and then a vote is cast.
abbrev creation_block : Block
creation_block =
    block 0 [] [] (transaction 1 [] [] (proposal_output ∷ []) (proposal_bytes ∷ []) ∷ [])

abbrev voting_block : Block
voting_block =
    block 1 [] [] (transaction 2 (deposit_dep ∷ []) [] (vote_output ∷ []) (vote_bytes ∷ []) ∷ [])

abbrev pub window : List Block
window = creation_block ∷ voting_block ∷ []

-- The same window with a transaction after the vote that spends the deposit.
abbrev spent_window : List Block
spent_window =
    creation_block
    ∷ block 1 [] [] (
        transaction 2 (deposit_dep ∷ []) [] (vote_output ∷ []) (vote_bytes ∷ [])
        ∷ transaction 3 [] (deposit_input ∷ []) [] []
        ∷ [])
    ∷ []

abbrev carried_result : VoteResult
carried_result = record { proposal = proposal_bytes; yes_vote = 500; no_vote = 0; passed = true }

window_passes : count_vote packages window proposal_script ≡ ok carried_result
unfolding count_vote count_proposal count_blocks count_transactions count_transaction record_outputs
    output_ballot record_vote is_vote_script record_deposits spend_inputs tally decide_passed
    min_shannon find_proposal find_in_transactions find_in_outputs read_terms read_ballot
    read_indices from_le_bytes lookup insert remove bytes_eq slice_range any_decrease collect
    verify_items verify_fields read_number chunk_numbers check_total_size check_offset_first
    read_offsets table_offsets verify_table item_count inner_field last_field pack_offsets concat
    write_table Vote.build Vote.verify Vote.from_compatible_slice Vote.vote Vote.amount
    Vote.dao_index Proposal.build Proposal.verify Proposal.from_compatible_slice
    Proposal.vote_cell_code_hash Proposal.vote_cell_hash_type Proposal.minimal_requirement
    Proposal.duration Uint16Vec.verify Uint16Vec.iter Uint16Vec.len Uint16Vec.get_unchecked
window_passes = refl

-- What the count reads of the proposal.
abbrev pub terms : Terms
terms = record { vote_code_hash = 9 ∷ []; vote_hash_type = 1 ∷ []; minimal_req = 0; duration = 1 }

abbrev pub proposal_tag : Bytes
proposal_tag = 7 ∷ 1 ∷ 42 ∷ []

abbrev pub voter : Bytes
voter = 5 ∷ 1 ∷ 66 ∷ []

abbrev pub deposit_key : Bytes
deposit_key = 3 ∷ 77 ∷ []

-- A vote, and then the spending of its deposit.
abbrev spent_events : List Event
spent_events = cast voter 1 500 (deposit_key ∷ []) ∷ spend deposit_key ∷ []

spent_window_events : blocks_events packages terms proposal_tag spent_window ≡ ok spent_events
unfolding blocks_events transactions_events transaction_events casts cast_of deposit_keys spends
    output_ballot is_vote_script read_ballot read_indices from_le_bytes bytes_eq slice_range
    any_decrease collect verify_items verify_fields read_number chunk_numbers check_total_size
    check_offset_first read_offsets table_offsets verify_table item_count inner_field last_field
    pack_offsets concat write_table Vote.build Vote.verify Vote.from_compatible_slice Vote.vote
    Vote.amount Vote.dao_index Proposal.build Uint16Vec.verify Uint16Vec.iter Uint16Vec.len
    Uint16Vec.get_unchecked
spent_window_events = refl

count_blocks-history_example :
    (s : State) × (count_blocks packages terms proposal_tag spent_window init ≡ ok s)
    × ((v : Bytes) → lookup v s.votes ≡ standing v (after spent_events []))
    × ((op : Bytes) → lookup op s.deposits ≡ owner op (after spent_events []))
count_blocks-history_example =
    count_blocks-history packages terms proposal_tag spent_window spent_events spent_window_events

abbrev pub counted : State
counted = record { votes = (voter, (1, 500)) ∷ []; deposits = (deposit_key, voter) ∷ [] }

pub window_counted : count_blocks packages terms proposal_tag window init ≡ ok counted
unfolding count_blocks count_transactions count_transaction record_outputs output_ballot record_vote
    is_vote_script record_deposits spend_inputs read_ballot read_indices from_le_bytes lookup insert
    remove bytes_eq slice_range any_decrease collect verify_items verify_fields read_number
    chunk_numbers check_total_size check_offset_first read_offsets table_offsets verify_table
    item_count inner_field last_field pack_offsets concat write_table Vote.build Vote.verify
    Vote.from_compatible_slice Vote.vote Vote.amount Vote.dao_index Proposal.build Uint16Vec.verify
    Uint16Vec.iter Uint16Vec.len Uint16Vec.get_unchecked
window_counted = refl

-- A YES, a NO, and a vote that would overflow the sum of the YES amounts.
abbrev three_votes : Map (ℕ × ℕ)
three_votes = (1 ∷ [], (1, 2 ^ 64 - 1)) ∷ (2 ∷ [], (0, 30)) ∷ (3 ∷ [], (1, 7)) ∷ []

tally-sums_example :
    tally 0 0 three_votes ≡ (min (yes_sum three_votes) u64_max, min (no_sum three_votes) u64_max)
tally-sums_example = tally-sums three_votes

decide_passed_iff_example :
    (decide_passed 600000000 0 5 ≡ true)
    ↔ ((0 < 600000000) × (5 * 100000000 < min (600000000 + 0) u64_max))
decide_passed_iff_example = decide_passed_iff 600000000 0 5 (omega arith)

decide_passed_wraps_example :
    (yes_vote : ℕ) × (yes_vote < 2 ^ 64)
    × (yes_vote < 184467440738 * 100000000)
    × (decide_passed yes_vote 0 184467440738 ≡ true)
decide_passed_wraps_example = decide_passed_wraps 184467440738 (omega arith)
