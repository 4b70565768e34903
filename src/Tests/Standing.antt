-- ===== src/Tests/Standing.antt =====
-- A run of `count_vote` against the votes that stand after the history of its blocks.
use ckb_vote_poc.Base.{◌≡◌, ◌∙◌, refl, sym, ap, some, List, [], ◌∷◌, min, bytes_eq, ok, ok_inj}
use ckb_vote_poc.Chain.{Bytes}
use ckb_vote_poc.Molecule.{
  slice_range, any_decrease, collect, verify_items, verify_fields, read_number, chunk_numbers,
  check_total_size, check_offset_first, read_offsets, table_offsets, verify_table, item_count,
  inner_field, last_field, pack_offsets, concat, write_table,
}
use ckb_vote_poc.Molecule.Vote
use ckb_vote_poc.Molecule.Proposal
use ckb_vote_poc.Molecule.Uint16Vec
use ckb_vote_poc.Count.Dict.{lookup}
use ckb_vote_poc.Count.Read.{from_le_bytes, read_indices, read_terms, read_ballot}
use ckb_vote_poc.Count.Find.{find_in_outputs, find_in_transactions, find_proposal}
use ckb_vote_poc.Count.{count_vote, is_vote_script, output_ballot, u64_max, decide_passed}
use ckb_vote_poc.Count.History.{
  Event, cast, standing, after, spends, deposit_keys, cast_of, casts, transaction_events,
  transactions_events, blocks_events,
}
use ckb_vote_poc.Count.Refine.{count_blocks-history}
use ckb_vote_poc.Count.Unique.{count_blocks-HasUniqueKeys}
use ckb_vote_poc.Count.Tally.{yes_sum, no_sum}
use ckb_vote_poc.Count.Meaning.{count_vote-standing}
use ckb_vote_poc.Tests.Demo.{packages, proposal_script, proposal_bytes}
use ckb_vote_poc.Tests.Counting.{
  window, terms, proposal_tag, voter, deposit_key, counted, window_counted,
}

abbrev window_events : List Event
window_events = cast voter 1 500 (deposit_key ∷ []) ∷ []

proposal_found : find_proposal packages window proposal_script ≡ ok (some proposal_bytes)
unfolding find_proposal find_in_transactions find_in_outputs bytes_eq Proposal.from_compatible_slice
    Proposal.verify verify_table table_offsets check_total_size Proposal.build write_table
    pack_offsets concat read_number check_offset_first read_offsets slice_range any_decrease
    chunk_numbers verify_fields
proposal_found = refl

terms_read : read_terms packages proposal_bytes ≡ ok terms
unfolding read_terms from_le_bytes slice_range any_decrease verify_fields read_number chunk_numbers
    check_total_size check_offset_first read_offsets table_offsets verify_table item_count
    inner_field last_field pack_offsets concat write_table Proposal.build Proposal.verify
    Proposal.from_compatible_slice Proposal.vote_cell_code_hash Proposal.vote_cell_hash_type
    Proposal.minimal_requirement Proposal.duration
terms_read = refl

window_history : blocks_events packages terms proposal_tag window ≡ ok window_events
unfolding blocks_events transactions_events transaction_events casts cast_of deposit_keys spends
    output_ballot is_vote_script read_ballot read_indices from_le_bytes bytes_eq slice_range
    any_decrease collect verify_items verify_fields read_number chunk_numbers check_total_size
    check_offset_first read_offsets table_offsets verify_table item_count inner_field last_field
    pack_offsets concat write_table Vote.build Vote.verify Vote.from_compatible_slice Vote.vote
    Vote.amount Vote.dao_index Proposal.build Uint16Vec.verify Uint16Vec.iter Uint16Vec.len
    Uint16Vec.get_unchecked
window_history = refl

counted_stands : (v : Bytes) → lookup v counted.votes ≡ standing v (after window_events [])
counted_stands v =
    let (s, reached, votes, deposits) =
      count_blocks-history packages terms proposal_tag window window_events window_history in
    let same : counted ≡ s = ok_inj (sym window_counted ∙ reached) in
    ap (λ state. lookup v state.votes) same ∙ votes v

count_vote-standing_example :
    count_vote packages window proposal_script
    ≡ ok (record {
      proposal = proposal_bytes;
      yes_vote = min (yes_sum counted.votes) u64_max;
      no_vote = min (no_sum counted.votes) u64_max;
      passed =
          decide_passed
            (min (yes_sum counted.votes) u64_max)
            (min (no_sum counted.votes) u64_max)
            0;
    })
count_vote-standing_example =
    count_vote-standing packages window proposal_script proposal_bytes terms window_events
      counted.votes proposal_found terms_read refl window_history
      (count_blocks-HasUniqueKeys packages terms proposal_tag window counted window_counted)
      counted_stands
