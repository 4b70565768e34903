-- ===== src/Tests/Returning.antt =====
-- Runs on data that the verifiers accept, and runs of the programs that return.
use ckb_vote_poc.Base.{
  ℕ, zero, suc, ◌≡◌, ◌∙◌, refl, sym, ap, ◌↔◌, some, [], ok, length, false, Returns, All,
}
use mathlib.Core.Option.{Option, some-injective, none-ne-some}
use ckb_vote_poc.Chain.{Script, NumberLaws, VerifierLaws}
use ckb_vote_poc.Molecule.{
  slice_range, any_decrease, verify_items, verify_fields, read_number, chunk_numbers,
  check_total_size, check_offset_first, read_offsets, table_offsets, dynvec_offsets, verify_table,
  pack_offsets, concat, write_table, write_dynvec,
}
use ckb_vote_poc.Molecule.BlockVec
use ckb_vote_poc.Molecule.Shallow.{
  verify_header_size, verify_vector_shallow, verify_block_shallow, verify_block_vec,
}
use ckb_vote_poc.Molecule.Blocks.{verify_block_vec-iter}
use ckb_vote_poc.Count.{VoteResult, count_vote}
use ckb_vote_poc.Count.Total.{count_vote_total}
use ckb_vote_poc.Syscalls.{Cell}
use ckb_vote_poc.VoteScript
use ckb_vote_poc.VoteScript.Safety.{HasHashTypes, vote_exit_code}
use ckb_vote_poc.ProposalScript
use ckb_vote_poc.ProposalScript.Safety.{proposal_exit_code}
use ckb_vote_poc.Tests.Demo.{packages, block, number_laws, verifier_laws, proposal_script}
use ckb_vote_poc.Tests.Counting.{window}
use ckb_vote_poc.Tests.Contracts.{
  deposit_cell, proposal_cell, ballot_context, settlement_context, verifier,
}
use ckb_vote_poc.Tests.Settling.{blocks_bytes}

abbrev numbers : NumberLaws packages
numbers = number_laws (block 0 [] [] [])

abbrev verifiers : VerifierLaws packages
verifiers = verifier_laws (block 0 [] [] [])

blocks_verify : verify_block_vec packages blocks_bytes false ≡ ok tt
unfolding verify_header_size verify_vector_shallow verify_block_shallow verify_block_vec
    dynvec_offsets write_dynvec BlockVec.build slice_range any_decrease verify_items verify_fields
    read_number chunk_numbers check_total_size check_offset_first read_offsets table_offsets
    verify_table pack_offsets concat write_table
blocks_verify = refl

verify_block_vec-iter_example :
    Returns
      (All (λ block. verify_block_shallow packages block false ≡ ok tt))
      (BlockVec.iter packages blocks_bytes)
verify_block_vec-iter_example =
    verify_block_vec-iter packages numbers blocks_bytes false blocks_verify

count_vote_total_example : (r : VoteResult) × (count_vote packages window proposal_script ≡ ok r)
count_vote_total_example = count_vote_total packages numbers verifiers window proposal_script

-- The hash type of the script that a cell has, if the cell's script has one of one byte.
one_byte :
    (known cell : Cell) (type : Script) (script : Script)
    → length script.hash_type ≡ 1
    → known.type_ ≡ some script
    → Path (Option Cell) (some known) (some cell)
    → cell.type_ ≡ some type
    → length type.hash_type ≡ 1
one_byte known cell type script one same listed typed =
    let same_type : Path (Option Script) (some script) (some type) =
      sym same ∙ ap (λ c. c.type_) (some-injective known cell listed) ∙ typed in
    ap (λ t. length t.hash_type) (sym (some-injective script type same_type)) ∙ one

ballot_hash_types : HasHashTypes ballot_context
ballot_hash_types zero cell type listed typed =
    one_byte deposit_cell cell type _ refl refl listed typed
ballot_hash_types (suc zero) cell type listed typed =
    one_byte proposal_cell cell type _ refl refl listed typed
ballot_hash_types (suc (suc i)) cell type listed typed = absurd (none-ne-some cell listed)

vote_exit_code_example :
    (n : ℕ) × (VoteScript.program_entry packages ballot_context ≡ some n)
    × ((n ≡ 0) ↔ (VoteScript.run packages ballot_context ≡ ok tt))
vote_exit_code_example = vote_exit_code packages ballot_context ballot_hash_types numbers verifiers

proposal_exit_code_example :
    (n : ℕ) × (ProposalScript.program_entry packages verifier settlement_context ≡ some n)
    × ((n ≡ 0) ↔ (ProposalScript.run packages verifier settlement_context ≡ ok tt))
proposal_exit_code_example =
    proposal_exit_code packages verifier settlement_context numbers verifiers
