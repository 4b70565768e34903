-- ===== src/Tests/Hosting.antt =====
-- Runs of the host on a block in which a vote passes.
use mathlib.Core.Option.{some-injective}
use ckb_vote_poc.Base.{
  ℕ, zero, suc, get_elem?, sym, subst, ◌∙◌, ◌^◌, ◌<◌, ◌≡◌, refl, ap, ap₂, ok_inj, true, false,
  Option, none, some, [], ◌∷◌, ◌++◌, length, take, Result, ok, err, panic, arith, bytes_eq,
}
use ckb_vote_poc.Chain.{Bytes, Packages, VerificationError, Script, CellOutput, Block}
use ckb_vote_poc.Molecule.{
  slice_range, any_decrease, collect, verify_items, verify_fields, read_number, chunk_numbers,
  check_total_size, check_offset_first, read_offsets, table_offsets, dynvec_offsets, verify_table,
  verify_dynvec, item_count, inner_field, last_field, get_unchecked, pack_offsets, concat,
  write_table, write_dynvec,
}
use ckb_vote_poc.Molecule.Vote
use ckb_vote_poc.Molecule.Proposal
use ckb_vote_poc.Molecule.Uint16Vec
use ckb_vote_poc.Molecule.PublicValues
use ckb_vote_poc.Molecule.BlockVec
use ckb_vote_poc.Molecule.GuestProgramArguments
use ckb_vote_poc.Molecule.Shallow.{
  verify_header_size, verify_vector_shallow, verify_block_shallow, verify_block_vec,
}
use ckb_vote_poc.Merkle.{merkle_root, merge_pairs, drain, remainder}
use ckb_vote_poc.Integrity
use ckb_vote_poc.Integrity.{
  zeros, merge, header_hash, tx_hash, witness_hash, calc_transactions_root, check_parents,
  check_roots, verify_block_integrity,
}
use ckb_vote_poc.Count.Passed.{Carried}
use ckb_vote_poc.Count.Dict.{lookup, insert, remove}
use ckb_vote_poc.Count.Read.{from_le_bytes, read_indices, read_terms, read_ballot}
use ckb_vote_poc.Count.Find.{find_in_outputs, find_in_transactions, find_proposal}
use ckb_vote_poc.Count.{
  spend_inputs, record_deposits, is_vote_script, record_vote, output_ballot, record_outputs,
  count_transaction, count_transactions, count_blocks, count_proposal, count_vote, min_shannon,
  decide_passed, tally,
}
use ckb_vote_poc.Guest
use ckb_vote_poc.Guest.{read_blocks, decode_blocks, public_values, to_le_bytes}
use ckb_vote_poc.Prepare.{all_witness_root, prepare_guest_program_arguments}
use ckb_vote_poc.Host.{
  Args, Sdk, Proof, Report, trim_prefix, count_true, read_proposal_cell, find_in_txs,
  prepare_stdin_real, print_public_values, assert_passed, find_proposal_in_first_block,
  save_verifying_key, run_execute, prepare_stdin, main,
}
use ckb_vote_poc.Host.Laws.{RunsGuest, Confirmed, main-Confirmed}
use ckb_vote_poc.Host.Search.{HoldsOnlyFirst, host_find-find_proposal, Confirmed-Carried}
use ckb_vote_poc.Tests.Demo.{
  packages_padded, number_laws, builder_laws, compatible_laws, block, vote_bytes,
}
use ckb_vote_poc.Tests.Settling.{
  voted_block, blocks_bytes, full_script, short_proposal, proposal_output, full_vote_script,
  vote_output,
}

-- The block with the root of its transactions as 32 bytes.
abbrev pub host_block : Block
host_block = block 5 [] (1 ∷ zeros 31) voted_block.transactions

abbrev pub host_packages : Packages
host_packages = packages_padded host_block

-- A result, where there is one.
abbrev committed : Result VerificationError Bytes → Option Bytes
committed (ok pv) = some pv
committed (err e) = none
committed panic = none

abbrev proved : Result VerificationError Bytes → Option Proof
proved (ok pv) = some (record { public_values = pv; bytes = [] })
proved (err e) = none
proved panic = none

-- A prover's package that runs the guest, and one file.
abbrev host_sdk : Sdk
host_sdk = record {
  hex_decode = λ text. some text;
  read = λ path. some blocks_bytes;
  write = λ file bytes. some tt;
  setup = some [];
  execute = λ stdin. committed (Guest.main host_packages stdin);
  prove_core = λ stdin. proved (Guest.main host_packages stdin);
  prove_plonk = λ stdin. proved (Guest.main host_packages stdin);
  verify = λ proof key. some tt;
}

committed-eq-some :
    (run : Result VerificationError Bytes) (pv : Bytes) → committed run ≡ some pv → run ≡ ok pv
committed-eq-some (ok x) pv h = ap ok (some-injective x pv h)
committed-eq-some (err e) pv h = cc
committed-eq-some panic pv h = cc

proved-eq-some :
    (run : Result VerificationError Bytes) (proof : Proof)
    → proved run ≡ some proof
    → run ≡ ok proof.public_values
proved-eq-some (ok x) proof h = ap (λ p. ok p.public_values) (some-injective _ proof h)
proved-eq-some (err e) proof h = cc
proved-eq-some panic proof h = cc

host_sdk-RunsGuest : RunsGuest host_packages host_sdk
host_sdk-RunsGuest = record {
  executed = λ stdin pv h. committed-eq-some (Guest.main host_packages stdin) pv h;
  proved_core = λ stdin proof h. proved-eq-some (Guest.main host_packages stdin) proof h;
  proved_plonk = λ stdin proof h. proved-eq-some (Guest.main host_packages stdin) proof h;
}

-- `--execute` of the first transaction's first output.
abbrev cli : Args
cli = record {
  execute = true;
  prove = false;
  prove_via_network = false;
  mock = false;
  input = [];
  output = [];
  proposal_tx_hash = some (48 ∷ 120 ∷ 1 ∷ zeros 31);
  proposal_index = some 0;
}

abbrev pub prepared : Bytes
prepared =
    GuestProgramArguments.build host_packages ((0 ∷ 0 ∷ 0 ∷ 0 ∷ []) ++ blocks_bytes)
      (host_packages.build_byte32_vec ((1 ∷ zeros 31) ∷ [])) []

pub host_prepares : prepare_guest_program_arguments host_packages blocks_bytes ≡ ok prepared
unfolding zeros prepare_guest_program_arguments all_witness_root read_blocks decode_blocks
    BlockVec.iter BlockVec.len BlockVec.build BlockVec.verify verify_dynvec dynvec_offsets
    verify_items check_total_size check_offset_first read_offsets chunk_numbers any_decrease collect
    get_unchecked item_count read_number slice_range write_dynvec write_table pack_offsets concat
    GuestProgramArguments.build Integrity.merkle_root merkle_root merge_pairs drain remainder merge
    witness_hash
host_prepares = refl

pub prepared_size : length prepared < 2 ^ 32
unfolding zeros GuestProgramArguments.build BlockVec.build write_dynvec write_table pack_offsets
    concat
prepared_size = omega arith

abbrev report : Report
report = record {
  start_block_hash = take 32 ((5 ∷ 1 ∷ zeros 31) ++ zeros 32);
  end_block_hash = take 32 ((5 ∷ 1 ∷ zeros 31) ++ zeros 32);
  yes_vote = 0;
  no_vote = 0;
  passed = true;
}

host_ends_well : main host_packages host_sdk cli ≡ ok report
unfolding zeros main count_true prepare_stdin find_proposal_in_first_block trim_prefix find_in_txs
    read_proposal_cell prepare_stdin_real run_execute save_verifying_key print_public_values
    assert_passed prepare_guest_program_arguments all_witness_root witness_hash Guest.main
    read_blocks decode_blocks public_values to_le_bytes verify_header_size verify_vector_shallow
    verify_block_shallow verify_block_vec verify_dynvec dynvec_offsets get_unchecked write_dynvec
    BlockVec.build BlockVec.iter BlockVec.len BlockVec.get BlockVec.verify
    BlockVec.from_compatible_slice GuestProgramArguments.build GuestProgramArguments.verify
    GuestProgramArguments.from_slice GuestProgramArguments.blocks GuestProgramArguments.witness_root
    GuestProgramArguments.proposal_script PublicValues.build PublicValues.verify
    PublicValues.from_slice PublicValues.start_block_hash PublicValues.end_block_hash
    PublicValues.yes_vote PublicValues.no_vote PublicValues.passed verify_block_integrity
    check_parents check_roots calc_transactions_root Integrity.merkle_root merge merkle_root
    merge_pairs drain remainder header_hash tx_hash count_vote count_proposal count_blocks
    count_transactions count_transaction record_outputs output_ballot record_vote is_vote_script
    record_deposits spend_inputs tally decide_passed min_shannon find_proposal find_in_transactions
    find_in_outputs read_terms read_ballot read_indices from_le_bytes lookup insert remove bytes_eq
    slice_range any_decrease collect verify_items verify_fields read_number chunk_numbers
    check_total_size check_offset_first read_offsets table_offsets verify_table item_count
    inner_field last_field pack_offsets concat write_table Vote.build Vote.verify
    Vote.from_compatible_slice Vote.vote Vote.amount Vote.dao_index Proposal.build Proposal.verify
    Proposal.from_slice Proposal.from_compatible_slice Proposal.vote_cell_code_hash
    Proposal.vote_cell_hash_type Proposal.minimal_requirement Proposal.duration Uint16Vec.verify
    Uint16Vec.iter Uint16Vec.len Uint16Vec.get_unchecked
host_ends_well = refl

main-Confirmed_example : Confirmed host_packages host_sdk cli blocks_bytes report
main-Confirmed_example =
    main-Confirmed host_packages host_sdk (number_laws host_block) (builder_laws host_block)
      host_sdk-RunsGuest cli blocks_bytes prepared report refl refl host_prepares prepared_size
      host_ends_well

-- The transaction id and the index on the command line, and what is found there.
abbrev tx_hash_text : Bytes
tx_hash_text = 48 ∷ 120 ∷ 1 ∷ zeros 31

host_finds :
    find_proposal_in_first_block host_packages host_sdk blocks_bytes tx_hash_text 0
    ≡ ok (short_proposal, full_script)
unfolding zeros find_proposal_in_first_block trim_prefix find_in_txs read_proposal_cell
    get_unchecked write_dynvec BlockVec.build BlockVec.len BlockVec.get BlockVec.verify
    BlockVec.from_compatible_slice verify_dynvec dynvec_offsets tx_hash bytes_eq slice_range
    any_decrease verify_items verify_fields read_number chunk_numbers check_total_size
    check_offset_first read_offsets table_offsets verify_table item_count pack_offsets concat
    write_table Proposal.build Proposal.verify Proposal.from_slice Vote.build
host_finds = refl

host_reads : read_blocks host_packages blocks_bytes ≡ ok (host_block ∷ [])
unfolding read_blocks decode_blocks BlockVec.iter BlockVec.len BlockVec.build collect get_unchecked
    item_count read_number slice_range write_dynvec write_table pack_offsets concat
host_reads = refl

proposal_holds :
    (j : ℕ) (cell : CellOutput) (type_script : Script)
    → get_elem? (proposal_output ∷ []) j ≡ some cell
    → cell.type_ ≡ some type_script
    → bytes_eq (host_packages.script_slice type_script) (host_packages.script_slice full_script)
      ≡ true
    → get_elem? (short_proposal ∷ []) j ≡ some short_proposal
proposal_holds zero cell type_script e typed same = refl
proposal_holds (suc j) cell type_script e typed same = cc e

vote_holds :
    (j : ℕ) (cell : CellOutput) (type_script : Script)
    → get_elem? (vote_output ∷ []) j ≡ some cell
    → cell.type_ ≡ some type_script
    → bytes_eq (host_packages.script_slice type_script) (host_packages.script_slice full_script)
      ≡ true
    → get_elem? (vote_bytes ∷ []) j ≡ some short_proposal
unfolding bytes_eq
vote_holds zero cell type_script e typed same =
    let found : vote_output ≡ cell = cc e in
    let type_found : some full_vote_script ≡ some type_script = ap (λ c. c.type_) found ∙ typed in
    let script_found : full_vote_script ≡ type_script = cc type_found in
    let differs : bytes_eq (host_packages.script_slice full_vote_script)
          (host_packages.script_slice full_script)
        ≡ true =
      subst
        (λ t.
          bytes_eq (host_packages.script_slice t) (host_packages.script_slice full_script) ≡ true)
        (sym script_found) same in
    cc differs
vote_holds (suc j) cell type_script e typed same = cc e

host_find-find_proposal_example :
    find_proposal host_packages (host_block ∷ []) full_script ≡ ok (some short_proposal)
host_find-find_proposal_example =
    host_find-find_proposal host_packages (compatible_laws host_block) host_sdk blocks_bytes
      tx_hash_text 0 short_proposal full_script (host_block ∷ []) host_finds host_reads
      (proposal_holds, (vote_holds, tt))

confirmed : Confirmed host_packages host_sdk cli blocks_bytes report
confirmed =
    main-Confirmed host_packages host_sdk (number_laws host_block) (builder_laws host_block)
      host_sdk-RunsGuest cli blocks_bytes prepared report refl refl host_prepares prepared_size
      host_ends_well

abbrev named_find : Bytes × Script
named_find = (short_proposal, full_script)

abbrev confirmed_pair : Bytes × Script
confirmed_pair = (confirmed.proposal, confirmed.script)

confirmed_find : named_find ≡ confirmed_pair
confirmed_find =
    let same_hash : tx_hash_text ≡ confirmed.tx_hash = some-injective _ _ confirmed.hash_given in
    let same_index : 0 ≡ confirmed.index = some-injective _ _ confirmed.index_given in
    ok_inj (
      sym host_finds
      ∙ ap₂ (find_proposal_in_first_block host_packages host_sdk blocks_bytes) same_hash same_index
      ∙ confirmed.found)

confirmed_blocks : host_block ∷ [] ≡ confirmed.blocks
confirmed_blocks = ok_inj (sym host_reads ∙ confirmed.blocks_read)

confirmed_only : HoldsOnlyFirst host_packages confirmed.script confirmed.proposal confirmed.blocks
confirmed_only =
    subst (λ found. HoldsOnlyFirst host_packages (found.1) (found.0) confirmed.blocks)
      confirmed_find
      (subst (HoldsOnlyFirst host_packages full_script short_proposal) confirmed_blocks
        (proposal_holds, (vote_holds, tt)))

confirmed_script :
    host_packages.read_script (host_packages.script_slice confirmed.script) ≡ confirmed.script
confirmed_script =
    subst (λ found. host_packages.read_script (host_packages.script_slice (found.1)) ≡ found.1)
      confirmed_find refl

Confirmed-Carried_example :
    (confirmed.result.proposal ≡ confirmed.proposal)
    × Carried host_packages confirmed.blocks confirmed.script confirmed.result
Confirmed-Carried_example =
    Confirmed-Carried host_packages (compatible_laws host_block) host_sdk cli blocks_bytes report
      confirmed confirmed_only confirmed_script
