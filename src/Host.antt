-- ===== src/Host.antt =====
-- sp1/ckb-vote-verification/script/src/main.rs: the program that runs the guest, or proves its run.
-- The prover's package, the files and the hex decoder are fields of the record `Sdk`. A run that
-- exits with status 1 is an error, a failed `unwrap`, `expect` or assertion a panic. What is printed
-- is a result; the hex text of the hashes and the cycle counts are left out.
pub mod Outputs
pub mod Search
pub mod Values
pub mod Laws
pub mod Accepted
use ckb_vote_poc.Base.{
  ℕ, ◌+◌, ◌/◌, Bool, true, false, not, Option, none, some, List, [], ◌∷◌, ◌++◌, length, get_elem?,
  bytes_eq, ◌==◌, if◌then◌else◌, Result, ok, err, panic, ◌>>=◌, ◌>>◌, fail_if, ok_or, unwrap,
  expect, map_err,
}
use ckb_vote_poc.Chain.{Bytes, Packages, VerificationError, Script, Transaction, Block}
use ckb_vote_poc.Molecule.BlockVec
use ckb_vote_poc.Molecule.Proposal
use ckb_vote_poc.Molecule.Proposal.Builder.{ProposalBuilder}
use ckb_vote_poc.Molecule.PublicValues
use ckb_vote_poc.Molecule.GuestProgramArguments
use ckb_vote_poc.Integrity.{tx_hash}
use ckb_vote_poc.Count.Read.{from_le_bytes}
use ckb_vote_poc.Prepare.{prepare_guest_program_arguments}
use ckb_vote_poc.TestTool.{generate_from_templates}

-- The command line.
pub record Args : Type 0 where
  pub execute : Bool
  pub prove : Bool
  pub prove_via_network : Bool
  pub mock : Bool
  pub input : Bytes
  pub output : Bytes
  pub proposal_tx_hash : Option Bytes
  pub proposal_index : Option ℕ

-- The files that are written: the key's, and two in the output folder.
pub data File : Type 0 where
  verifying_key_path : File
  proof_output : Bytes → File
  public_values_output : Bytes → File

pub record Proof : Type 0 where
  pub public_values : Bytes
  pub bytes : Bytes

-- What is called: none where the call fails.
pub record Sdk : Type 0 where
  pub hex_decode : Bytes → Option Bytes
  pub read : Bytes → Option Bytes
  pub write : File → Bytes → Option (Unit {0})
  pub setup : Option Bytes
  pub execute : Bytes → Option Bytes
  pub prove_core : Bytes → Option Proof
  pub prove_plonk : Bytes → Option Proof
  pub verify : Proof → Bytes → Option (Unit {0})

-- Why the program exits with status 1.
pub data Error : Type 0 where
  invalid_proposal_tx_hash : Error
  proposal_tx_hash_size : Error
  invalid_block_data : Error
  no_blocks : Error
  proposal_index_out_of_range : Error
  no_type_script : Error
  proposal_not_parsed : Error
  transaction_not_found : Error
  not_one_mode : Error
  input_not_read : Error
  proposal_tx_hash_required : Error
  proposal_index_required : Error

-- What `print_public_values` prints.
pub record Report : Type 0 where
  pub start_block_hash : Bytes
  pub end_block_hash : Bytes
  pub yes_vote : ℕ
  pub no_vote : ℕ
  pub passed : Bool

-- `trim_start_matches("0x")`
unfoldable pub trim_prefix : Bytes → Bytes
trim_prefix [] = []
trim_prefix (c ∷ []) = c ∷ []
trim_prefix (c ∷ d ∷ rest) =
    let trimmed = trim_prefix rest in
    if bytes_eq (c ∷ d ∷ []) (48 ∷ 120 ∷ []) then trimmed else c ∷ d ∷ rest

-- `.filter(|&m| m).count()`
unfoldable pub count_true : List Bool → ℕ
count_true [] = 0
count_true (true ∷ modes) = 1 + count_true modes
count_true (false ∷ modes) = count_true modes

module _ (P : Packages) where
  unfoldable pub sample_proposal : Bytes
  sample_proposal = Proposal.Builder.build P (
      Proposal.Builder.with_minimal_requirement
        (Proposal.Builder.with_vote_cell_hash_type
          (Proposal.Builder.with_vote_cell_code_hash (Proposal.Builder.new_builder P) ones)
          (0 ∷ []))
        (0 ∷ 0 ∷ 0 ∷ 0 ∷ 0 ∷ 0 ∷ 0 ∷ 0 ∷ []))
    where
      eight_ones : Bytes
      eight_ones = 1 ∷ 1 ∷ 1 ∷ 1 ∷ 1 ∷ 1 ∷ 1 ∷ 1 ∷ []

      ones : Bytes
      ones = eight_ones ++ eight_ones ++ eight_ones ++ eight_ones

  -- The proposal and the type script of a transaction's output.
  unfoldable pub read_proposal_cell : Transaction → ℕ → Result Error (Bytes × Script)
  read_proposal_cell tx output_index = do
    output ← ok_or (get_elem? tx.raw.outputs output_index) proposal_index_out_of_range
    type_script ← ok_or output.type_ no_type_script
    data_ ← ok_or (get_elem? tx.raw.outputs_data output_index) proposal_index_out_of_range
    proposal ← map_err (Proposal.from_slice P data_) proposal_not_parsed
    ok (proposal, type_script)

  -- `for i in 0..txs.len()`
  unfoldable pub find_in_txs : Bytes → ℕ → List Transaction → Result Error (Bytes × Script)
  find_in_txs tx_hash_bytes output_index [] = err transaction_not_found
  find_in_txs tx_hash_bytes output_index (tx ∷ txs) =
      let rest = find_in_txs tx_hash_bytes output_index txs in
      if bytes_eq (tx_hash P tx) tx_hash_bytes then read_proposal_cell tx output_index else rest

  -- A run of the guest on what is written to its stdin.
  unfoldable pub prepare_stdin_real : Bytes → Script → Result VerificationError Bytes
  prepare_stdin_real block_data proposal_script = do
    base_args ← prepare_guest_program_arguments P block_data
    blocks ← GuestProgramArguments.blocks P base_args
    witness_root ← GuestProgramArguments.witness_root P base_args
    ok (GuestProgramArguments.build P blocks witness_root (P.script_slice proposal_script))

  unfoldable pub prepare_stdin_mock : Bytes → Bytes → Result Error Bytes
  prepare_stdin_mock block_data proposal = expect (generate_from_templates P proposal block_data)

  unfoldable pub print_public_values : Bytes → Result VerificationError Report
  print_public_values pv_bytes = do
    pv ← expect {F = VerificationError} (PublicValues.from_slice P pv_bytes)
    start_block_hash ← PublicValues.start_block_hash P pv
    end_block_hash ← PublicValues.end_block_hash P pv
    yes_slice ← PublicValues.yes_vote P pv
    yes_vote ← from_le_bytes 8 yes_slice
    no_slice ← PublicValues.no_vote P pv
    no_vote ← from_le_bytes 8 no_slice
    flag_slice ← PublicValues.passed P pv
    flag ← unwrap (get_elem? flag_slice 0)
    ok (record {
      start_block_hash = start_block_hash;
      end_block_hash = end_block_hash;
      yes_vote = yes_vote / 100000000;
      no_vote = no_vote / 100000000;
      passed = not (flag == 0);
    })

  unfoldable pub assert_passed : Bytes → Result VerificationError (Unit {0})
  assert_passed pv_bytes = do
    pv ← expect {F = VerificationError} (PublicValues.from_slice P pv_bytes)
    flag_slice ← PublicValues.passed P pv
    flag ← unwrap (get_elem? flag_slice 0)
    if flag == 1 then ok tt else panic

  module _ (sdk : Sdk) where
    unfoldable pub find_proposal_in_first_block : Bytes → Bytes → ℕ → Result Error (Bytes × Script)
    find_proposal_in_first_block block_data tx_hash_hex output_index = do
      tx_hash_bytes ← ok_or (sdk.hex_decode (trim_prefix tx_hash_hex)) invalid_proposal_tx_hash
      fail_if (not (length tx_hash_bytes == 32)) proposal_tx_hash_size
      block_vec ← map_err (BlockVec.from_compatible_slice P block_data) invalid_block_data
      found ← expect (BlockVec.get P block_vec 0)
      first_block ← ok_or found no_blocks
      block ← unwrap (P.read_block first_block)
      find_in_txs tx_hash_bytes output_index block.transactions

    unfoldable pub save_verifying_key : Result Error Bytes
    save_verifying_key = do
      key ← unwrap sdk.setup
      unwrap (sdk.write verifying_key_path key)
      ok key

    unfoldable pub run_execute : Bytes → Result Error Report
    run_execute stdin = do
      key ← save_verifying_key
      pv_bytes ← unwrap (sdk.execute stdin)
      report ← expect (print_public_values pv_bytes)
      expect (assert_passed pv_bytes)
      ok report

    unfoldable pub run_prove : Bytes → Result Error Report
    run_prove stdin = do
      key ← save_verifying_key
      proof ← unwrap (sdk.prove_core stdin)
      report ← expect (print_public_values proof.public_values)
      unwrap (sdk.verify proof key)
      expect (assert_passed proof.public_values)
      ok report

    unfoldable pub run_prove_via_network : Bytes → Bytes → Result Error Report
    run_prove_via_network stdin output_dir = do
      key ← save_verifying_key
      proof ← unwrap (sdk.prove_plonk stdin)
      report ← expect (print_public_values proof.public_values)
      unwrap (sdk.verify proof key)
      expect (assert_passed proof.public_values)
      unwrap (sdk.write (proof_output output_dir) proof.bytes)
      unwrap (sdk.write (public_values_output output_dir) proof.public_values)
      ok report

    -- What the guest is given.
    unfoldable pub prepare_stdin : Args → Bytes → Result Error Bytes
    prepare_stdin cli block_data =
        if cli.mock then prepare_stdin_mock block_data sample_proposal else do
          tx_hash ← ok_or cli.proposal_tx_hash proposal_tx_hash_required
          index ← ok_or cli.proposal_index proposal_index_required
          found ← find_proposal_in_first_block block_data tx_hash index
          expect (prepare_stdin_real block_data (found.1))

    unfoldable pub main : Args → Result Error Report
    main cli = do
      fail_if (not (count_true (cli.execute ∷ cli.prove ∷ cli.prove_via_network ∷ []) == 1))
          not_one_mode
      block_data ← ok_or (sdk.read cli.input) input_not_read
      stdin ← prepare_stdin cli block_data
      if cli.execute
          then run_execute stdin
          else if cli.prove
          then run_prove stdin
          else run_prove_via_network stdin cli.output
