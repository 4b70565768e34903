-- ===== src/Host/Laws.antt =====
-- What a run of the host that ends well shows of the blocks in its input.
use mathlib.Core.Option.{some-injective}
use ckb_vote_poc.Base.{
  ℕ, ◌^◌, ◌<◌, ◌≡◌, sym, ap, subst, ◌∙◌, inl, inr, Bool-cases, true, false, not, some, List, [],
  ◌∷◌, length, ◌==◌, if◌then◌else◌, ok, unwrap, expect, fail_if-eq-ok, >>=-eq-ok, unwrap-eq-ok,
  expect-eq-ok, ok_or, ok_or-eq-ok, ok_inj,
}
use ckb_vote_poc.Chain.{Bytes, Packages, NumberLaws, BuilderLaws, VerificationError, Script, Block}
use ckb_vote_poc.Molecule.BlockVec
use ckb_vote_poc.Molecule.GuestProgramArguments
use ckb_vote_poc.Molecule.Fields.{guest_program_arguments_fields}
use ckb_vote_poc.Integrity.{header_hash}
use ckb_vote_poc.Integrity.Laws.{IsIntact}
use ckb_vote_poc.Count.{VoteResult, count_vote}
use ckb_vote_poc.Guest
use ckb_vote_poc.Guest.{read_blocks, public_values, to_le_bytes}
use ckb_vote_poc.Prepare.{all_witness_root, prepare_guest_program_arguments}
use ckb_vote_poc.Host.Values.{main-Counted, assert_passed-public_values}
use ckb_vote_poc.Host.{
  Args, Sdk, Report, prepare_stdin_real, prepare_stdin, print_public_values, assert_passed,
  find_proposal_in_first_block, save_verifying_key, run_execute, run_prove, run_prove_via_network,
  main, input_not_read, proposal_tx_hash_required, proposal_index_required, Proof, proof_output,
  public_values_output, count_true,
}

module _ (P : Packages) where
  prepared_fields :
      NumberLaws P
      → BuilderLaws P
      → (block_data base : Bytes) → prepare_guest_program_arguments P block_data ≡ ok base
      → length base < 2 ^ 32
      → (roots : Bytes) × (GuestProgramArguments.blocks P base ≡ ok (P.build_bytes block_data))
        × (GuestProgramArguments.witness_root P base ≡ ok roots)
  unfolding prepare_guest_program_arguments
  prepared_fields L B block_data base prepared small =
      let (u, e₁, p₁) =
        >>=-eq-ok (expect {E = VerificationError} (BlockVec.verify P block_data true)) _ prepared in
      let (blocks, e₂, p₂) = >>=-eq-ok (read_blocks P block_data) _ p₁ in
      let (roots, e₃, p₃) = >>=-eq-ok (all_witness_root P blocks) _ p₂ in
      let built = ok_inj p₃ in
      let fields =
        guest_program_arguments_fields P L (P.build_bytes block_data) (P.build_byte32_vec roots)
          P.default_script (subst (λ slice. length slice < 2 ^ 32) (sym built) small) in
      (
        P.build_byte32_vec roots,
        ap (GuestProgramArguments.blocks P) (sym built) ∙ fields.0,
        ap (GuestProgramArguments.witness_root P) (sym built) ∙ fields.1,
      )

  prepare_stdin_real-built :
      NumberLaws P
      → BuilderLaws P
      → (block_data base stdin : Bytes) (script : Script)
      → prepare_guest_program_arguments P block_data ≡ ok base
      → length base < 2 ^ 32
      → prepare_stdin_real P block_data script ≡ ok stdin
      → (roots : Bytes) × (stdin
          ≡ GuestProgramArguments.build P (P.build_bytes block_data) roots (P.script_slice script))
  unfolding prepare_stdin_real
  prepare_stdin_real-built L B block_data base stdin script prepared small h =
      let (roots, blocks_read, roots_read) = prepared_fields L B block_data base prepared small in
      (roots, sym (ok_inj (rw (prepared, blocks_read, roots_read) at h)))

  module _ (sdk : Sdk) where
    -- The prover's package runs the guest program: what it returns was committed on the stdin.
    pub record RunsGuest : Type 0 where
      pub executed : (stdin pv : Bytes) → sdk.execute stdin ≡ some pv → Guest.main P stdin ≡ ok pv
      pub proved_core :
          (stdin : Bytes) (proof : Proof)
          → sdk.prove_core stdin ≡ some proof
          → Guest.main P stdin ≡ ok proof.public_values
      pub proved_plonk :
          (stdin : Bytes) (proof : Proof)
          → sdk.prove_plonk stdin ≡ some proof
          → Guest.main P stdin ≡ ok proof.public_values

    -- A run of the guest that committed values which say passed, and the report on them.
    abbrev Ran : Bytes → Report → Type 0
    Ran stdin report =
        (pv : Bytes) × (Guest.main P stdin ≡ ok pv)
        × (print_public_values P pv ≡ ok report)
        × (assert_passed P pv ≡ ok tt)

    run_execute-Ran :
        RunsGuest
        → (stdin : Bytes) (report : Report) → run_execute P sdk stdin ≡ ok report
        → Ran stdin report
    unfolding run_execute
    run_execute-Ran R stdin report h =
        let (key, e₁, h₁) = >>=-eq-ok (save_verifying_key P sdk) _ h in
        let (pv, e₂, h₂) = >>=-eq-ok (unwrap (sdk.execute stdin)) _ h₁ in
        let (printed, e₃, h₃) = >>=-eq-ok (expect (print_public_values P pv)) _ h₂ in
        let (u, e₄, h₄) = >>=-eq-ok (expect (assert_passed P pv)) _ h₃ in
        (
          pv,
          R.executed stdin pv (unwrap-eq-ok _ e₂),
          expect-eq-ok _ e₃ ∙ ap ok (ok_inj h₄),
          expect-eq-ok _ e₄,
        )

    run_prove-Ran :
        RunsGuest
        → (stdin : Bytes) (report : Report) → run_prove P sdk stdin ≡ ok report
        → Ran stdin report
    unfolding run_prove
    run_prove-Ran R stdin report h =
        let (key, e₁, h₁) = >>=-eq-ok (save_verifying_key P sdk) _ h in
        let (proof, e₂, h₂) = >>=-eq-ok (unwrap (sdk.prove_core stdin)) _ h₁ in
        let (printed, e₃, h₃) =
          >>=-eq-ok (expect (print_public_values P proof.public_values)) _ h₂ in
        let (u, e₄, h₄) = >>=-eq-ok (unwrap (sdk.verify proof key)) _ h₃ in
        let (v, e₅, h₅) = >>=-eq-ok (expect (assert_passed P proof.public_values)) _ h₄ in
        (
          proof.public_values,
          R.proved_core stdin proof (unwrap-eq-ok _ e₂),
          expect-eq-ok _ e₃ ∙ ap ok (ok_inj h₅),
          expect-eq-ok _ e₅,
        )

    run_prove_via_network-Ran :
        RunsGuest
        → (stdin output_dir : Bytes) (report : Report)
        → run_prove_via_network P sdk stdin output_dir ≡ ok report
        → Ran stdin report
    unfolding run_prove_via_network
    run_prove_via_network-Ran R stdin output_dir report h =
        let (key, e₁, h₁) = >>=-eq-ok (save_verifying_key P sdk) _ h in
        let (proof, e₂, h₂) = >>=-eq-ok (unwrap (sdk.prove_plonk stdin)) _ h₁ in
        let (printed, e₃, h₃) =
          >>=-eq-ok (expect (print_public_values P proof.public_values)) _ h₂ in
        let (u, e₄, h₄) = >>=-eq-ok (unwrap (sdk.verify proof key)) _ h₃ in
        let (v, e₅, h₅) = >>=-eq-ok (expect (assert_passed P proof.public_values)) _ h₄ in
        let (w, e₆, h₆) =
          >>=-eq-ok (unwrap (sdk.write (proof_output output_dir) proof.bytes)) _ h₅ in
        let (x, e₇, h₇) =
          >>=-eq-ok (unwrap (sdk.write (public_values_output output_dir) proof.public_values)) _
            h₆ in
        (
          proof.public_values,
          R.proved_plonk stdin proof (unwrap-eq-ok _ e₂),
          expect-eq-ok _ e₃ ∙ ap ok (ok_inj h₇),
          expect-eq-ok _ e₅,
        )

    run-Ran :
        RunsGuest
        → (cli : Args) (stdin : Bytes) (report : Report)
        → (if cli.execute
            then run_execute P sdk stdin
            else if cli.prove
            then run_prove P sdk stdin
            else run_prove_via_network P sdk stdin cli.output)
          ≡ ok report
        → Ran stdin report
    run-Ran R cli stdin report h = elim (Bool-cases cli.execute) [
      | inl e ↦ run_execute-Ran R stdin report (rw e at h)
      | inr e ↦
          let h' = rw e at h in
          elim (Bool-cases cli.prove) [
            | inl p ↦ run_prove-Ran R stdin report (rw p at h')
            | inr p ↦ run_prove_via_network-Ran R stdin cli.output report (rw p at h')
          ]
    ]

    -- The blocks of the input are intact, and `count_vote` says that the vote passed when it is given
    -- them and the type script of the output that the command line names. Which proposal it counted
    -- for is a question of its own: it looks for that type script, not for that output.
    pub record Confirmed (cli : Args) (block_data : Bytes) (report : Report) : Type 0 where
      pub tx_hash : Bytes
      pub index : ℕ
      pub proposal : Bytes
      pub script : Script
      pub blocks : List Block
      pub witness_roots : List Bytes
      pub result : VoteResult
      pub hash_given : cli.proposal_tx_hash ≡ some tx_hash
      pub index_given : cli.proposal_index ≡ some index
      pub found :
          find_proposal_in_first_block P sdk block_data tx_hash index ≡ ok (proposal, script)
      pub blocks_read : read_blocks P block_data ≡ ok blocks
      pub intact : IsIntact P blocks witness_roots
      pub counted : count_vote P blocks (P.read_script (P.script_slice script)) ≡ ok result
      pub passed : result.passed ≡ true

    prepare_stdin-real :
        (cli : Args) (block_data stdin : Bytes)
        → cli.mock ≡ false
        → prepare_stdin P sdk cli block_data ≡ ok stdin
        → (tx_hash : Bytes) × (index : ℕ) × (found : Bytes × Script) × (cli.proposal_tx_hash
            ≡ some tx_hash)
          × (cli.proposal_index ≡ some index)
          × (find_proposal_in_first_block P sdk block_data tx_hash index ≡ ok found)
          × (prepare_stdin_real P block_data (found.1) ≡ ok stdin)
    unfolding prepare_stdin
    prepare_stdin-real cli block_data stdin real h =
        let (tx_hash, e₁, h₁) =
          >>=-eq-ok (ok_or cli.proposal_tx_hash proposal_tx_hash_required) _ (rw real at h) in
        let (index, e₂, h₂) = >>=-eq-ok (ok_or cli.proposal_index proposal_index_required) _ h₁ in
        let (found, e₃, h₃) =
          >>=-eq-ok (find_proposal_in_first_block P sdk block_data tx_hash index) _ h₂ in
        (tx_hash, index, found, ok_or-eq-ok _ _ e₁, ok_or-eq-ok _ _ e₂, e₃, expect-eq-ok _ h₃)

    -- If the encodings of the packages are read back, and the prover's package runs the guest program,
    -- then a run without --mock that ends well, in any mode, shows that the blocks of the input
    -- file are intact, and that `count_vote` says of them that the vote passed when it is given the
    -- type script, read back from its bytes, of the output that the command line names, as long as the arguments that are
    -- prepared from the file fit the four bytes of a molecule number.
    pub main-Confirmed :
        NumberLaws P
        → BuilderLaws P
        → RunsGuest
        → (cli : Args) (block_data base : Bytes) (report : Report) → cli.mock ≡ false
        → sdk.read cli.input ≡ some block_data
        → prepare_guest_program_arguments P block_data ≡ ok base
        → length base < 2 ^ 32
        → main P sdk cli ≡ ok report
        → Confirmed cli block_data report
    unfolding main prepare_stdin
    main-Confirmed L B R cli block_data base report real given prepared small h =
        let (e₁, h₁) =
          fail_if-eq-ok
            (not (count_true (cli.execute ∷ cli.prove ∷ cli.prove_via_network ∷ []) == 1)) _ _ h in
        let (block_data', e₂, h₂) = >>=-eq-ok (ok_or (sdk.read cli.input) input_not_read) _ h₁ in
        let same : block_data' ≡ block_data =
          some-injective _ _ (sym (ok_or-eq-ok (sdk.read cli.input) _ e₂) ∙ given) in
        let (stdin, e₃, h₃) = >>=-eq-ok (prepare_stdin P sdk cli block_data') _ h₂ in
        let (tx_hash, index, (proposal, script), hash_given, index_given, found, written) =
          prepare_stdin-real cli block_data stdin real
            (subst (λ d. prepare_stdin P sdk cli d ≡ ok stdin) same e₃) in
        let (roots, built) =
          prepare_stdin_real-built L B block_data base stdin script prepared small written in
        let (pv, committed, printed, asserted) = run-Ran R cli stdin report h₃ in
        let c =
          main-Counted P L B block_data roots (P.script_slice script) pv
            (ap (Guest.main P) (sym built) ∙ committed) in
        record {
          tx_hash = tx_hash;
          index = index;
          proposal = proposal;
          script = script;
          blocks = c.blocks;
          witness_roots = c.witness_roots;
          result = c.result;
          hash_given = hash_given;
          index_given = index_given;
          found = found;
          blocks_read = c.blocks_read;
          intact = c.intact;
          counted = c.counted;
          passed =
              assert_passed-public_values P L pv (header_hash P c.first_block.header)
                (header_hash P c.last_block.header) (P.script_slice script) c.result c.values
                asserted;
        }
