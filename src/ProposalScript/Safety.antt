-- ===== src/ProposalScript/Safety.antt =====
-- The exit code of the proposal type script.
use ckb_vote_poc.Base.{
  ℕ, ◌<◌, ◌≡◌, subst, ◌↔◌, false, not, ◌&&◌, some, length, get_elem?, ◌==◌, bytes_eq, Result, ok,
  ok_or, unwrap, map_err, >>=-eq-ok, ok_inj, map_err-eq-ok, Returns, NoPanic, NoPanic-bind,
  NoPanic-fail_if, NoPanic-if, NoPanic-ok_or, NoPanic-map_err, arith,
}
use ckb_vote_poc.Chain.{Bytes, Packages, NumberLaws, VerifierLaws, VerificationError, Script}
use ckb_vote_poc.Molecule.Proposal
use ckb_vote_poc.Molecule.PublicValues
use ckb_vote_poc.Molecule.ProposalWitness
use ckb_vote_poc.Molecule.Typed.{public_values_parts, proposal_witness_parts}
use ckb_vote_poc.Molecule.Safety.{proposal-NoPanic, proposal_witness-NoPanic}
use ckb_vote_poc.Syscalls.{input, output, group_input, group_output, Context, load_cell}
use ckb_vote_poc.Syscalls.Exit.{unwrap_first, returned_NoPanic, returned_eq, exit_code_of}
use ckb_vote_poc.ProposalScript.{
  Error, code, appears_on_both_sides, type_id_invalid, args_invalid, witness_invalid,
  proof_verify_failed, proposal_mismatch, header_dep_missing, header_mismatch, script_mismatch,
  not_passed, multiple_proposal_outputs, proposal_data_invalid, Sp1, has_type_hash, any_cell,
  count_cells, verify_sp1_vk_hash, verify_vote_cell_script, verify_duration, verify_amount,
  verify_minimal_requirement, verify_creation, check_field, check_public_values, vk_hash_hex,
  verify_consumption, run, program_entry,
}

module _ (P : Packages) (sp1 : Sp1) (c : Context) (L : NumberLaws P) (V : VerifierLaws P) where
  check_field-NoPanic :
      {F : Bytes → Type 0} (read : Result VerificationError Bytes) (expected : Bytes) (e : Error)
      → Returns F read
      → NoPanic (check_field P sp1 c (map_err read e) expected e)
  unfolding check_field
  check_field-NoPanic read expected e p =
      NoPanic-bind (map_err read e) _ (returned_NoPanic read e p)
        λ value r. NoPanic-fail_if (not (bytes_eq value expected)) _ _ λ b. tt

  check_public_values-NoPanic :
      (script : Script) (pv : Bytes)
      → PublicValues.verify P pv false ≡ ok tt
      → NoPanic (check_public_values P sp1 c script pv)
  unfolding check_public_values
  check_public_values-NoPanic script pv h =
      let (proposal, start, end, slice, passed, yes_vote, no_vote) =
        public_values_parts P L pv false h in
      NoPanic-bind (ok_or (load_cell c 0 group_input) proposal_mismatch) _ (NoPanic-ok_or _ _)
        λ cell e₁. NoPanic-bind _ _ (check_field-NoPanic _ _ _ proposal) λ u₂ e₂.
          NoPanic-bind (ok_or (get_elem? c.header_deps 0) header_dep_missing) _ (NoPanic-ok_or _ _)
            λ start_header e₃.
              NoPanic-bind (ok_or (get_elem? c.header_deps 1) header_dep_missing) _
                (NoPanic-ok_or _ _)
                λ end_header e₄. NoPanic-bind _ _ (check_field-NoPanic _ _ _ start) λ u₅ e₅.
                  NoPanic-bind _ _ (check_field-NoPanic _ _ _ end) λ u₆ e₆.
                    NoPanic-bind _ _ (check_field-NoPanic _ _ _ slice) λ u₇ e₇.
                      NoPanic-bind (map_err (PublicValues.passed P pv) not_passed) _
                        (returned_NoPanic _ _ passed)
                        λ bytes e₈.
                          NoPanic-bind (unwrap (get_elem? bytes 0)) _
                            (unwrap_first Error bytes
                              (V.byte_size bytes false (returned_eq _ _ bytes passed e₈)))
                            λ flag e₉. NoPanic-fail_if (not (flag == 1)) _ _ λ e. tt

  parsed_witness :
      (raw witness : Bytes)
      → ProposalWitness.from_slice P raw ≡ ok witness
      → ProposalWitness.verify P witness false ≡ ok tt
  unfolding ProposalWitness.from_slice
  parsed_witness raw witness h =
      let (u, e, h₁) = >>=-eq-ok (ProposalWitness.verify P raw false) _ h in
      subst (λ slice. ProposalWitness.verify P slice false ≡ ok tt) (ok_inj h₁) e

  witness_from_slice-NoPanic : (raw : Bytes) → NoPanic (ProposalWitness.from_slice P raw)
  unfolding ProposalWitness.from_slice
  witness_from_slice-NoPanic raw =
      NoPanic-bind (ProposalWitness.verify P raw false) _ (proposal_witness-NoPanic P L V false raw)
        λ u e. tt

  proposal_from_slice-NoPanic : (cell : Bytes) → NoPanic (Proposal.from_slice P cell)
  unfolding Proposal.from_slice
  proposal_from_slice-NoPanic cell =
      NoPanic-bind (Proposal.verify P cell false) _ (proposal-NoPanic P L V false cell) λ u e. tt

  consumption-NoPanic : (script : Script) → NoPanic (verify_consumption P sp1 c script)
  unfolding verify_consumption
  consumption-NoPanic script =
      NoPanic-bind (ok_or (c.load_witness_args 0 group_input) witness_invalid) _ (NoPanic-ok_or _ _)
        λ witness e₁.
          NoPanic-bind (ok_or witness.input_type witness_invalid) _ (NoPanic-ok_or _ _) λ raw e₂.
            NoPanic-bind (map_err (ProposalWitness.from_slice P raw) witness_invalid) _
              (NoPanic-map_err _ _ (witness_from_slice-NoPanic raw))
              λ pw e₃.
                let (proof, values) =
                  proposal_witness_parts P L pw false
                    (parsed_witness raw pw (map_err-eq-ok _ _ e₃)) in
                NoPanic-bind (map_err (ProposalWitness.proof P pw) witness_invalid) _
                  (returned_NoPanic _ _ proof)
                  λ bytes e₄.
                    NoPanic-bind (map_err (ProposalWitness.public_values P pw) witness_invalid) _
                      (returned_NoPanic _ _ values)
                      λ pv e₅.
                        NoPanic-bind (check_public_values P sp1 c script pv) _
                          (check_public_values-NoPanic script pv (returned_eq _ _ pv values e₅))
                          λ u e₆.
                            NoPanic-fail_if
                              (not (
                                sp1.plonk_verify (P.bytes_raw_data bytes) pv
                                  (vk_hash_hex P sp1 c script.args) sp1.plonk_vk_bytes))
                              _ _ λ e₇. tt

  creation-NoPanic : (args hash : Bytes) → NoPanic (verify_creation P sp1 c args hash)
  unfolding verify_creation verify_sp1_vk_hash verify_vote_cell_script verify_duration verify_amount
      verify_minimal_requirement
  creation-NoPanic args hash =
      NoPanic-bind (ok_or (c.check_type_id 0 20) type_id_invalid) _ (NoPanic-ok_or _ _) λ u e₁.
        NoPanic-fail_if (not (count_cells (has_type_hash hash) (c.cells output) == 1)) _ _ λ e₂.
          NoPanic-bind (ok_or (load_cell c 0 group_output) proposal_data_invalid) _
            (NoPanic-ok_or _ _)
            λ cell e₃.
              NoPanic-bind (map_err (Proposal.from_slice P cell.data_) proposal_data_invalid) _
                (NoPanic-map_err _ _ (proposal_from_slice-NoPanic cell.data_)) λ proposal e₄. tt

  -- The proposal type script never panics.
  pub run-NoPanic : NoPanic (run P sp1 c)
  unfolding run
  run-NoPanic = NoPanic-bind (ok_or c.load_script args_invalid) _ (NoPanic-ok_or _ _) λ script e₁.
      NoPanic-fail_if (not (length script.args == 52)) _ _ λ e₂.
        NoPanic-fail_if
          (any_cell (has_type_hash (P.blake2b (P.script_slice script))) (c.cells input)
            && any_cell (has_type_hash (P.blake2b (P.script_slice script))) (c.cells output))
          _ _
          λ e₃.
            NoPanic-if
              (any_cell (has_type_hash (P.blake2b (P.script_slice script))) (c.cells output)) _ _
              (λ e₄. creation-NoPanic script.args _) (λ e₄. consumption-NoPanic script)

code-positive : (e : Error) → 0 < code e
unfolding code
code-positive appears_on_both_sides = omega arith
code-positive type_id_invalid = omega arith
code-positive args_invalid = omega arith
code-positive witness_invalid = omega arith
code-positive proof_verify_failed = omega arith
code-positive proposal_mismatch = omega arith
code-positive header_dep_missing = omega arith
code-positive header_mismatch = omega arith
code-positive script_mismatch = omega arith
code-positive not_passed = omega arith
code-positive multiple_proposal_outputs = omega arith
code-positive proposal_data_invalid = omega arith

-- If the packages' verifiers return and numbers follow the molecule format, the proposal type script ends with
-- an exit code, whatever the transaction holds, and the code is 0 exactly when `run` succeeds.
pub proposal_exit_code :
    (P : Packages) (sp1 : Sp1) (c : Context)
    → NumberLaws P
    → VerifierLaws P
    → (n : ℕ) × (program_entry P sp1 c ≡ some n) × ((n ≡ 0) ↔ (run P sp1 c ≡ ok tt))
unfolding program_entry
proposal_exit_code P sp1 c L V =
    exit_code_of code (run P sp1 c) code-positive (run-NoPanic P sp1 c L V)
