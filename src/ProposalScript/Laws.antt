-- ===== src/ProposalScript/Laws.antt =====
-- What the proposal type script accepts.
use ckb_vote_poc.Base.{
  ◌≡◌, ap, ◌∙◌, ◌↔◌, true, not, some, get_elem?, ◌==◌, bytes_eq, bytes_eq_iff, Result, ok,
  >>=-eq-ok, ok_or-eq-ok, unwrap-eq-ok, map_err-eq-ok, fail_if-eq-ok, ok_or, unwrap, map_err, arith,
}
use ckb_vote_poc.Chain.{Bytes, Packages, Script, Header}
use ckb_vote_poc.Molecule.Proposal
use ckb_vote_poc.Molecule.PublicValues
use ckb_vote_poc.Molecule.ProposalWitness
use ckb_vote_poc.Syscalls.{output, group_input, group_output, Cell, WitnessArgs, Context, load_cell}
use ckb_vote_poc.Integrity.{header_hash}
use ckb_vote_poc.ProposalScript.{
  Error, type_id_invalid, witness_invalid, proof_verify_failed, proposal_mismatch,
  header_dep_missing, header_mismatch, script_mismatch, not_passed, multiple_proposal_outputs,
  proposal_data_invalid, Sp1, has_type_hash, count_cells, verify_sp1_vk_hash,
  verify_vote_cell_script, verify_duration, verify_amount, verify_minimal_requirement,
  verify_creation, check_field, check_public_values, vk_hash_hex, verify_consumption,
}

module _ (P : Packages) (sp1 : Sp1) (c : Context) where
  -- The cells created are one proposal cell with a type id and data that parses.
  pub record IsCreation (script_hash : Bytes) : Type 0 where
    pub cell : Cell
    pub proposal : Bytes
    pub type_id : c.check_type_id 0 20 ≡ some tt
    pub single : count_cells (has_type_hash script_hash) (c.cells output) ≡ 1
    pub created : get_elem? (c.cells group_output) 0 ≡ some cell
    pub parsed : Proposal.from_slice P cell.data_ ≡ ok proposal

  -- The public values are about this proposal, this script and the two header deps, and passed.
  pub record ShowsPassed (script : Script) (pv : Bytes) : Type 0 where
    pub cell : Cell
    pub start_header : Header
    pub end_header : Header
    pub passed : Bytes
    pub consumed : get_elem? (c.cells group_input) 0 ≡ some cell
    pub first_dep : get_elem? c.header_deps 0 ≡ some start_header
    pub second_dep : get_elem? c.header_deps 1 ≡ some end_header
    pub proposal : PublicValues.proposal P pv ≡ ok cell.data_
    pub start_hash : PublicValues.start_block_hash P pv ≡ ok (header_hash P start_header)
    pub end_hash : PublicValues.end_block_hash P pv ≡ ok (header_hash P end_header)
    pub script_slice : PublicValues.proposal_script P pv ≡ ok (P.script_slice script)
    pub passed_read : PublicValues.passed P pv ≡ ok passed
    pub is_one : get_elem? passed 0 ≡ some 1

  -- The witness holds public values that show a passed vote, and a proof of them.
  pub record IsSettlement (script : Script) : Type 0 where
    pub witness : WitnessArgs
    pub raw_witness : Bytes
    pub proposal_witness : Bytes
    pub proof : Bytes
    pub pv : Bytes
    pub loaded : c.load_witness_args 0 group_input ≡ some witness
    pub in_input_type : witness.input_type ≡ some raw_witness
    pub parsed : ProposalWitness.from_slice P raw_witness ≡ ok proposal_witness
    pub proof_read : ProposalWitness.proof P proposal_witness ≡ ok proof
    pub pv_read : ProposalWitness.public_values P proposal_witness ≡ ok pv
    pub shows : ShowsPassed script pv
    pub verified :
        sp1.plonk_verify
          (P.bytes_raw_data proof)
          pv
          (vk_hash_hex P sp1 c script.args)
          sp1.plonk_vk_bytes
        ≡ true

  check_field-eq-ok :
      (read : Result Error Bytes) (expected : Bytes) (e : Error)
      → check_field P sp1 c read expected e ≡ ok tt
      → read ≡ ok expected
  unfolding check_field
  check_field-eq-ok read expected e h =
      let (value, r, h₁) = >>=-eq-ok read _ h in
      let (b, h₂) = fail_if-eq-ok (not (bytes_eq value expected)) e _ h₁ in
      let same : value ≡ expected = ground (arith, bytes_eq_iff value expected) in r ∙ ap ok same

  pub verify_creation_sound :
      (args hash : Bytes) → verify_creation P sp1 c args hash ≡ ok tt → IsCreation hash
  unfolding verify_creation
  verify_creation_sound args hash h =
      let (u, e₁, h₁) = >>=-eq-ok (ok_or (c.check_type_id 0 20) type_id_invalid) _ h in
      let (e₂, h₂) =
        fail_if-eq-ok (not (count_cells (has_type_hash hash) (c.cells output) == 1))
          multiple_proposal_outputs _ h₁ in
      let (cell, e₃, h₃) =
        >>=-eq-ok (ok_or (load_cell c 0 group_output) proposal_data_invalid) _ h₂ in
      let (proposal, e₄, h₄) =
        >>=-eq-ok (map_err (Proposal.from_slice P cell.data_) proposal_data_invalid) _ h₃ in
      record {
        cell = cell;
        proposal = proposal;
        type_id = ok_or-eq-ok _ _ e₁;
        single = ground arith;
        created = ok_or-eq-ok _ _ e₃;
        parsed = map_err-eq-ok _ _ e₄;
      }

  -- Creation succeeds exactly if the type id is valid, exactly one output has the script's hash and
  -- its cell data is a `Proposal`: no field of the proposal and no byte of the verifying key's
  -- hash matters.
  pub verify_creation_iff :
      (args hash : Bytes) → (verify_creation P sp1 c args hash ≡ ok tt) ↔ IsCreation hash
  unfolding verify_creation verify_sp1_vk_hash verify_vote_cell_script verify_duration verify_amount
      verify_minimal_requirement
  verify_creation_iff args hash =
      (verify_creation_sound args hash, λ t. rw (t.type_id, t.single, t.created, t.parsed))

  public_values_sound :
      (script : Script) (pv : Bytes)
      → check_public_values P sp1 c script pv ≡ ok tt
      → ShowsPassed script pv
  unfolding check_public_values
  public_values_sound script pv h =
      let (cell, e₁, h₁) = >>=-eq-ok (ok_or (load_cell c 0 group_input) proposal_mismatch) _ h in
      let (u₂, e₂, h₂) =
        >>=-eq-ok
          (check_field P sp1 c (map_err (PublicValues.proposal P pv) proposal_mismatch) cell.data_
            proposal_mismatch)
          _ h₁ in
      let (start_header, e₃, h₃) =
        >>=-eq-ok (ok_or (get_elem? c.header_deps 0) header_dep_missing) _ h₂ in
      let (end_header, e₄, h₄) =
        >>=-eq-ok (ok_or (get_elem? c.header_deps 1) header_dep_missing) _ h₃ in
      let (u₅, e₅, h₅) =
        >>=-eq-ok
          (check_field P sp1 c (map_err (PublicValues.start_block_hash P pv) header_mismatch)
            (header_hash P start_header) header_mismatch)
          _ h₄ in
      let (u₆, e₆, h₆) =
        >>=-eq-ok
          (check_field P sp1 c (map_err (PublicValues.end_block_hash P pv) header_mismatch)
            (header_hash P end_header) header_mismatch)
          _ h₅ in
      let (u₇, e₇, h₇) =
        >>=-eq-ok
          (check_field P sp1 c (map_err (PublicValues.proposal_script P pv) script_mismatch)
            (P.script_slice script) script_mismatch)
          _ h₆ in
      let (passed, e₈, h₈) = >>=-eq-ok (map_err (PublicValues.passed P pv) not_passed) _ h₇ in
      let (flag, e₉, h₉) = >>=-eq-ok (unwrap (get_elem? passed 0)) _ h₈ in
      let (one, h') = fail_if-eq-ok (not (flag == 1)) not_passed _ h₉ in
      let flag_one : flag ≡ 1 = ground arith in
      record {
        cell = cell;
        start_header = start_header;
        end_header = end_header;
        passed = passed;
        consumed = ok_or-eq-ok _ _ e₁;
        first_dep = ok_or-eq-ok _ _ e₃;
        second_dep = ok_or-eq-ok _ _ e₄;
        proposal = map_err-eq-ok _ _ (check_field-eq-ok _ _ _ e₂);
        start_hash = map_err-eq-ok _ _ (check_field-eq-ok _ _ _ e₅);
        end_hash = map_err-eq-ok _ _ (check_field-eq-ok _ _ _ e₆);
        script_slice = map_err-eq-ok _ _ (check_field-eq-ok _ _ _ e₇);
        passed_read = map_err-eq-ok _ _ e₈;
        is_one = unwrap-eq-ok _ e₉ ∙ ap some flag_one;
      }

  pub consumption_sound :
      (script : Script) → verify_consumption P sp1 c script ≡ ok tt → IsSettlement script
  unfolding verify_consumption
  consumption_sound script h =
      let (witness, e₁, h₁) =
        >>=-eq-ok (ok_or (c.load_witness_args 0 group_input) witness_invalid) _ h in
      let (raw, e₂, h₂) = >>=-eq-ok (ok_or witness.input_type witness_invalid) _ h₁ in
      let (pw, e₃, h₃) =
        >>=-eq-ok (map_err (ProposalWitness.from_slice P raw) witness_invalid) _ h₂ in
      let (proof, e₄, h₄) = >>=-eq-ok (map_err (ProposalWitness.proof P pw) witness_invalid) _ h₃ in
      let (pv, e₅, h₅) =
        >>=-eq-ok (map_err (ProposalWitness.public_values P pw) witness_invalid) _ h₄ in
      let (u, e₆, h₆) = >>=-eq-ok (check_public_values P sp1 c script pv) _ h₅ in
      let (e₇, h₇) =
        fail_if-eq-ok
          (not (
            sp1.plonk_verify (P.bytes_raw_data proof) pv (vk_hash_hex P sp1 c script.args)
              sp1.plonk_vk_bytes))
          proof_verify_failed _ h₆ in
      record {
        witness = witness;
        raw_witness = raw;
        proposal_witness = pw;
        proof = proof;
        pv = pv;
        loaded = ok_or-eq-ok _ _ e₁;
        in_input_type = ok_or-eq-ok _ _ e₂;
        parsed = map_err-eq-ok _ _ e₃;
        proof_read = map_err-eq-ok _ _ e₄;
        pv_read = map_err-eq-ok _ _ e₅;
        shows = public_values_sound script pv e₆;
        verified = ground arith;
      }
