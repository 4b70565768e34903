-- ===== src/ProposalScript/Run.antt =====
-- When the proposal type script succeeds, on both of its paths.
use ckb_vote_poc.Base.{
  ◌≡◌, ◌↔◌, ◌⊎◌, inl, inr, Bool-cases, true, false, not, ◌&&◌, some, length, bytes_eq_refl, ◌==◌,
  Result, ok, err, >>=-eq-ok, ok_or-eq-ok, fail_if-eq-ok, ok_or, arith,
}
use ckb_vote_poc.Chain.{Bytes, Packages, Script}
use ckb_vote_poc.Syscalls.{input, output, Context}
use ckb_vote_poc.ProposalScript.{
  Error, appears_on_both_sides, args_invalid, Sp1, has_type_hash, any_cell, check_field,
  check_public_values, verify_consumption, run,
}
use ckb_vote_poc.ProposalScript.Laws.{
  IsCreation, ShowsPassed, IsSettlement, verify_creation_iff, verify_creation_sound,
  consumption_sound,
}

module _ (P : Packages) (sp1 : Sp1) (c : Context) where
  check_field_complete :
      (read : Result Error Bytes) (expected : Bytes) (e : Error)
      → read ≡ ok expected
      → check_field P sp1 c read expected e ≡ ok tt
  unfolding check_field
  check_field_complete read expected e h = rw (h, bytes_eq_refl expected)

  public_values_complete :
      (script : Script) (pv : Bytes)
      → ShowsPassed P sp1 c script pv
      → check_public_values P sp1 c script pv ≡ ok tt
  unfolding check_public_values check_field
  public_values_complete script pv s = simp (
    s.consumed, s.first_dep, s.second_dep, s.proposal, s.start_hash, s.end_hash, s.script_slice,
    s.passed_read, s.is_one, bytes_eq_refl,
  )

  consumption_complete :
      (script : Script) → IsSettlement P sp1 c script → verify_consumption P sp1 c script ≡ ok tt
  unfolding verify_consumption
  consumption_complete script s = simp (
    s.loaded,
    s.in_input_type,
    s.parsed,
    s.proof_read,
    s.pv_read,
    public_values_complete script s.pv s.shows,
    s.verified,
  )

  -- Whether a cell of the script's type is among the inputs, and among the outputs.
  abbrev pub Created : Script → Type 0
  Created script =
      (any_cell (has_type_hash (P.blake2b (P.script_slice script))) (c.cells output) ≡ true)
      × (any_cell (has_type_hash (P.blake2b (P.script_slice script))) (c.cells input) ≡ false)

  abbrev pub NotCreated : Script → Type 0
  NotCreated script =
      any_cell (has_type_hash (P.blake2b (P.script_slice script))) (c.cells output) ≡ false

  abbrev pub Outcome : Script → Type 0
  Outcome script =
      (Created script × IsCreation P sp1 c (P.blake2b (P.script_slice script)))
      ⊎ (NotCreated script × IsSettlement P sp1 c script)

  run_sound :
      run P sp1 c ≡ ok tt
      → (script : Script) × (c.load_script ≡ some script)
        × (length script.args ≡ 52)
        × Outcome script
  unfolding run
  run_sound h =
      let (script, e₁, h₁) = >>=-eq-ok (ok_or c.load_script args_invalid) _ h in
      let (e₂, h₂) = fail_if-eq-ok (not (length script.args == 52)) args_invalid _ h₁ in
      let test = has_type_hash (P.blake2b (P.script_slice script)) in
      let (e₃, h₃) =
        fail_if-eq-ok (any_cell test (c.cells input) && any_cell test (c.cells output))
          appears_on_both_sides _ h₂ in
      let outcome : Outcome script = elim (Bool-cases (any_cell test (c.cells output))) [
        | inl out ↦
            inl ((out, ground arith), verify_creation_sound P sp1 c script.args _ (rw out at h₃))
        | inr gone ↦ inr (gone, consumption_sound P sp1 c script (rw gone at h₃))
      ] in
      (script, ok_or-eq-ok _ _ e₁, ground arith, outcome)

  run_complete :
      (script : Script)
      → c.load_script ≡ some script
      → length script.args ≡ 52
      → Outcome script
      → run P sp1 c ≡ ok tt
  unfolding run
  run_complete script e n (inl ((out, not_in), t)) =
      simp (e, n, out, not_in) ((verify_creation_iff P sp1 c script.args _).1 t)
  run_complete script e n (inr (gone, t)) =
      let both : (any_cell (has_type_hash (P.blake2b (P.script_slice script))) (c.cells input)
            && any_cell (has_type_hash (P.blake2b (P.script_slice script))) (c.cells output))
          ≡ false =
        ground arith in
      simp (e, n, both) (simp gone (consumption_complete script t))

  -- The script succeeds exactly if it was loaded with 52 bytes of arguments, and either a cell of
  -- its type is created and none consumed, and the creation is valid; or none is created, and the
  -- witness settles the proposal: public values that agree with the cell data, the first two header
  -- deps and the script, that say passed, and a proof that the verifier accepts for them.
  pub proposal_run_iff : (run P sp1 c ≡ ok tt) ↔ (
      (script : Script) × (c.load_script ≡ some script)
      × (length script.args ≡ 52)
      × Outcome script)
  proposal_run_iff = (run_sound, λ s. run_complete s.0 s.1 s.2 s.3)

  -- A transaction that consumes and creates a cell of the script's type is refused, whatever else
  -- it holds.
  pub run_both_sides :
      (script : Script)
      → c.load_script ≡ some script
      → length script.args ≡ 52
      → any_cell (has_type_hash (P.blake2b (P.script_slice script))) (c.cells input) ≡ true
      → any_cell (has_type_hash (P.blake2b (P.script_slice script))) (c.cells output) ≡ true
      → run P sp1 c ≡ err appears_on_both_sides
  unfolding run
  run_both_sides script e n i o = simp (e, n, i, o)
