-- ===== src/Host/Outputs.antt =====
-- The search through the outputs of the first block, by the host of
-- sp1/ckb-vote-verification/script/src/main.rs and by `find_proposal` of crates/verification/src/lib.rs.
use ckb_vote_poc.Base.{
  ℕ, suc, ◌+◌, ◌≡◌, refl, ap, subst, ◌∙◌, ◌⊎◌, inl, inr, Bool-cases, Option-cases, true, false,
  Option, none, some, List, [], ◌∷◌, get_elem?, All, All-get_elem?, bytes_eq, bytes_eq_refl, Result,
  ok, >>=-eq-ok, map_err, ok_or, ok_or-eq-ok, ok_inj, arith,
}
use ckb_vote_poc.Chain.{Bytes, Packages, VerificationError, Script, CellOutput, Transaction}
use ckb_vote_poc.Molecule.Proposal
use ckb_vote_poc.Integrity.{tx_hash}
use ckb_vote_poc.Count.Find.{find_in_outputs, find_in_transactions}
use ckb_vote_poc.Host.{read_proposal_cell, find_in_txs}

module _ (P : Packages) (script : Script) (proposal : Bytes) where
  -- Output `j`, if it has a type script with the script's bytes, holds the proposal in its data.
  abbrev Holds : List Bytes → ℕ → Option CellOutput → Type 0
  Holds outputs_data j output =
      (cell : CellOutput) (type_script : Script)
      → output ≡ some cell
      → cell.type_ ≡ some type_script
      → bytes_eq (P.script_slice type_script) (P.script_slice script) ≡ true
      → get_elem? outputs_data j ≡ some proposal

  -- In the first block, every output whose type script has the script's bytes holds the proposal.
  abbrev pub HoldsOnly : List Transaction → Type 0
  HoldsOnly = All (λ tx. (j : ℕ) → Holds tx.raw.outputs_data j (get_elem? tx.raw.outputs j))

  -- An output whose type script has other bytes than the script, or that has none.
  abbrev IsOther : CellOutput → Type 0
  IsOther cell =
      (type_script : Script)
      → cell.type_ ≡ some type_script
      → bytes_eq (P.script_slice type_script) (P.script_slice script) ≡ false

  -- What the search through a transaction's outputs ends with.
  abbrev Outcome : Result VerificationError (Option (Option Bytes)) → List CellOutput → Type 0
  Outcome found outputs =
      (found ≡ ok (some (some proposal))) ⊎ ((found ≡ ok none) × All IsOther outputs)

  skip :
      (found next : Result VerificationError (Option (Option Bytes))) (output : CellOutput)
      (outputs : List CellOutput)
      → found ≡ next
      → IsOther output
      → Outcome next outputs
      → Outcome found (output ∷ outputs)
  skip found next output outputs same other (inl e) = inl (same ∙ e)
  skip found next output outputs same other (inr (e, others)) = inr (same ∙ e, (other, others))

  named_output :
      (tx : Transaction)
      → All IsOther tx.raw.outputs
      → (output_index : ℕ) → read_proposal_cell P tx output_index ≡ ok (proposal, script)
      → ⊥
  unfolding read_proposal_cell
  named_output tx others output_index h =
      let (output, e₁, h₁) = >>=-eq-ok (ok_or (get_elem? tx.raw.outputs output_index) _) _ h in
      let (type_script, e₂, h₂) = >>=-eq-ok (ok_or output.type_ _) _ h₁ in
      let (data_, e₃, h₃) = >>=-eq-ok (ok_or (get_elem? tx.raw.outputs_data output_index) _) _ h₂ in
      let (parsed, e₄, h₄) = >>=-eq-ok (map_err (Proposal.from_slice P data_) _) _ h₃ in
      let same : type_script ≡ script = ap (λ p. p.1) (ok_inj h₄) in
      let other =
        All-get_elem? IsOther tx.raw.outputs output_index output others (ok_or-eq-ok _ _ e₁)
          type_script (ok_or-eq-ok _ _ e₂) in
      let differs : bytes_eq (P.script_slice script) (P.script_slice script) ≡ false =
        subst (λ s. bytes_eq (P.script_slice s) (P.script_slice script) ≡ false) same other in
      cc (differs, bytes_eq_refl (P.script_slice script))

  module _ (parses : Proposal.from_compatible_slice P proposal ≡ ok proposal) where
    find_in_outputs-Outcome :
        (outputs_data : List Bytes) (i : ℕ) (outputs : List CellOutput)
        → ((k : ℕ) → Holds outputs_data (i + k) (get_elem? outputs k))
        → Outcome (find_in_outputs P script outputs_data i outputs) outputs
    unfolding find_in_outputs
    find_in_outputs-Outcome outputs_data i [] only = inr (refl, tt)
    find_in_outputs-Outcome outputs_data i (output ∷ outputs) only =
        let rest =
          find_in_outputs-Outcome outputs_data (i + 1) outputs (λ k cell type_script e₁ e₂ e₃.
            subst (λ j. get_elem? outputs_data j ≡ some proposal) (omega arith)
              (only (suc k) cell type_script e₁ e₂ e₃)) in
        elim (Option-cases output.type_) [
          | inl untyped ↦
              skip _ _ output outputs (rw untyped refl) (λ type_script e. cc (e, untyped)) rest
          | inr (type_script, typed) ↦
              elim (Bool-cases (bytes_eq (P.script_slice type_script) (P.script_slice script))) [
                | inl same ↦
                    let here : get_elem? outputs_data i ≡ some proposal =
                      subst (λ j. get_elem? outputs_data j ≡ some proposal) (omega arith)
                        (only 0 output type_script refl typed same) in
                    inl (rw (typed, same, here, parses) refl)
                | inr other ↦
                    skip _ _ output outputs (rw (typed, other) refl)
                      (λ type_script' e.
                        let same_script : type_script ≡ type_script' = cc (typed, e) in
                        subst (λ t. bytes_eq (P.script_slice t) (P.script_slice script) ≡ false)
                          same_script other)
                      rest
              ]
        ]

    pub find_in_transactions-found :
        (txs : List Transaction)
        → HoldsOnly txs
        → (tx_hash_bytes : Bytes) (output_index : ℕ)
        → find_in_txs P tx_hash_bytes output_index txs ≡ ok (proposal, script)
        → find_in_transactions P script txs ≡ ok (some proposal)
    unfolding find_in_txs find_in_transactions
    find_in_transactions-found [] only tx_hash_bytes output_index h = cc
    find_in_transactions-found (tx ∷ txs) (only, onlys) tx_hash_bytes output_index h =
        let found =
          find_in_outputs-Outcome tx.raw.outputs_data 0 tx.raw.outputs
            (λ k cell type_script e₁ e₂ e₃.
              subst (λ j. get_elem? tx.raw.outputs_data j ≡ some proposal) (omega arith)
                (only k cell type_script e₁ e₂ e₃)) in
        elim found [
          | inl e ↦ rw e refl
          | inr (e, others) ↦ elim (Bool-cases (bytes_eq (tx_hash P tx) tx_hash_bytes)) [
            | inl named ↦ absurd (named_output tx others output_index (rw named at h))
            | inr other ↦
                rw e
                  (find_in_transactions-found txs onlys tx_hash_bytes output_index (rw other at h))
          ]
        ]
