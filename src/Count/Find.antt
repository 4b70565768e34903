-- ===== src/Count/Find.antt =====
-- `find_proposal` of crates/verification/src/lib.rs.
use ckb_vote_poc.Base.{
  ℕ, ◌+◌, Option, none, some, List, [], ◌∷◌, get_elem?, bytes_eq, if◌then◌else◌, Result, ok, ◌>>=◌,
}
use ckb_vote_poc.Chain.{Bytes, Packages, VerificationError, Script, CellOutput, Transaction, Block}
use ckb_vote_poc.Molecule.Proposal
use ckb_vote_poc.Count.Read.{ok_option}

module _ (P : Packages) where
  -- The inner loop of `find_proposal` from output `i` on; `some` is what the function returns.
  unfoldable pub find_in_outputs :
      Script → List Bytes → ℕ → List CellOutput → Result VerificationError (Option (Option Bytes))
  find_in_outputs script outputs_data i [] = ok none
  find_in_outputs script outputs_data i (output ∷ outputs) =
      let rest = find_in_outputs script outputs_data (i + 1) outputs in
      elim output.type_ [
        | none ↦ rest
        | some type_script ↦
            if bytes_eq (P.script_slice type_script) (P.script_slice script)
            then elim (get_elem? outputs_data i) [
              | none ↦ ok (some none)
              | some cell ↦ (do
                proposal ← ok_option (Proposal.from_compatible_slice P cell)
                ok (some proposal))
            ]
            else rest
      ]

  unfoldable pub find_in_transactions :
      Script → List Transaction → Result VerificationError (Option Bytes)
  find_in_transactions script [] = ok none
  find_in_transactions script (tx ∷ txs) =
      let rest = find_in_transactions script txs in
      do
        found ← find_in_outputs script tx.raw.outputs_data 0 tx.raw.outputs
        elim found [ none ↦ rest | some proposal ↦ ok proposal ]

  unfoldable pub find_proposal : List Block → Script → Result VerificationError (Option Bytes)
  find_proposal [] script = ok none
  find_proposal (first_block ∷ blocks) script = find_in_transactions script first_block.transactions
