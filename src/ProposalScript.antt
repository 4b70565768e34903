-- ===== src/ProposalScript.antt =====
-- contracts/proposal-type-script/src/main.rs: the type script of a proposal cell.
pub mod Laws
pub mod Run
pub mod Safety
use ckb_vote_poc.Base.{
  ℕ, suc, Bool, true, false, not, ◌&&◌, Option, none, some, List, [], ◌∷◌, length, take, drop,
  get_elem?, ◌==◌, bytes_eq, if◌then◌else◌, Result, ok, err, panic, ◌>>=◌, ◌>>◌, fail_if, ok_or,
  unwrap, map_err,
}
use ckb_vote_poc.Chain.{Bytes, Packages, Script}
use ckb_vote_poc.Molecule.Proposal
use ckb_vote_poc.Molecule.PublicValues
use ckb_vote_poc.Molecule.ProposalWitness
use ckb_vote_poc.Syscalls.{input, output, group_input, group_output, Cell, Context, load_cell}
use ckb_vote_poc.Integrity.{header_hash}

pub data Error : Type 0 where
  appears_on_both_sides type_id_invalid args_invalid witness_invalid proof_verify_failed : Error
  proposal_mismatch header_dep_missing header_mismatch script_mismatch not_passed : Error
  multiple_proposal_outputs proposal_data_invalid : Error

-- `e as i8`
unfoldable pub code : Error → ℕ
code appears_on_both_sides = 1
code type_id_invalid = 2
code args_invalid = 3
code witness_invalid = 4
code proof_verify_failed = 5
code proposal_mismatch = 6
code header_dep_missing = 7
code header_mismatch = 8
code script_mismatch = 9
code not_passed = 10
code multiple_proposal_outputs = 20
code proposal_data_invalid = 21

-- The packages `hex` and `sp1_verifier`; `plonk_verify` is true where the verifier returns `Ok`.
pub record Sp1 : Type 0 where
  pub hex_encode : Bytes → Bytes
  pub plonk_vk_bytes : Bytes
  pub plonk_verify : Bytes → Bytes → Bytes → Bytes → Bool

-- `h == Some(script_hash)`
unfoldable pub has_type_hash : Bytes → Cell → Bool
has_type_hash script_hash cell = elim cell.type_hash [
  | none ↦ false
  | some h ↦ bytes_eq h script_hash
]

-- `.any(...)` and `.filter(...).count()` over the cells that a query yields.
unfoldable pub any_cell : (Cell → Bool) → List Cell → Bool
any_cell test [] = false
any_cell test (cell ∷ cells) = if test cell then true else any_cell test cells

unfoldable pub count_cells : (Cell → Bool) → List Cell → ℕ
count_cells test [] = 0
count_cells test (cell ∷ cells) =
    let rest = count_cells test cells in if test cell then suc rest else rest

-- The five checks of a proposal's fields, which are still to be written.
unfoldable pub verify_sp1_vk_hash : Bytes → Result Error (Unit {0})
verify_sp1_vk_hash vk_hash = ok tt

unfoldable pub verify_vote_cell_script : Bytes → Result Error (Unit {0})
verify_vote_cell_script proposal = ok tt

unfoldable pub verify_duration : Bytes → Result Error (Unit {0})
verify_duration proposal = ok tt

unfoldable pub verify_amount : Bytes → Result Error (Unit {0})
verify_amount proposal = ok tt

unfoldable pub verify_minimal_requirement : Bytes → Result Error (Unit {0})
verify_minimal_requirement proposal = ok tt

module _ (P : Packages) (sp1 : Sp1) (c : Context) where
  unfoldable pub verify_creation : Bytes → Bytes → Result Error (Unit {0})
  verify_creation args script_hash = do
    ok_or (c.check_type_id 0 20) type_id_invalid
    fail_if (not (count_cells (has_type_hash script_hash) (c.cells output) == 1))
        multiple_proposal_outputs
    cell ← ok_or (load_cell c 0 group_output) proposal_data_invalid
    proposal ← map_err (Proposal.from_slice P cell.data_) proposal_data_invalid
    verify_sp1_vk_hash (drop 20 args)
    verify_vote_cell_script proposal
    verify_duration proposal
    verify_amount proposal
    verify_minimal_requirement proposal
    ok tt

  -- The comparison of a public value with what is on chain; the readers panic or succeed.
  unfoldable pub check_field : Result Error Bytes → Bytes → Error → Result Error (Unit {0})
  check_field read expected e = do value ← read; fail_if (not (bytes_eq value expected)) e; ok tt

  -- The part of `run` that reads and checks the public values.
  unfoldable pub check_public_values : Script → Bytes → Result Error (Unit {0})
  check_public_values script pv = do
    cell ← ok_or (load_cell c 0 group_input) proposal_mismatch
    check_field (map_err (PublicValues.proposal P pv) proposal_mismatch) cell.data_
        proposal_mismatch
    start_header ← ok_or (get_elem? c.header_deps 0) header_dep_missing
    end_header ← ok_or (get_elem? c.header_deps 1) header_dep_missing
    check_field (map_err (PublicValues.start_block_hash P pv) header_mismatch)
        (header_hash P start_header) header_mismatch
    check_field (map_err (PublicValues.end_block_hash P pv) header_mismatch)
        (header_hash P end_header) header_mismatch
    check_field (map_err (PublicValues.proposal_script P pv) script_mismatch)
        (P.script_slice script) script_mismatch
    passed ← map_err (PublicValues.passed P pv) not_passed
    flag ← unwrap (get_elem? passed 0)
    fail_if (not (flag == 1)) not_passed
    ok tt

  -- `0x` and the hexadecimal digits of the verifying key's hash.
  unfoldable pub vk_hash_hex : Bytes → Bytes
  vk_hash_hex args = b'0' ∷ b'x' ∷ sp1.hex_encode (take 32 (drop 20 args))

  -- The consumption of a proposal cell.
  unfoldable pub verify_consumption : Script → Result Error (Unit {0})
  verify_consumption script = do
    witness ← ok_or (c.load_witness_args 0 group_input) witness_invalid
    raw_witness ← ok_or witness.input_type witness_invalid
    proposal_witness ← map_err (ProposalWitness.from_slice P raw_witness) witness_invalid
    proof ← map_err (ProposalWitness.proof P proposal_witness) witness_invalid
    pv ← map_err (ProposalWitness.public_values P proposal_witness) witness_invalid
    check_public_values script pv
    fail_if
        (not (
          sp1.plonk_verify (P.bytes_raw_data proof) pv (vk_hash_hex script.args)
            sp1.plonk_vk_bytes))
        proof_verify_failed
    ok tt

  unfoldable pub run : Result Error (Unit {0})
  run = do
    script ← ok_or c.load_script args_invalid
    fail_if (not (length script.args == 52)) args_invalid
    let script_hash = P.blake2b (P.script_slice script)
    let in_inputs = any_cell (has_type_hash script_hash) (c.cells input)
    let in_outputs = any_cell (has_type_hash script_hash) (c.cells output)
    fail_if (in_inputs && in_outputs) appears_on_both_sides
    if in_outputs then verify_creation script.args script_hash else verify_consumption script

  -- The exit code; a panic ends the script with no code of its own.
  unfoldable pub program_entry : Option ℕ
  program_entry = elim run [ ok u ↦ some 0 | err e ↦ some (code e) | panic ↦ none ]
