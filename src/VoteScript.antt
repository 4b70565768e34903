-- ===== src/VoteScript.antt =====
-- contracts/vote-type-script/src/main.rs: the type script of a vote cell.
pub mod Counted
pub mod Repeated
pub mod Deposits
pub mod Search
pub mod Amounts
pub mod Laws
pub mod Safety
use ckb_vote_poc.Base.{
  ℕ, ◌+◌, Bool, false, not, ◌&&◌, ◌||◌, Option, none, some, List, [], ◌∷◌, length, take, get_elem?,
  ltb, ◌==◌, bytes_eq, if◌then◌else◌, Result, ok, err, panic, ◌>>=◌, ◌>>◌, fail_if, ok_or, unwrap,
  map_err,
}
use ckb_vote_poc.Chain.{Bytes, Packages, Script}
use ckb_vote_poc.Molecule.Vote
use ckb_vote_poc.Molecule.Uint16Vec
use ckb_vote_poc.Count.{saturating_add}
use ckb_vote_poc.Count.Read.{little_endian, from_le_bytes}
use ckb_vote_poc.Syscalls.{input, cell_dep, group_output, Cell, Context, load_cell}

pub data Error : Type 0 where
  args_invalid proposal_not_found voter_lock_not_found vote_data_invalid dao_dep_invalid : Error
  amount_mismatch multiple_vote_outputs : Error

-- `e as i8`
unfoldable pub code : Error → ℕ
code args_invalid = 1
code proposal_not_found = 2
code voter_lock_not_found = 3
code vote_data_invalid = 4
code dao_dep_invalid = 5
code amount_mismatch = 6
code multiple_vote_outputs = 7

abbrev pub dao_code_hash : Bytes
dao_code_hash =
    0x82 ∷ 0xd7 ∷ 0x6d ∷ 0x1b ∷ 0x75 ∷ 0xfe ∷ 0x2f ∷ 0xd9 ∷ 0xa2 ∷ 0x7d ∷ 0xfb ∷ 0xaa ∷ 0x65 ∷ 0xa0
    ∷ 0x39 ∷ 0x22 ∷ 0x1a ∷ 0x38 ∷ 0x0d ∷ 0x76 ∷ 0xc9 ∷ 0x26 ∷ 0xf3 ∷ 0x78 ∷ 0xd3 ∷ 0xf8 ∷ 0x1c
    ∷ 0xf3 ∷ 0xe7 ∷ 0xe1 ∷ 0x3f ∷ 0x2e ∷ []

abbrev pub dao_hash_type : ℕ
dao_hash_type = 1

-- `.any(...)` over the cells that a query yields.
unfoldable pub any_cell : (Cell → Bool) → List Cell → Bool
any_cell test [] = false
any_cell test (cell ∷ cells) = test cell || any_cell test cells

-- `u64::from_le_bytes(slice.try_into().map_err(|_| e)?)`
unfoldable pub le_bytes_or : ℕ → Bytes → Error → Result Error ℕ
le_bytes_or size slice e = if length slice == size then ok (little_endian slice) else err e

module _ (P : Packages) where
  unfoldable pub blake160 : Bytes → Bytes
  blake160 data_ = take 20 (P.blake2b data_)

  -- The closure that looks for the proposal cell.
  unfoldable pub is_proposal : Bytes → Cell → Bool
  is_proposal expected_blake160 cell = elim cell.type_ [
    | none ↦ false
    | some type_script ↦ bytes_eq (blake160 (P.script_slice type_script)) expected_blake160
  ]

  unfoldable pub has_lock : Script → Cell → Bool
  has_lock lock cell = bytes_eq (P.script_slice cell.lock) (P.script_slice lock)

  module _ (c : Context) where
    -- The body of the loop over `dao_index`: the capacity of the deposit at `dep_idx`.
    unfoldable pub check_deposit : Script → ℕ → Result Error ℕ
    check_deposit vote_lock dep_idx = do
      dep ← ok_or (load_cell c dep_idx cell_dep) dao_dep_invalid
      dep_type ← ok_or dep.type_ dao_dep_invalid
      fail_if (not (has_lock vote_lock dep)) dao_dep_invalid
      fail_if (not (bytes_eq dep_type.code_hash dao_code_hash)) dao_dep_invalid
      hash_type ← unwrap (get_elem? dep_type.hash_type 0)
      fail_if (not (hash_type == dao_hash_type)) dao_dep_invalid
      fail_if (not (length dep_type.args == 0)) dao_dep_invalid
      ok dep.capacity

    -- The loop: `dao_dep_count` and `total_capacity`.
    unfoldable pub sum_deposits : Script → List Bytes → ℕ → ℕ → Result Error (ℕ × ℕ)
    sum_deposits vote_lock [] dao_dep_count total_capacity = ok (dao_dep_count, total_capacity)
    sum_deposits vote_lock (item ∷ items) dao_dep_count total_capacity = do
      dep_idx ← map_err (from_le_bytes 2 item) vote_data_invalid
      cap ← check_deposit vote_lock dep_idx
      sum_deposits vote_lock items (dao_dep_count + 1) (saturating_add total_capacity cap)

    -- The checks of the vote's amount, from `expected_amount` on.
    unfoldable pub check_amount : Script → Bytes → Result Error (Unit {0})
    check_amount vote_lock vote = do
      amount ← map_err (Vote.amount P vote) vote_data_invalid
      expected_amount ← le_bytes_or 8 amount vote_data_invalid
      indices ← map_err (Vote.dao_index P vote) vote_data_invalid
      items ← map_err (Uint16Vec.iter P indices) vote_data_invalid
      (dao_dep_count, total_capacity) ← sum_deposits vote_lock items 0 0
      fail_if (dao_dep_count == 0 || total_capacity == 0) dao_dep_invalid
      fail_if (not (total_capacity == expected_amount)) amount_mismatch
      ok tt

    -- The creation of a vote cell, from the look for the proposal on.
    unfoldable pub check_creation : Bytes → Result Error (Unit {0})
    check_creation expected_blake160 = do
      fail_if (not (any_cell (is_proposal expected_blake160) (c.cells cell_dep))) proposal_not_found
      vote_cell ← ok_or (load_cell c 0 group_output) args_invalid
      vote ← map_err (Vote.from_slice P vote_cell.data_) vote_data_invalid
      value ← map_err (Vote.vote P vote) vote_data_invalid
      vote_value ← unwrap (get_elem? value 0)
      fail_if (not (vote_value == 0) && not (vote_value == 1)) vote_data_invalid
      fail_if (not (any_cell (has_lock vote_cell.lock) (c.cells input))) voter_lock_not_found
      check_amount vote_cell.lock vote

    unfoldable pub run : Result Error (Unit {0})
    run = do
      script ← ok_or c.load_script args_invalid
      fail_if (not (length script.args == 20)) args_invalid
      let group_output_count = length (c.cells group_output)
      if group_output_count == 0 then ok tt else do
        fail_if (ltb 1 group_output_count) multiple_vote_outputs
        check_creation (take 20 script.args)

    -- The exit code; a panic ends the script with no code of its own.
    unfoldable pub program_entry : Option ℕ
    program_entry = elim run [ ok u ↦ some 0 | err e ↦ some (code e) | panic ↦ none ]
