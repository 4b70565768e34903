-- ===== src/Sp1Test.antt =====
-- contracts/sp1-test: a contract that verifies the proof that is built into it. The three files that
-- are included in the binary and the verifier are fields of a record.
use ckb_vote_poc.Base.{ℕ, Bool, Option, none, some, Result, ok, err, panic, if◌then◌else◌}
use ckb_vote_poc.Chain.{Bytes}

-- `ckb_std::error::SysError`; `other` is for the errors that the code does not name.
pub data SysError : Type 0 where
  sys_index_out_of_bound : SysError
  sys_item_missing : SysError
  sys_length_not_enough : ℕ → SysError
  sys_encoding : SysError
  sys_unknown : ℕ → SysError
  sys_other : SysError

pub data Error : Type 0 where
  index_out_of_bound : Error
  item_missing : Error
  length_not_enough : Error
  encoding : Error

-- `err as i8`
unfoldable pub code : Error → ℕ
code index_out_of_bound = 1
code item_missing = 2
code length_not_enough = 3
code encoding = 4

-- `Error::from(err)`
unfoldable pub from_sys_error : {A : Type 0} → SysError → Result Error A
from_sys_error sys_index_out_of_bound = err index_out_of_bound
from_sys_error sys_item_missing = err item_missing
from_sys_error (sys_length_not_enough size) = err length_not_enough
from_sys_error sys_encoding = err encoding
from_sys_error (sys_unknown err_code) = panic
from_sys_error sys_other = panic

pub record Binary : Type 0 where
  pub proof : Bytes
  pub public_values : Bytes
  pub vk_hash : Bytes
  pub plonk_vk_bytes : Bytes
  pub trim : Bytes → Bytes
  pub plonk_verify : Bytes → Bytes → Bytes → Bytes → Bool

-- `PlonkVerifier::verify(...).expect(...)`, after which cycles are counted and printed.
unfoldable pub main : Binary → Result Error (Unit {0})
main b =
    if b.plonk_verify b.proof b.public_values (b.trim b.vk_hash) b.plonk_vk_bytes
    then ok tt
    else panic

-- The exit code; none after a panic.
unfoldable pub program_entry : Binary → Option ℕ
program_entry b = elim (main b) [ ok u ↦ some 0 | err e ↦ some (code e) | panic ↦ none ]
