-- ===== src/Syscalls.antt =====
-- What the contracts read through `ckb_std`: the cells that the syscalls list by source, the headers
-- of the header deps and the running script. `load_*(i, source)` is an error where there is no
-- such item, and `QueryIter` yields the items in order.
pub mod Exit
use ckb_vote_poc.Base.{ℕ, Option, List, get_elem?}
use ckb_vote_poc.Chain.{Bytes, Script, Header}

pub data Source : Type 0 where
  input output cell_dep group_input group_output : Source

pub record Cell : Type 0 where
  pub capacity : ℕ
  pub lock : Script
  pub type_ : Option Script
  pub type_hash : Option Bytes
  pub data_ : Bytes

pub record WitnessArgs : Type 0 where
  pub lock : Option Bytes
  pub input_type : Option Bytes
  pub output_type : Option Bytes

pub record Context : Type 0 where
  pub load_script : Option Script
  pub cells : Source → List Cell
  pub header_deps : List Header
  pub load_witness_args : ℕ → Source → Option WitnessArgs
  -- `ckb_std::type_id::check_type_id(start, length)`
  pub check_type_id : ℕ → ℕ → Option (Unit {0})

abbrev pub load_cell : Context → ℕ → Source → Option Cell
load_cell c i source = get_elem? (c.cells source) i
