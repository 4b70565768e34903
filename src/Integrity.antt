-- ===== src/Integrity.antt =====
-- The hashes of crates/verification/src/lib.rs and `verify_block_integrity`. A loop over the index
-- `i` is a recursion on the blocks that are left, which keeps `i` for the error.
pub mod Laws
pub mod Binding
pub mod Transactions
pub mod Errors
use ckb_vote_poc.Base.{
  ℕ, zero, suc, ◌+◌, not, Option, none, some, List, [], ◌∷◌, ◌++◌, map, bytes_eq, if◌then◌else◌,
  Result, ok, err, panic, ◌>>=◌, ◌>>◌, unwrap,
}
use ckb_vote_poc.Chain.{Bytes, Packages, Header, Transaction, Block}
use ckb_vote_poc.Merkle

pub data Error : Type 0 where
  empty_blocks : Error
  parent_hash_mismatch : ℕ → Error
  transactions_root_mismatch : ℕ → Error

unfoldable pub zeros : ℕ → Bytes
zeros zero = []
zeros (suc n) = 0 ∷ zeros n

module _ (P : Packages) where
  -- Of two hashes, which are `[u8; 32]` in the program: only on lists of 32 bytes does it model
  -- the program's function.
  unfoldable pub merge : Bytes → Bytes → Bytes
  merge left right = P.blake2b (left ++ right)

  unfoldable pub merkle_root : List Bytes → Option Bytes
  merkle_root = Merkle.merkle_root merge (zeros 32)

  unfoldable pub header_hash : Header → Bytes
  header_hash header = P.blake2b (P.header_slice header)

  unfoldable pub tx_hash : Transaction → Bytes
  tx_hash tx = P.blake2b (P.raw_transaction_slice tx.raw)

  unfoldable pub witness_hash : Transaction → Bytes
  witness_hash tx = P.blake2b (P.transaction_slice tx)

  unfoldable pub calc_transactions_root {ℓ} : {E : Type ℓ} → Block → Bytes → Result E Bytes
  calc_transactions_root block witness_root = do
    raw_root ← unwrap (merkle_root (map tx_hash block.transactions))
    unwrap (merkle_root (raw_root ∷ witness_root ∷ []))

  -- `for i in 1..blocks.len()`, after the block `prev_block`.
  unfoldable pub check_parents : ℕ → Block → List Block → Result Error (Unit {0})
  check_parents i prev_block [] = ok tt
  check_parents i prev_block (current_block ∷ blocks) =
      let rest = check_parents (i + 1) current_block blocks in
      if not (bytes_eq (header_hash prev_block.header) current_block.header.raw.parent_hash)
      then err (parent_hash_mismatch i)
      else rest

  -- `for i in 0..blocks.len()`; a missing witness root is a panic.
  unfoldable pub check_roots : ℕ → List Block → List Bytes → Result Error (Unit {0})
  check_roots i [] witness_roots = ok tt
  check_roots i (block ∷ blocks) [] = panic
  check_roots i (block ∷ blocks) (witness_root ∷ witness_roots) =
      let rest = check_roots (i + 1) blocks witness_roots in
      do
        actual_root ← calc_transactions_root block witness_root
        if not (bytes_eq block.header.raw.transactions_root actual_root)
            then err (transactions_root_mismatch i)
            else rest

  unfoldable pub verify_block_integrity : List Block → List Bytes → Result Error (Unit {0})
  verify_block_integrity [] witness_root = err empty_blocks
  verify_block_integrity (block ∷ blocks) witness_root = do
    check_parents 1 block blocks
    check_roots 0 (block ∷ blocks) witness_root
