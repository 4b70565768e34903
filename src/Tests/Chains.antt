-- ===== src/Tests/Chains.antt =====
-- Runs of the Merkle root and of the block integrity check.
use native.Mathlib.Decide.{ℕ_discrete}
use ckb_vote_poc.Base.{
  ℕ, zero, suc, ◌+◌, ◌*◌, bytes_eq, ◌≡◌, ◌<◌, get_elem?, refl, ap, take, length, length-take,
  length-append, ◌⊎◌, ◌↔◌, some, List, [], ◌∷◌, ◌++◌, arith, ok, err,
}
use ckb_vote_poc.Chain.{Bytes, Packages, HashLaws, HeaderLaws, Block}
use ckb_vote_poc.Merkle.{merkle_root, merge_pairs, drain, remainder}
use ckb_vote_poc.Merkle.Tree.{IsMerkleTree, merkle_root-tree}
use ckb_vote_poc.Merkle.Total.{merkle_root_total}
use ckb_vote_poc.Merkle.Binding.{append_inj, Collision, merkle_root_binding}
use ckb_vote_poc.Integrity
use ckb_vote_poc.Integrity.{
  Error, merge, zeros, header_hash, tx_hash, calc_transactions_root, parent_hash_mismatch,
  transactions_root_mismatch, check_parents, check_roots, verify_block_integrity,
}
use ckb_vote_poc.Integrity.Laws.{LinkedAt, RootAt, IsIntact, verify_block_integrity_iff}
use ckb_vote_poc.Integrity.Errors.{
  FirstAt, verify_block_integrity_parent_error, verify_block_integrity_root_error,
  calc_transactions_root_total,
}
use ckb_vote_poc.Integrity.Transactions.{raw_bytes, HashCollision, transactions_bound}
use ckb_vote_poc.Integrity.Binding.{HeaderCollision, header_bytes, chain_bound}
use ckb_vote_poc.Tests.Demo.{packages, packages_padded, block, transaction}

abbrev join : Bytes → Bytes → Bytes
join left right = left ++ right

abbrev three_leaves : List Bytes
three_leaves = (1 ∷ []) ∷ (2 ∷ []) ∷ (3 ∷ []) ∷ []

abbrev three_leaf_node : ℕ → Bytes
three_leaf_node zero = 2 ∷ 3 ∷ 1 ∷ []
three_leaf_node (suc zero) = 2 ∷ 3 ∷ []
three_leaf_node (suc (suc i)) = (i + 1) ∷ []

three_leaf_tree : IsMerkleTree join three_leaves three_leaf_node
three_leaf_tree = record { leaf = leaf; inner = inner }
  where
    leaf : (k : ℕ) → k < 3 → get_elem? three_leaves k ≡ some (three_leaf_node (2 + k))
    leaf zero h = refl
    leaf (suc zero) h = refl
    leaf (suc (suc zero)) h = refl
    leaf (suc (suc (suc k))) h = absurd (omega arith)

    inner :
        (i : ℕ)
        → i + 1 < 3
        → three_leaf_node i ≡ join (three_leaf_node (2 * i + 1)) (three_leaf_node (2 * i + 2))
    inner zero h = refl
    inner (suc zero) h = refl
    inner (suc (suc i)) h = absurd (omega arith)

merkle_root-tree_example : merkle_root join [] three_leaves ≡ some (2 ∷ 3 ∷ 1 ∷ [])
merkle_root-tree_example =
    merkle_root-tree join [] three_leaves three_leaf_node (omega arith) three_leaf_tree

merkle_root_total_example : (root : Bytes) × (merkle_root join [] three_leaves ≡ some root)
merkle_root_total_example = merkle_root_total join [] three_leaves

three_leaf_root : merkle_root join [] three_leaves ≡ some (2 ∷ 3 ∷ 1 ∷ [])
unfolding merkle_root merge_pairs drain remainder
three_leaf_root = refl

merkle_root_binding_example : (three_leaves ≡ three_leaves) ⊎ Collision join
merkle_root_binding_example =
    merkle_root_binding (hlevel ℕ_discrete) join [] three_leaves three_leaves (2 ∷ 3 ∷ 1 ∷ []) refl
      three_leaf_root three_leaf_root

-- Two linked blocks with one transaction each, and their witness roots.
abbrev first_block : Block
first_block = block 0 [] (1 ∷ 8 ∷ []) (transaction 1 [] [] [] [] ∷ [])

abbrev second_block : Block
second_block = block 1 (0 ∷ 1 ∷ 8 ∷ []) (2 ∷ 9 ∷ []) (transaction 2 [] [] [] [] ∷ [])

abbrev chain : List Block
chain = first_block ∷ second_block ∷ []

abbrev witness_roots : List Bytes
witness_roots = (8 ∷ []) ∷ (9 ∷ []) ∷ []

chain_verifies : verify_block_integrity packages chain witness_roots ≡ ok tt
unfolding verify_block_integrity check_parents check_roots calc_transactions_root
    Integrity.merkle_root merge merkle_root merge_pairs drain remainder header_hash tx_hash bytes_eq
chain_verifies = refl

verify_block_integrity_iff_example :
    (verify_block_integrity packages chain witness_roots ≡ ok tt)
    ↔ IsIntact packages chain witness_roots
verify_block_integrity_iff_example = verify_block_integrity_iff packages chain witness_roots

-- The same with hashes of 32 bytes.
abbrev padded : Packages
padded = packages_padded first_block

length-zeros : (n : ℕ) → length (zeros n) ≡ n
unfolding zeros
length-zeros zero = refl
length-zeros (suc n) = ap suc (length-zeros n)

length-pad : (n : ℕ) (xs : Bytes) → length (take n (xs ++ zeros n)) ≡ n
length-pad n xs =
    omega (arith, length-take n (xs ++ zeros n), length-append xs (zeros n), length-zeros n)

padded-HashLaws : HashLaws padded
padded-HashLaws = record { hash_size = λ data_. length-pad 32 data_ }

padded-HeaderLaws : HeaderLaws padded
padded-HeaderLaws = record {
  parent_hash_placed = λ h h' size size' same.
      (append_inj h.raw.parent_hash h'.raw.parent_hash h.raw.transactions_root
        h'.raw.transactions_root (omega arith) (cc same)).0;
}

abbrev padded_chain : List Block
padded_chain =
    block 0 [] (1 ∷ zeros 31) (transaction 1 [] [] [] [] ∷ [])
    ∷ block 1 (0 ∷ 1 ∷ zeros 30) (2 ∷ zeros 31) (transaction 2 [] [] [] [] ∷ [])
    ∷ []

padded_chain_verifies : verify_block_integrity padded padded_chain witness_roots ≡ ok tt
unfolding verify_block_integrity check_parents check_roots calc_transactions_root
    Integrity.merkle_root merge merkle_root merge_pairs drain remainder header_hash tx_hash bytes_eq
    zeros
padded_chain_verifies = refl

chain_bound_example :
    (header_bytes padded padded_chain ≡ header_bytes padded padded_chain)
    ⊎ HeaderCollision padded padded_chain padded_chain
chain_bound_example =
    chain_bound padded padded-HashLaws padded-HeaderLaws padded_chain padded_chain witness_roots
      witness_roots padded_chain_verifies padded_chain_verifies refl refl

-- The root of a block with hashes of 32 bytes, with two witness roots.
abbrev padded_block : Block
padded_block = block 0 [] (1 ∷ zeros 31) (transaction 1 [] [] [] [] ∷ [])

abbrev one_witness_root : Bytes
one_witness_root = 8 ∷ zeros 31

padded_root :
    calc_transactions_root padded {E = Error} padded_block one_witness_root ≡ ok (1 ∷ zeros 31)
unfolding calc_transactions_root Integrity.merkle_root merge merkle_root merge_pairs drain remainder
    tx_hash zeros
padded_root = refl

witness_root_size : length one_witness_root ≡ 32
unfolding zeros
witness_root_size = refl

transactions_bound_example :
    ((raw_bytes padded padded_block ≡ raw_bytes padded padded_block)
      × (one_witness_root ≡ one_witness_root))
    ⊎ HashCollision padded
transactions_bound_example =
    transactions_bound padded padded-HashLaws padded_block padded_block one_witness_root
      one_witness_root (1 ∷ zeros 31) witness_root_size witness_root_size refl padded_root
      padded_root

calc_transactions_root_total_example :
    (root : Bytes) × (calc_transactions_root packages {E = Error} first_block (8 ∷ []) ≡ ok root)
calc_transactions_root_total_example = calc_transactions_root_total packages first_block (8 ∷ [])

-- The second block names another parent.
abbrev unlinked : List Block
unlinked = first_block ∷ block 1 (6 ∷ []) (2 ∷ 9 ∷ []) (transaction 2 [] [] [] [] ∷ []) ∷ []

unlinked_fails :
    verify_block_integrity packages unlinked witness_roots ≡ err (parent_hash_mismatch 1)
unfolding verify_block_integrity check_parents check_roots calc_transactions_root
    Integrity.merkle_root merge merkle_root merge_pairs drain remainder header_hash tx_hash bytes_eq
unlinked_fails = refl

verify_block_integrity_parent_error_example :
    (i : ℕ) × (1 ≡ suc i) × FirstAt (LinkedAt packages unlinked) i
verify_block_integrity_parent_error_example =
    verify_block_integrity_parent_error packages unlinked witness_roots 1 unlinked_fails

-- The second witness root does not belong to the second block.
abbrev wrong_roots : List Bytes
wrong_roots = (8 ∷ []) ∷ (8 ∷ []) ∷ []

wrong_root_fails :
    verify_block_integrity packages chain wrong_roots ≡ err (transactions_root_mismatch 1)
unfolding verify_block_integrity check_parents check_roots calc_transactions_root
    Integrity.merkle_root merge merkle_root merge_pairs drain remainder header_hash tx_hash bytes_eq
wrong_root_fails = refl

verify_block_integrity_root_error_example :
    ((i : ℕ) → LinkedAt packages chain i) × FirstAt (RootAt packages chain wrong_roots) 1
verify_block_integrity_root_error_example =
    verify_block_integrity_root_error packages chain wrong_roots 1 wrong_root_fails
