-- ===== src/Integrity/Transactions.antt =====
-- The transactions root of crates/verification/src/lib.rs, and the transactions and the witness root
-- under it.
use mathlib.Core.HLevel.{Σ_prop_path, Σ_prop_discrete}
use mathlib.Core.Logic.{◌≢◌}
use native.Mathlib.Decide.{ℕ_discrete}
use ckb_vote_poc.Base.{
  ◌≡◌, refl, sym, ap, ap₂, ◌∙◌, ◌⊎◌, inl, inr, Option, none, some, List, [], ◌∷◌, ◌++◌, map, length,
  length-map, ok, >>=-eq-ok, unwrap,
}
use ckb_vote_poc.Chain.{Bytes, Packages, HashLaws, Transaction, Block}
use ckb_vote_poc.Merkle
use ckb_vote_poc.Merkle.Binding.{append_inj, Collision, merkle_root_binding}
use ckb_vote_poc.Merkle.Natural.{map-merkle_root}
use ckb_vote_poc.Merkle.Total.{merkle_root_total}
use ckb_vote_poc.Integrity.{Error, merge, merkle_root, zeros, tx_hash, calc_transactions_root}

-- A hash, `[u8; 32]` in the program.
abbrev Hash : Type 0
Hash = (bytes : Bytes) × (length bytes ≡ 32)

size-IsProp : (bytes : Bytes) → IsProp (length bytes ≡ 32)
size-IsProp bytes = hlevel ℕ_discrete

Bytes-discrete : Discrete Bytes
Bytes-discrete = hlevel ℕ_discrete

Hash-discrete : Discrete Hash
Hash-discrete = Σ_prop_discrete size-IsProp Bytes-discrete

zero_hash : Hash
unfolding zeros
zero_hash = (zeros 32, refl)

zero_hash_bytes : zero_hash.0 ≡ zeros 32
unfolding zero_hash
zero_hash_bytes = refl

unwrap_inj : (o : Option Bytes) (a : Bytes) → unwrap {E = Error} o ≡ ok a → o ≡ some a
unwrap_inj none a e = cc
unwrap_inj (some b) a e = cc

module _ (P : Packages) where
  abbrev pub raw_bytes : Block → List Bytes
  raw_bytes block = map (λ tx. P.raw_transaction_slice tx.raw) block.transactions

  -- Two different byte strings with the same hash.
  abbrev pub HashCollision : Type 0
  HashCollision = (x : Bytes) × (y : Bytes) × (x ≢ y) × (P.blake2b x ≡ P.blake2b y)

  merge_hashes : HashLaws P → Hash → Hash → Hash
  unfolding merge
  merge_hashes H a b = (merge P (a.0) (b.0), H.hash_size (a.0 ++ b.0))

  merge_hashes_bytes : (H : HashLaws P) (a b : Hash) → (merge_hashes H a b).0 ≡ merge P (a.0) (b.0)
  unfolding merge_hashes
  merge_hashes_bytes H a b = refl

  nodes_collide : (H : HashLaws P) → Collision (merge_hashes H) → HashCollision
  unfolding merge_hashes merge
  nodes_collide H (a, b, c, d, e, differ) = (
    a.0 ++ b.0,
    c.0 ++ d.0,
    λ same.
        let (p, q) = append_inj (a.0) (c.0) (b.0) (d.0) (a.1 ∙ sym (c.1)) same in
        differ (Σ_prop_path size-IsProp p, Σ_prop_path size-IsProp q),
    ap (λ v. v.0) e,
  )

  -- The root of a list of hashes is a hash.
  hashes_root :
      (H : HashLaws P) (hashes : List Hash) (root : Bytes)
      → merkle_root P (map (λ v. v.0) hashes) ≡ some root
      → (node : Hash) × (Merkle.merkle_root (merge_hashes H) zero_hash hashes ≡ some node)
        × (node.0 ≡ root)
  unfolding merkle_root
  hashes_root H hashes root e =
      let (node, r) = merkle_root_total (merge_hashes H) zero_hash hashes in
      let below : merkle_root P (map (λ v. v.0) hashes) ≡ some (node.0) =
        ap (λ z. Merkle.merkle_root (merge P) z (map (λ v. v.0) hashes)) (sym zero_hash_bytes)
        ∙ map-merkle_root (λ v. v.0) (merge_hashes H) (merge P) (merge_hashes_bytes H) zero_hash
            node hashes r in
      (node, r, cc (below, e))

  hashes_bound :
      HashLaws P
      → (hashes hashes' : List Hash) (root : Bytes) → length hashes ≡ length hashes'
      → merkle_root P (map (λ v. v.0) hashes) ≡ some root
      → merkle_root P (map (λ v. v.0) hashes') ≡ some root
      → (hashes ≡ hashes') ⊎ HashCollision
  hashes_bound H hashes hashes' root n e e' =
      let (node, r, p) = hashes_root H hashes root e in
      let (node', r', p') = hashes_root H hashes' root e' in
      let same : node' ≡ node = Σ_prop_path size-IsProp (p' ∙ sym p) in
      elim (merkle_root_binding Hash-discrete (merge_hashes H) zero_hash hashes hashes' node n r
        (r' ∙ ap some same)) [ inl q ↦ inl q | inr c ↦ inr (nodes_collide H c) ]

  tx_nodes : HashLaws P → List Transaction → List Hash
  unfolding tx_hash
  tx_nodes H txs = map (λ tx. (tx_hash P tx, H.hash_size (P.raw_transaction_slice tx.raw))) txs

  tx_nodes_bytes :
      (H : HashLaws P) (txs : List Transaction)
      → map (λ v. v.0) (tx_nodes H txs) ≡ map (tx_hash P) txs
  unfolding tx_nodes
  tx_nodes_bytes H [] = refl
  tx_nodes_bytes H (tx ∷ txs) = ap (λ l. tx_hash P tx ∷ l) (tx_nodes_bytes H txs)

  length-tx_nodes : (H : HashLaws P) (txs : List Transaction) → length (tx_nodes H txs) ≡ length txs
  unfolding tx_nodes
  length-tx_nodes H txs = length-map txs _

  raw_bound :
      (txs txs' : List Transaction)
      → map (tx_hash P) txs ≡ map (tx_hash P) txs'
      → (map (λ tx. P.raw_transaction_slice tx.raw) txs
          ≡ map (λ tx. P.raw_transaction_slice tx.raw) txs')
        ⊎ HashCollision
  unfolding tx_hash
  raw_bound [] [] e = inl refl
  raw_bound [] (tx' ∷ txs') e = cc
  raw_bound (tx ∷ txs) [] e = cc
  raw_bound (tx ∷ txs) (tx' ∷ txs') e =
      let x = P.raw_transaction_slice tx.raw in
      let y = P.raw_transaction_slice tx'.raw in
      elim (Bytes-discrete x y) [
        | yes p ↦ elim (raw_bound txs txs' (cc e)) [
          | inl q ↦ inl (ap₂ (λ v l. v ∷ l) p q)
          | inr c ↦ inr c
        ]
        | no p ↦ inr (x, y, p, cc e)
      ]

  -- Where a hash has 32 bytes, two blocks with the same number of transactions and the same
  -- transactions root, calculated with witness roots of 32 bytes, have transactions with the same
  -- bytes, less their witnesses, and the same witness root, unless two different byte strings have
  -- the same hash.
  pub transactions_bound :
      HashLaws P
      → (block block' : Block) (w w' root : Bytes) → length w ≡ 32
      → length w' ≡ 32
      → length block.transactions ≡ length block'.transactions
      → calc_transactions_root P {E = Error} block w ≡ ok root
      → calc_transactions_root P {E = Error} block' w' ≡ ok root
      → ((raw_bytes block ≡ raw_bytes block') × (w ≡ w')) ⊎ HashCollision
  unfolding calc_transactions_root
  transactions_bound H block block' w w' root s s' n e e' =
      let (raw, p, q) =
        >>=-eq-ok (unwrap (merkle_root P (map (tx_hash P) block.transactions))) _ e in
      let (raw', p', q') =
        >>=-eq-ok (unwrap (merkle_root P (map (tx_hash P) block'.transactions))) _ e' in
      let nodes = tx_nodes H block.transactions in
      let nodes' = tx_nodes H block'.transactions in
      let below = ap (merkle_root P) (tx_nodes_bytes H block.transactions) ∙ unwrap_inj _ raw p in
      let below' =
        ap (merkle_root P) (tx_nodes_bytes H block'.transactions) ∙ unwrap_inj _ raw' p' in
      let (node, r, a) = hashes_root H nodes raw below in
      let (node', r', a') = hashes_root H nodes' raw' below' in
      let above : merkle_root P (node.0 ∷ w ∷ []) ≡ some root =
        ap (λ v. merkle_root P (v ∷ w ∷ [])) a ∙ unwrap_inj _ root q in
      let above' : merkle_root P (node'.0 ∷ w' ∷ []) ≡ some root =
        ap (λ v. merkle_root P (v ∷ w' ∷ [])) a' ∙ unwrap_inj _ root q' in
      elim (hashes_bound H (node ∷ (w, s) ∷ []) (node' ∷ (w', s') ∷ []) root refl above above') [
        | inl pair ↦
            let roots : node ≡ node' = cc pair in
            let witnesses : w ≡ w' =
              let l : (w, s) ≡ (w', s') = cc pair in ap (λ (v : Hash). v.0) l in
            let same : raw' ≡ raw = sym a' ∙ ap (λ v. v.0) (sym roots) ∙ a in
            elim (hashes_bound H nodes nodes' raw
              (length-tx_nodes H block.transactions
                ∙ n
                ∙ sym (length-tx_nodes H block'.transactions))
              below (below' ∙ ap some same)) [
                | inl l ↦
                    elim (raw_bound block.transactions block'.transactions (
                      sym (tx_nodes_bytes H block.transactions)
                      ∙ ap (map (λ v. v.0)) l
                      ∙ tx_nodes_bytes H block'.transactions)) [
                        | inl raws ↦ inl (raws, witnesses)
                        | inr c ↦ inr c
                      ]
                | inr c ↦ inr c
              ]
        | inr c ↦ inr c
      ]
