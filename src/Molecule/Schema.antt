-- ===== src/Molecule/Schema.antt =====
-- The full verification of a block vector, as the schema of crates/types/molecules/blockchain.mol
-- describes it, against the one of crates/types/src/molecules/mod.rs.
use ckb_vote_poc.Base.{
  ◌≡◌, refl, Bool, true, not, ℕ, List, [], ◌∷◌, length, ◌==◌, ok, >>=-eq-ok, arith,
}
use ckb_vote_poc.Chain.{Bytes, Packages, Verified, Verify}
use ckb_vote_poc.Molecule.{slice_range, verify_items, verify_table, dynvec_offsets, verify_dynvec}
use ckb_vote_poc.Molecule.BlockVec
use ckb_vote_poc.Molecule.Compatible.{verify_table-compatible}
use ckb_vote_poc.Molecule.Shallow.{
  verify_header_size, verify_vector_shallow, verify_block_shallow, verify_block_vec,
}

-- `table Block`, with the verifiers of a header, of an uncle and of a transaction.
abbrev pub block_fields : Packages → Verify → Verify → Verify → Bool → List (Bytes → Verified)
block_fields P verify_header verify_uncle verify_transaction compatible =
    (λ s. verify_header s compatible)
    ∷ (λ s. verify_dynvec P (λ u. verify_uncle u compatible) s)
    ∷ (λ s. verify_dynvec P (λ t. verify_transaction t compatible) s)
    ∷ (λ s. P.verify_proposal_short_ids s compatible)
    ∷ []

-- What the schema documents of the package's verifier of blocks: a block is a table of a header, which
-- is a struct of 208 bytes, a vector of uncles, a vector of transactions, and the short ids.
pub record BlockSchema (P : Packages) : Type 0 where
  pub verify_header : Verify
  pub verify_uncle : Verify
  pub verify_transaction : Verify
  pub header_size :
      (slice : Bytes) (compatible : Bool)
      → verify_header slice compatible ≡ ok tt
      → length slice ≡ 208
  pub block_checked :
      (slice : Bytes) (compatible : Bool)
      → P.verify_block slice compatible ≡ ok tt
      → verify_table P
          (not compatible)
          (block_fields P verify_header verify_uncle verify_transaction compatible)
          slice
        ≡ ok tt

verify_items-weaker :
    (verify weak : Bytes → Verified)
    → ((slice : Bytes) → verify slice ≡ ok tt → weak slice ≡ ok tt)
    → (slice : Bytes) (offsets : List ℕ) → verify_items verify slice offsets ≡ ok tt
    → verify_items weak slice offsets ≡ ok tt
unfolding verify_items
verify_items-weaker verify weak w slice [] h = h
verify_items-weaker verify weak w slice (start ∷ []) h = h
verify_items-weaker verify weak w slice (start ∷ end ∷ offsets) h =
    let (item, e₁, h₁) = >>=-eq-ok (slice_range slice start end) _ h in
    let (done, e₂, h₂) = >>=-eq-ok (verify item) _ h₁ in
    rw (e₁, w item e₂) (verify_items-weaker verify weak w slice (end ∷ offsets) h₂)

header_shallow : (slice : Bytes) → length slice ≡ 208 → verify_header_size slice ≡ ok tt
unfolding verify_header_size
header_shallow slice h = let same : (length slice == 208) ≡ true = ground arith in rw same refl

module _ (P : Packages) (S : BlockSchema P) where
  vector_shallow :
      (verify : Bytes → Verified) (slice : Bytes)
      → verify_dynvec P verify slice ≡ ok tt
      → verify_vector_shallow P slice ≡ ok tt
  unfolding verify_dynvec verify_vector_shallow
  vector_shallow verify slice h =
      let (offsets, e, more) = >>=-eq-ok (dynvec_offsets P slice) _ h in rw e refl

  block_shallow :
      (compatible : Bool) (slice : Bytes)
      → P.verify_block slice compatible ≡ ok tt
      → verify_block_shallow P slice compatible ≡ ok tt
  unfolding verify_block_shallow verify_table
  block_shallow compatible slice h =
      verify_table-compatible P (not compatible)
        (block_fields P S.verify_header S.verify_uncle S.verify_transaction compatible)
        (verify_header_size
          ∷ verify_vector_shallow P
          ∷ verify_vector_shallow P
          ∷ (λ ids. P.verify_proposal_short_ids ids compatible)
          ∷ [])
        (
          (λ s e. header_shallow s (S.header_size s compatible e)),
          (
            (λ s e. vector_shallow (λ u. S.verify_uncle u compatible) s e),
            (
              (λ s e. vector_shallow (λ t. S.verify_transaction t compatible) s e),
              ((λ s e. e), tt),
            ),
          ),
        )
        slice (S.block_checked slice compatible h)

  -- If the package verifies a block as the schema says, then `verify_block_vec`, which skips what is
  -- inside a transaction, accepts every block vector that the full verification accepts.
  pub full-verify_block_vec :
      (slice : Bytes) (compatible : Bool)
      → BlockVec.verify P slice compatible ≡ ok tt
      → verify_block_vec P slice compatible ≡ ok tt
  unfolding BlockVec.verify verify_dynvec verify_block_vec
  full-verify_block_vec slice compatible h =
      let (offsets, e, items) = >>=-eq-ok (dynvec_offsets P slice) _ h in
      rw e (
        verify_items-weaker (λ s. P.verify_block s compatible)
          (λ s. verify_block_shallow P s compatible) (block_shallow compatible) slice offsets items)
