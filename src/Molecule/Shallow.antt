-- ===== src/Molecule/Shallow.antt =====
-- crates/types/src/molecules/mod.rs: the verification of a block vector that skips what is inside a
-- transaction.
use ckb_vote_poc.Base.{Bool, false, not, [], ◌∷◌, length, ok, ◌>>=◌, ◌>>◌, fail_if, ◌==◌}
use ckb_vote_poc.Chain.{Bytes, Packages, Verified, total_size_not_match}
use ckb_vote_poc.Molecule.{dynvec_offsets, table_offsets, verify_items, verify_fields}

-- `header_slice.len() != 208`
unfoldable pub verify_header_size : Bytes → Verified
verify_header_size slice = do
  fail_if (not (length slice == 208)) (total_size_not_match 208 (length slice))
  ok tt

module _ (P : Packages) where
  unfoldable pub verify_vector_shallow : Bytes → Verified
  verify_vector_shallow slice = do _ ← dynvec_offsets P slice; ok tt

  unfoldable pub verify_block_shallow : Bytes → Bool → Verified
  verify_block_shallow slice compatible = do
    offsets ← table_offsets P false 4 slice
    verify_fields
        (verify_header_size
          ∷ verify_vector_shallow
          ∷ verify_vector_shallow
          ∷ (λ ids. P.verify_proposal_short_ids ids compatible)
          ∷ [])
        slice offsets

  unfoldable pub verify_block_vec : Bytes → Bool → Verified
  verify_block_vec slice compatible = do
    offsets ← dynvec_offsets P slice
    verify_items (λ block. verify_block_shallow block compatible) slice offsets
