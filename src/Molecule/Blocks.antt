-- ===== src/Molecule/Blocks.antt =====
-- A block vector after the shallow verification.
use ckb_vote_poc.Base.{
  ◌≡◌, Bool, false, List, [], ◌∷◌, length, not, ◌==◌, ok, Returns, All, NoPanic, NoPanic-bind,
  NoPanic-fail_if,
}
use ckb_vote_poc.Chain.{Bytes, Packages, NumberLaws, VerifierLaws, Verified}
use ckb_vote_poc.Molecule.{verify_table, verify_dynvec}
use ckb_vote_poc.Molecule.BlockVec
use ckb_vote_poc.Molecule.Access.{verify_dynvec-items}
use ckb_vote_poc.Molecule.NoPanic.{
  IsSafe, dynvec_offsets-NoPanic, verify_table-NoPanic, verify_dynvec-NoPanic,
}
use ckb_vote_poc.Molecule.Shallow.{
  verify_header_size, verify_vector_shallow, verify_block_shallow, verify_block_vec,
}

module _ (P : Packages) (L : NumberLaws P) where
  -- If numbers follow the molecule format, after `verify_block_vec` accepted a slice all its blocks can
  -- be read, and `verify_block_shallow` accepts each of them.
  pub verify_block_vec-iter :
      (slice : Bytes) (compatible : Bool)
      → verify_block_vec P slice compatible ≡ ok tt
      → Returns
          (All (λ block. verify_block_shallow P block compatible ≡ ok tt))
          (BlockVec.iter P slice)
  unfolding verify_block_vec BlockVec.iter BlockVec.len
  verify_block_vec-iter slice compatible h =
      verify_dynvec-items P L (λ block. verify_block_shallow P block compatible) slice
        (unfold verify_dynvec in h)

  header_size-IsSafe : IsSafe verify_header_size
  unfolding verify_header_size
  header_size-IsSafe slice = NoPanic-fail_if (not (length slice == 208)) _ _ λ e. tt

  vector_shallow-IsSafe : IsSafe (verify_vector_shallow P)
  unfolding verify_vector_shallow
  vector_shallow-IsSafe slice = NoPanic-bind _ _ (dynvec_offsets-NoPanic P slice) λ offsets e. tt

  -- What `verify_block_shallow` checks of a block's parts.
  abbrev block_fields : Bool → List (Bytes → Verified)
  block_fields compatible =
      verify_header_size
      ∷ verify_vector_shallow P
      ∷ verify_vector_shallow P
      ∷ (λ ids. P.verify_proposal_short_ids ids compatible)
      ∷ []

  -- If the packages' verifiers return and numbers follow the molecule format, `verify_block_vec` does
  -- not panic, on any bytes.
  pub verify_block_vec-NoPanic :
      VerifierLaws P
      → (slice : Bytes) (compatible : Bool) → NoPanic (verify_block_vec P slice compatible)
  unfolding verify_block_vec verify_block_shallow
  verify_block_vec-NoPanic V slice compatible =
      unfold verify_dynvec verify_table in
      verify_dynvec-NoPanic P L (verify_table P false (block_fields compatible))
        (verify_table-NoPanic P L false (block_fields compatible) (
          header_size-IsSafe,
          (
            vector_shallow-IsSafe,
            (vector_shallow-IsSafe, (λ ids. V.proposal_short_ids_returns ids compatible, tt)),
          ),
        ))
        slice
