-- ===== src/Molecule/Typed.antt =====
-- The tables after verification, and their accessors.
use ckb_vote_poc.Base.{
  ℕ, ◌-◌, ◌+◌, ◌*◌, ◌<◌, ◌≡◌, refl, Bool, true, not, List, [], ◌∷◌, length, take, drop, length-take,
  length-drop, leb, ◌&&◌, ok, Returns, All, arith,
}
use ckb_vote_poc.Chain.{Bytes, Packages, NumberLaws, Verified}
use ckb_vote_poc.Molecule.{slice_range}
use ckb_vote_poc.Molecule.Uint16Vec
use ckb_vote_poc.Molecule.Uint16Vec.RoundTrip.{verify-eq-ok}
use ckb_vote_poc.Molecule.Vote
use ckb_vote_poc.Molecule.Proposal
use ckb_vote_poc.Molecule.PublicValues
use ckb_vote_poc.Molecule.ProposalWitness
use ckb_vote_poc.Molecule.GuestProgramArguments
use ckb_vote_poc.Molecule.Access.{collect-All, verify_table-inner_field, verify_table-last_field}

module _ (P : Packages) (L : NumberLaws P) where
  -- If numbers follow the molecule format, the accessors of a verified Vote return parts
  -- that the verifiers of their types accept.
  pub vote_parts :
      (slice : Bytes) (compatible : Bool)
      → Vote.verify P slice compatible ≡ ok tt
      → Returns (λ part. P.verify_byte part compatible ≡ ok tt) (Vote.vote P slice)
        × Returns (λ part. P.verify_uint64 part compatible ≡ ok tt) (Vote.amount P slice)
        × Returns (λ part. Uint16Vec.verify P part compatible ≡ ok tt) (Vote.dao_index P slice)
  unfolding Vote.verify Vote.vote Vote.amount Vote.dao_index
  vote_parts slice compatible h =
      let fields : List (Bytes → Verified) =
        (λ s. P.verify_byte s compatible)
        ∷ (λ s. P.verify_uint64 s compatible)
        ∷ (λ s. Uint16Vec.verify P s compatible)
        ∷ [] in
      (
        verify_table-inner_field P L (not compatible) fields slice 0 _ h refl (omega arith),
        verify_table-inner_field P L (not compatible) fields slice 1 _ h refl (omega arith),
        verify_table-last_field P L (not compatible) fields slice 2 _ h refl refl,
      )

  -- If numbers follow the molecule format, the accessors of a verified Proposal return parts
  -- that the verifiers of their types accept.
  pub proposal_parts :
      (slice : Bytes) (compatible : Bool)
      → Proposal.verify P slice compatible ≡ ok tt
      → Returns (λ part. P.verify_uint32 part compatible ≡ ok tt) (Proposal.duration P slice)
        × Returns
            (λ part. P.verify_byte32 part compatible ≡ ok tt)
            (Proposal.vote_cell_code_hash P slice)
        × Returns
            (λ part. P.verify_byte part compatible ≡ ok tt)
            (Proposal.vote_cell_hash_type P slice)
        × Returns (λ part. P.verify_bytes part compatible ≡ ok tt) (Proposal.description P slice)
        × Returns (λ part. P.verify_script part compatible ≡ ok tt) (Proposal.receiver P slice)
        × Returns (λ part. P.verify_uint64 part compatible ≡ ok tt) (Proposal.amount P slice)
        × Returns
            (λ part. P.verify_uint64 part compatible ≡ ok tt)
            (Proposal.minimal_requirement P slice)
  unfolding Proposal.verify Proposal.duration Proposal.vote_cell_code_hash
      Proposal.vote_cell_hash_type Proposal.description Proposal.receiver Proposal.amount
      Proposal.minimal_requirement
  proposal_parts slice compatible h =
      let fields : List (Bytes → Verified) =
        (λ s. P.verify_uint32 s compatible)
        ∷ (λ s. P.verify_byte32 s compatible)
        ∷ (λ s. P.verify_byte s compatible)
        ∷ (λ s. P.verify_bytes s compatible)
        ∷ (λ s. P.verify_script s compatible)
        ∷ (λ s. P.verify_uint64 s compatible)
        ∷ (λ s. P.verify_uint64 s compatible)
        ∷ [] in
      (
        verify_table-inner_field P L (not compatible) fields slice 0 _ h refl (omega arith),
        verify_table-inner_field P L (not compatible) fields slice 1 _ h refl (omega arith),
        verify_table-inner_field P L (not compatible) fields slice 2 _ h refl (omega arith),
        verify_table-inner_field P L (not compatible) fields slice 3 _ h refl (omega arith),
        verify_table-inner_field P L (not compatible) fields slice 4 _ h refl (omega arith),
        verify_table-inner_field P L (not compatible) fields slice 5 _ h refl (omega arith),
        verify_table-last_field P L (not compatible) fields slice 6 _ h refl refl,
      )

  -- If numbers follow the molecule format, the accessors of a verified PublicValues return parts
  -- that the verifiers of their types accept.
  pub public_values_parts :
      (slice : Bytes) (compatible : Bool)
      → PublicValues.verify P slice compatible ≡ ok tt
      → Returns (λ part. Proposal.verify P part compatible ≡ ok tt) (PublicValues.proposal P slice)
        × Returns
            (λ part. P.verify_byte32 part compatible ≡ ok tt)
            (PublicValues.start_block_hash P slice)
        × Returns
            (λ part. P.verify_byte32 part compatible ≡ ok tt)
            (PublicValues.end_block_hash P slice)
        × Returns
            (λ part. P.verify_script part compatible ≡ ok tt)
            (PublicValues.proposal_script P slice)
        × Returns (λ part. P.verify_byte part compatible ≡ ok tt) (PublicValues.passed P slice)
        × Returns (λ part. P.verify_uint64 part compatible ≡ ok tt) (PublicValues.yes_vote P slice)
        × Returns (λ part. P.verify_uint64 part compatible ≡ ok tt) (PublicValues.no_vote P slice)
  unfolding PublicValues.verify PublicValues.proposal PublicValues.start_block_hash
      PublicValues.end_block_hash PublicValues.proposal_script PublicValues.passed
      PublicValues.yes_vote PublicValues.no_vote
  public_values_parts slice compatible h =
      let fields : List (Bytes → Verified) =
        (λ s. Proposal.verify P s compatible)
        ∷ (λ s. P.verify_byte32 s compatible)
        ∷ (λ s. P.verify_byte32 s compatible)
        ∷ (λ s. P.verify_script s compatible)
        ∷ (λ s. P.verify_byte s compatible)
        ∷ (λ s. P.verify_uint64 s compatible)
        ∷ (λ s. P.verify_uint64 s compatible)
        ∷ [] in
      (
        verify_table-inner_field P L (not compatible) fields slice 0 _ h refl (omega arith),
        verify_table-inner_field P L (not compatible) fields slice 1 _ h refl (omega arith),
        verify_table-inner_field P L (not compatible) fields slice 2 _ h refl (omega arith),
        verify_table-inner_field P L (not compatible) fields slice 3 _ h refl (omega arith),
        verify_table-inner_field P L (not compatible) fields slice 4 _ h refl (omega arith),
        verify_table-inner_field P L (not compatible) fields slice 5 _ h refl (omega arith),
        verify_table-last_field P L (not compatible) fields slice 6 _ h refl refl,
      )

  -- If numbers follow the molecule format, the accessors of a verified ProposalWitness return parts
  -- that the verifiers of their types accept.
  pub proposal_witness_parts :
      (slice : Bytes) (compatible : Bool)
      → ProposalWitness.verify P slice compatible ≡ ok tt
      → Returns (λ part. P.verify_bytes part compatible ≡ ok tt) (ProposalWitness.proof P slice)
        × Returns
            (λ part. PublicValues.verify P part compatible ≡ ok tt)
            (ProposalWitness.public_values P slice)
  unfolding ProposalWitness.verify ProposalWitness.proof ProposalWitness.public_values
  proposal_witness_parts slice compatible h =
      let fields : List (Bytes → Verified) =
        (λ s. P.verify_bytes s compatible) ∷ (λ s. PublicValues.verify P s compatible) ∷ [] in
      (
        verify_table-inner_field P L (not compatible) fields slice 0 _ h refl (omega arith),
        verify_table-last_field P L (not compatible) fields slice 1 _ h refl refl,
      )

  -- If numbers follow the molecule format, the accessors of a verified GuestProgramArguments return parts
  -- that the verifiers of their types accept.
  pub guest_program_arguments_parts :
      (slice : Bytes) (compatible : Bool)
      → GuestProgramArguments.verify P slice compatible ≡ ok tt
      → Returns
          (λ part. P.verify_bytes part compatible ≡ ok tt)
          (GuestProgramArguments.blocks P slice)
        × Returns
            (λ part. P.verify_byte32_vec part compatible ≡ ok tt)
            (GuestProgramArguments.witness_root P slice)
        × Returns
            (λ part. P.verify_script part compatible ≡ ok tt)
            (GuestProgramArguments.proposal_script P slice)
  unfolding GuestProgramArguments.verify GuestProgramArguments.blocks
      GuestProgramArguments.witness_root GuestProgramArguments.proposal_script
  guest_program_arguments_parts slice compatible h =
      let fields : List (Bytes → Verified) =
        (λ s. P.verify_bytes s compatible)
        ∷ (λ s. P.verify_byte32_vec s compatible)
        ∷ (λ s. P.verify_script s compatible)
        ∷ [] in
      (
        verify_table-inner_field P L (not compatible) fields slice 0 _ h refl (omega arith),
        verify_table-inner_field P L (not compatible) fields slice 1 _ h refl (omega arith),
        verify_table-last_field P L (not compatible) fields slice 2 _ h refl refl,
      )

  uint16-Returns :
      (slice : Bytes) (count k : ℕ)
      → length slice ≡ 4 + 2 * count
      → k < count
      → Returns (λ item. length item ≡ 2) (Uint16Vec.get_unchecked slice k)
  unfolding Uint16Vec.get_unchecked slice_range
  uint16-Returns slice count k n h =
      let start = 4 + 2 * k in
      let inside : (leb start (start + 2) && leb (start + 2) (length slice)) ≡ true =
        ground arith in
      (
        take (start + 2 - start) (drop start slice),
        rw inside refl,
        omega (arith, length-take (start + 2 - start) (drop start slice), length-drop start slice),
      )

  -- The items of a verified Uint16Vec can all be read, and have two bytes each.
  pub uint16_vec_items :
      (slice : Bytes) (compatible : Bool)
      → Uint16Vec.verify P slice compatible ≡ ok tt
      → Returns (All (λ item. length item ≡ 2)) (Uint16Vec.iter P slice)
  unfolding Uint16Vec.iter Uint16Vec.len
  uint16_vec_items slice compatible h =
      let (count, four, r, size) = verify-eq-ok P L slice compatible h in
      rw r (
        collect-All (λ item. length item ≡ 2) (Uint16Vec.get_unchecked slice) count 0
          λ k lo hi. uint16-Returns slice count k size (omega arith))
