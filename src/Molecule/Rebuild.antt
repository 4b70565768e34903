-- ===== src/Molecule/Rebuild.antt =====
-- `as_builder` of each table, and building again.
use native.Mathlib.Nat.{suc-ne-zero, suc_inj}
use ckb_vote_poc.Base.{
  ◌^◌, ◌<◌, ◌≡◌, refl, sym, subst, ℕ, true, false, List, [], ◌∷◌, length, ok, ◌>>=◌, suc, zero,
}
use ckb_vote_poc.Chain.{Bytes, Packages, NumberLaws, Verified}
use ckb_vote_poc.Molecule.{verify_table, write_table}
use ckb_vote_poc.Molecule.Uint16Vec
use ckb_vote_poc.Molecule.Accepted.{Accepted-length}
use ckb_vote_poc.Molecule.Pieces.{IsBytes}
use ckb_vote_poc.Molecule.Canonical.{verify_table-IsWritten}
use ckb_vote_poc.Molecule.Fields.{
  vote_fields, guest_program_arguments_fields, proposal_fields, public_values_fields,
  proposal_witness_fields,
}
use ckb_vote_poc.Molecule.Vote
use ckb_vote_poc.Molecule.Vote.Builder.{VoteBuilder}
use ckb_vote_poc.Molecule.GuestProgramArguments
use ckb_vote_poc.Molecule.GuestProgramArguments.Builder.{GuestProgramArgumentsBuilder}
use ckb_vote_poc.Molecule.Proposal
use ckb_vote_poc.Molecule.Proposal.Builder.{ProposalBuilder}
use ckb_vote_poc.Molecule.PublicValues
use ckb_vote_poc.Molecule.PublicValues.Builder.{PublicValuesBuilder}
use ckb_vote_poc.Molecule.ProposalWitness
use ckb_vote_poc.Molecule.ProposalWitness.Builder.{ProposalWitnessBuilder}

-- What holds of all lists of `n` parts.
abbrev ForParts : ℕ → (List Bytes → Type 0) → Type 0
ForParts zero Q = Q []
ForParts (suc n) Q = (part : Bytes) → ForParts n (λ parts. Q (part ∷ parts))

for_parts :
    (n : ℕ) (Q : List Bytes → Type 0)
    → ForParts n Q
    → (parts : List Bytes) → n ≡ length parts
    → Q parts
for_parts zero Q all [] e = all
for_parts zero Q all (part ∷ parts) e = elim (suc-ne-zero _ (sym e)) [ ]
for_parts (suc n) Q all [] e = elim (suc-ne-zero _ e) [ ]
for_parts (suc n) Q all (part ∷ parts) e =
    for_parts n (λ rest. Q (part ∷ rest)) (all part) parts (suc_inj e)

module _ (P : Packages) (L : NumberLaws P) where
  -- What holds of every table that is written from as many parts as there are fields holds of
  -- every accepted slice.
  for_accepted :
      (fields : List (Bytes → Verified)) (Q : Bytes → Type 0)
      → ForParts
          (length fields)
          (λ parts. length (write_table P parts) < 2 ^ 32 → Q (write_table P parts))
      → (slice : Bytes) → IsBytes slice
      → verify_table P true fields slice ≡ ok tt
      → Q slice
  for_accepted fields Q all slice bytes h =
      let w = verify_table-IsWritten P L fields slice bytes h in
      subst Q (sym w.written) (
        for_parts (length fields)
          (λ parts. length (write_table P parts) < 2 ^ 32 → Q (write_table P parts)) all w.parts
          (Accepted-length fields w.parts w.accepted)
          (subst (λ s. length s < 2 ^ 32) w.written w.small))

  -- If numbers follow the molecule format, a Vote that the strict verification accepts is built
  -- again, byte for byte, from the builder that `as_builder` makes of it.
  pub vote_rebuild :
      (slice : Bytes)
      → IsBytes slice
      → Vote.verify P slice false ≡ ok tt
      → (do builder ← Vote.Builder.as_builder P slice; ok (Vote.Builder.build P builder)) ≡ ok slice
  unfolding Vote.verify Vote.build Vote.Builder.as_builder Vote.Builder.build
      Vote.Builder.new_builder Vote.Builder.with_vote Vote.Builder.with_amount
      Vote.Builder.with_dao_index
  vote_rebuild =
      for_accepted
        ((λ s. P.verify_byte s false)
          ∷ (λ s. P.verify_uint64 s false)
          ∷ (λ s. Uint16Vec.verify P s false)
          ∷ [])
        (λ s. (do builder ← Vote.Builder.as_builder P s; ok (Vote.Builder.build P builder)) ≡ ok s)
        (λ p₁ p₂ p₃ small.
          let (f₁, f₂, f₃) = vote_fields P L p₁ p₂ p₃ small in rw (f₁, f₂, f₃) refl)

  -- If numbers follow the molecule format, a GuestProgramArguments that the strict verification accepts is built
  -- again, byte for byte, from the builder that `as_builder` makes of it.
  pub guest_program_arguments_rebuild :
      (slice : Bytes)
      → IsBytes slice
      → GuestProgramArguments.verify P slice false ≡ ok tt
      → (do
        builder ← GuestProgramArguments.Builder.as_builder P slice
        ok (GuestProgramArguments.Builder.build P builder))
        ≡ ok slice
  unfolding GuestProgramArguments.verify GuestProgramArguments.build
      GuestProgramArguments.Builder.as_builder GuestProgramArguments.Builder.build
      GuestProgramArguments.Builder.new_builder GuestProgramArguments.Builder.with_blocks
      GuestProgramArguments.Builder.with_witness_root
      GuestProgramArguments.Builder.with_proposal_script
  guest_program_arguments_rebuild =
      for_accepted
        ((λ s. P.verify_bytes s false)
          ∷ (λ s. P.verify_byte32_vec s false)
          ∷ (λ s. P.verify_script s false)
          ∷ [])
        (λ s.
          (do
            builder ← GuestProgramArguments.Builder.as_builder P s
            ok (GuestProgramArguments.Builder.build P builder))
          ≡ ok s)
        (λ p₁ p₂ p₃ small.
          let (f₁, f₂, f₃) = guest_program_arguments_fields P L p₁ p₂ p₃ small in
          rw (f₁, f₂, f₃) refl)

  -- If numbers follow the molecule format, a Proposal that the strict verification accepts is built
  -- again, byte for byte, from the builder that `as_builder` makes of it.
  pub proposal_rebuild :
      (slice : Bytes)
      → IsBytes slice
      → Proposal.verify P slice false ≡ ok tt
      → (do builder ← Proposal.Builder.as_builder P slice; ok (Proposal.Builder.build P builder))
        ≡ ok slice
  unfolding Proposal.verify Proposal.build Proposal.Builder.as_builder Proposal.Builder.build
      Proposal.Builder.new_builder Proposal.Builder.with_duration
      Proposal.Builder.with_vote_cell_code_hash Proposal.Builder.with_vote_cell_hash_type
      Proposal.Builder.with_description Proposal.Builder.with_receiver Proposal.Builder.with_amount
      Proposal.Builder.with_minimal_requirement
  proposal_rebuild =
      for_accepted
        ((λ s. P.verify_uint32 s false)
          ∷ (λ s. P.verify_byte32 s false)
          ∷ (λ s. P.verify_byte s false)
          ∷ (λ s. P.verify_bytes s false)
          ∷ (λ s. P.verify_script s false)
          ∷ (λ s. P.verify_uint64 s false)
          ∷ (λ s. P.verify_uint64 s false)
          ∷ [])
        (λ s.
          (do builder ← Proposal.Builder.as_builder P s; ok (Proposal.Builder.build P builder))
          ≡ ok s)
        (λ p₁ p₂ p₃ p₄ p₅ p₆ p₇ small.
          let (f₁, f₂, f₃, f₄, f₅, f₆, f₇) = proposal_fields P L p₁ p₂ p₃ p₄ p₅ p₆ p₇ small in
          rw (f₁, f₂, f₃, f₄, f₅, f₆, f₇) refl)

  -- If numbers follow the molecule format, a PublicValues that the strict verification accepts is built
  -- again, byte for byte, from the builder that `as_builder` makes of it.
  pub public_values_rebuild :
      (slice : Bytes)
      → IsBytes slice
      → PublicValues.verify P slice false ≡ ok tt
      → (do
        builder ← PublicValues.Builder.as_builder P slice
        ok (PublicValues.Builder.build P builder))
        ≡ ok slice
  unfolding PublicValues.verify PublicValues.build PublicValues.Builder.as_builder
      PublicValues.Builder.build PublicValues.Builder.new_builder PublicValues.Builder.with_proposal
      PublicValues.Builder.with_start_block_hash PublicValues.Builder.with_end_block_hash
      PublicValues.Builder.with_proposal_script PublicValues.Builder.with_passed
      PublicValues.Builder.with_yes_vote PublicValues.Builder.with_no_vote
  public_values_rebuild =
      for_accepted
        ((λ s. Proposal.verify P s false)
          ∷ (λ s. P.verify_byte32 s false)
          ∷ (λ s. P.verify_byte32 s false)
          ∷ (λ s. P.verify_script s false)
          ∷ (λ s. P.verify_byte s false)
          ∷ (λ s. P.verify_uint64 s false)
          ∷ (λ s. P.verify_uint64 s false)
          ∷ [])
        (λ s.
          (do
            builder ← PublicValues.Builder.as_builder P s
            ok (PublicValues.Builder.build P builder))
          ≡ ok s)
        (λ p₁ p₂ p₃ p₄ p₅ p₆ p₇ small.
          let (f₁, f₂, f₃, f₄, f₅, f₆, f₇) = public_values_fields P L p₁ p₂ p₃ p₄ p₅ p₆ p₇ small in
          rw (f₁, f₂, f₃, f₄, f₅, f₆, f₇) refl)

  -- If numbers follow the molecule format, a ProposalWitness that the strict verification accepts is built
  -- again, byte for byte, from the builder that `as_builder` makes of it.
  pub proposal_witness_rebuild :
      (slice : Bytes)
      → IsBytes slice
      → ProposalWitness.verify P slice false ≡ ok tt
      → (do
        builder ← ProposalWitness.Builder.as_builder P slice
        ok (ProposalWitness.Builder.build P builder))
        ≡ ok slice
  unfolding ProposalWitness.verify ProposalWitness.build ProposalWitness.Builder.as_builder
      ProposalWitness.Builder.build ProposalWitness.Builder.new_builder
      ProposalWitness.Builder.with_proof ProposalWitness.Builder.with_public_values
  proposal_witness_rebuild =
      for_accepted ((λ s. P.verify_bytes s false) ∷ (λ s. PublicValues.verify P s false) ∷ [])
        (λ s.
          (do
            builder ← ProposalWitness.Builder.as_builder P s
            ok (ProposalWitness.Builder.build P builder))
          ≡ ok s)
        (λ p₁ p₂ small. let (f₁, f₂) = proposal_witness_fields P L p₁ p₂ small in rw (f₁, f₂) refl)
