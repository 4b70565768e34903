-- ===== src/Molecule/Fields.antt =====
-- The accessors of each table against its builder.
use ckb_vote_poc.Base.{◌^◌, ◌<◌, ◌≡◌, refl, [], ◌∷◌, length, ok}
use ckb_vote_poc.Chain.{Bytes, Packages, NumberLaws}
use ckb_vote_poc.Molecule.Vote
use ckb_vote_poc.Molecule.Proposal
use ckb_vote_poc.Molecule.PublicValues
use ckb_vote_poc.Molecule.ProposalWitness
use ckb_vote_poc.Molecule.GuestProgramArguments
use ckb_vote_poc.Molecule.RoundTrip.{inner_field-write_table, last_field-write_table}

module _ (P : Packages) (L : NumberLaws P) where
  -- If the encoding of numbers follows the molecule format, the accessors of a Vote return
  -- the parts that its builder was given, as long as its size fits the four
  -- bytes of a molecule number.
  pub vote_fields :
      (vote' amount' dao_index' : Bytes)
      → length (Vote.build P vote' amount' dao_index') < 2 ^ 32
      → (Vote.vote P (Vote.build P vote' amount' dao_index') ≡ ok vote')
        × (Vote.amount P (Vote.build P vote' amount' dao_index') ≡ ok amount')
        × (Vote.dao_index P (Vote.build P vote' amount' dao_index') ≡ ok dao_index')
  unfolding Vote.build Vote.vote Vote.amount Vote.dao_index
  vote_fields vote' amount' dao_index' h = (
    inner_field-write_table P L ([]) vote' amount' (dao_index' ∷ []) 4 refl h,
    inner_field-write_table P L (vote' ∷ []) amount' dao_index' ([]) 8 refl h,
    last_field-write_table P L (vote' ∷ amount' ∷ []) dao_index' 3 refl h,
  )

  -- If the encoding of numbers follows the molecule format, the accessors of a Proposal return
  -- the parts that its builder was given, as long as its size fits the four
  -- bytes of a molecule number.
  pub proposal_fields :
      (duration' vote_cell_code_hash' vote_cell_hash_type' description' receiver' amount'
        minimal_requirement' : Bytes)
      → length (
          Proposal.build P duration' vote_cell_code_hash' vote_cell_hash_type' description'
            receiver' amount' minimal_requirement')
        < 2 ^ 32
      → (Proposal.duration P (
            Proposal.build P duration' vote_cell_code_hash' vote_cell_hash_type' description'
              receiver' amount' minimal_requirement')
          ≡ ok duration')
        × (Proposal.vote_cell_code_hash P (
              Proposal.build P duration' vote_cell_code_hash' vote_cell_hash_type' description'
                receiver' amount' minimal_requirement')
            ≡ ok vote_cell_code_hash')
        × (Proposal.vote_cell_hash_type P (
              Proposal.build P duration' vote_cell_code_hash' vote_cell_hash_type' description'
                receiver' amount' minimal_requirement')
            ≡ ok vote_cell_hash_type')
        × (Proposal.description P (
              Proposal.build P duration' vote_cell_code_hash' vote_cell_hash_type' description'
                receiver' amount' minimal_requirement')
            ≡ ok description')
        × (Proposal.receiver P (
              Proposal.build P duration' vote_cell_code_hash' vote_cell_hash_type' description'
                receiver' amount' minimal_requirement')
            ≡ ok receiver')
        × (Proposal.amount P (
              Proposal.build P duration' vote_cell_code_hash' vote_cell_hash_type' description'
                receiver' amount' minimal_requirement')
            ≡ ok amount')
        × (Proposal.minimal_requirement P (
              Proposal.build P duration' vote_cell_code_hash' vote_cell_hash_type' description'
                receiver' amount' minimal_requirement')
            ≡ ok minimal_requirement')
  unfolding Proposal.build Proposal.duration Proposal.vote_cell_code_hash
      Proposal.vote_cell_hash_type Proposal.description Proposal.receiver Proposal.amount
      Proposal.minimal_requirement
  proposal_fields duration' vote_cell_code_hash' vote_cell_hash_type' description' receiver' amount'
        minimal_requirement' h =
      (
        inner_field-write_table P L ([]) duration' vote_cell_code_hash'
            (vote_cell_hash_type' ∷ description' ∷ receiver' ∷ amount' ∷ minimal_requirement' ∷ [])
            4 refl h,
        inner_field-write_table P L (duration' ∷ []) vote_cell_code_hash' vote_cell_hash_type'
            (description' ∷ receiver' ∷ amount' ∷ minimal_requirement' ∷ []) 8 refl h,
        inner_field-write_table P L (duration' ∷ vote_cell_code_hash' ∷ []) vote_cell_hash_type'
            description' (receiver' ∷ amount' ∷ minimal_requirement' ∷ []) 12 refl h,
        inner_field-write_table P L (duration' ∷ vote_cell_code_hash' ∷ vote_cell_hash_type' ∷ [])
            description' receiver' (amount' ∷ minimal_requirement' ∷ []) 16 refl h,
        inner_field-write_table P L
            (duration' ∷ vote_cell_code_hash' ∷ vote_cell_hash_type' ∷ description' ∷ []) receiver'
            amount' (minimal_requirement' ∷ []) 20 refl h,
        inner_field-write_table P L
            (duration' ∷ vote_cell_code_hash' ∷ vote_cell_hash_type' ∷ description' ∷ receiver'
              ∷ [])
            amount' minimal_requirement' ([]) 24 refl h,
        last_field-write_table P L
            (duration' ∷ vote_cell_code_hash' ∷ vote_cell_hash_type' ∷ description' ∷ receiver'
              ∷ amount' ∷ [])
            minimal_requirement' 7 refl h,
      )

  -- If the encoding of numbers follows the molecule format, the accessors of a PublicValues return
  -- the parts that its builder was given, as long as its size fits the four
  -- bytes of a molecule number.
  pub public_values_fields :
      (proposal' start_block_hash' end_block_hash' proposal_script' passed' yes_vote'
        no_vote' : Bytes)
      → length (
          PublicValues.build P proposal' start_block_hash' end_block_hash' proposal_script' passed'
            yes_vote' no_vote')
        < 2 ^ 32
      → (PublicValues.proposal P (
            PublicValues.build P proposal' start_block_hash' end_block_hash' proposal_script'
              passed' yes_vote' no_vote')
          ≡ ok proposal')
        × (PublicValues.start_block_hash P (
              PublicValues.build P proposal' start_block_hash' end_block_hash' proposal_script'
                passed' yes_vote' no_vote')
            ≡ ok start_block_hash')
        × (PublicValues.end_block_hash P (
              PublicValues.build P proposal' start_block_hash' end_block_hash' proposal_script'
                passed' yes_vote' no_vote')
            ≡ ok end_block_hash')
        × (PublicValues.proposal_script P (
              PublicValues.build P proposal' start_block_hash' end_block_hash' proposal_script'
                passed' yes_vote' no_vote')
            ≡ ok proposal_script')
        × (PublicValues.passed P (
              PublicValues.build P proposal' start_block_hash' end_block_hash' proposal_script'
                passed' yes_vote' no_vote')
            ≡ ok passed')
        × (PublicValues.yes_vote P (
              PublicValues.build P proposal' start_block_hash' end_block_hash' proposal_script'
                passed' yes_vote' no_vote')
            ≡ ok yes_vote')
        × (PublicValues.no_vote P (
              PublicValues.build P proposal' start_block_hash' end_block_hash' proposal_script'
                passed' yes_vote' no_vote')
            ≡ ok no_vote')
  unfolding PublicValues.build PublicValues.proposal PublicValues.start_block_hash
      PublicValues.end_block_hash PublicValues.proposal_script PublicValues.passed
      PublicValues.yes_vote PublicValues.no_vote
  public_values_fields proposal' start_block_hash' end_block_hash' proposal_script' passed'
        yes_vote' no_vote' h =
      (
        inner_field-write_table P L ([]) proposal' start_block_hash'
            (end_block_hash' ∷ proposal_script' ∷ passed' ∷ yes_vote' ∷ no_vote' ∷ []) 4 refl h,
        inner_field-write_table P L (proposal' ∷ []) start_block_hash' end_block_hash'
            (proposal_script' ∷ passed' ∷ yes_vote' ∷ no_vote' ∷ []) 8 refl h,
        inner_field-write_table P L (proposal' ∷ start_block_hash' ∷ []) end_block_hash'
            proposal_script' (passed' ∷ yes_vote' ∷ no_vote' ∷ []) 12 refl h,
        inner_field-write_table P L (proposal' ∷ start_block_hash' ∷ end_block_hash' ∷ [])
            proposal_script' passed' (yes_vote' ∷ no_vote' ∷ []) 16 refl h,
        inner_field-write_table P L
            (proposal' ∷ start_block_hash' ∷ end_block_hash' ∷ proposal_script' ∷ []) passed'
            yes_vote' (no_vote' ∷ []) 20 refl h,
        inner_field-write_table P L
            (proposal' ∷ start_block_hash' ∷ end_block_hash' ∷ proposal_script' ∷ passed' ∷ [])
            yes_vote' no_vote' ([]) 24 refl h,
        last_field-write_table P L
            (proposal' ∷ start_block_hash' ∷ end_block_hash' ∷ proposal_script' ∷ passed'
              ∷ yes_vote' ∷ [])
            no_vote' 7 refl h,
      )

  -- If the encoding of numbers follows the molecule format, the accessors of a ProposalWitness return
  -- the parts that its builder was given, as long as its size fits the four
  -- bytes of a molecule number.
  pub proposal_witness_fields :
      (proof' public_values' : Bytes)
      → length (ProposalWitness.build P proof' public_values') < 2 ^ 32
      → (ProposalWitness.proof P (ProposalWitness.build P proof' public_values') ≡ ok proof')
        × (ProposalWitness.public_values P (ProposalWitness.build P proof' public_values')
            ≡ ok public_values')
  unfolding ProposalWitness.build ProposalWitness.proof ProposalWitness.public_values
  proposal_witness_fields proof' public_values' h = (
    inner_field-write_table P L ([]) proof' public_values' ([]) 4 refl h,
    last_field-write_table P L (proof' ∷ []) public_values' 2 refl h,
  )

  -- If the encoding of numbers follows the molecule format, the accessors of a GuestProgramArguments return
  -- the parts that its builder was given, as long as its size fits the four
  -- bytes of a molecule number.
  pub guest_program_arguments_fields :
      (blocks' witness_root' proposal_script' : Bytes)
      → length (GuestProgramArguments.build P blocks' witness_root' proposal_script') < 2 ^ 32
      → (GuestProgramArguments.blocks P
            (GuestProgramArguments.build P blocks' witness_root' proposal_script')
          ≡ ok blocks')
        × (GuestProgramArguments.witness_root P
              (GuestProgramArguments.build P blocks' witness_root' proposal_script')
            ≡ ok witness_root')
        × (GuestProgramArguments.proposal_script P
              (GuestProgramArguments.build P blocks' witness_root' proposal_script')
            ≡ ok proposal_script')
  unfolding GuestProgramArguments.build GuestProgramArguments.blocks
      GuestProgramArguments.witness_root GuestProgramArguments.proposal_script
  guest_program_arguments_fields blocks' witness_root' proposal_script' h = (
    inner_field-write_table P L ([]) blocks' witness_root' (proposal_script' ∷ []) 4 refl h,
    inner_field-write_table P L (blocks' ∷ []) witness_root' proposal_script' ([]) 8 refl h,
    last_field-write_table P L (blocks' ∷ witness_root' ∷ []) proposal_script' 3 refl h,
  )
