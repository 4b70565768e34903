-- ===== src/Molecule/Lengths.antt =====
-- `expected_length` of each builder, and the length of what the builder writes.
use ckb_vote_poc.Base.{◌+◌, ◌*◌, ◌≡◌, refl, List, [], ◌∷◌, map, sum, length, length-append, arith}
use ckb_vote_poc.Chain.{Bytes, Packages, NumberLaws}
use ckb_vote_poc.Molecule.{concat, write_table, write_dynvec}
use ckb_vote_poc.Molecule.Layout.{length-write_table}
use ckb_vote_poc.Molecule.BlockVec
use ckb_vote_poc.Molecule.BlockVec.Builder.{BlockVecBuilder}
use ckb_vote_poc.Molecule.Uint16Vec
use ckb_vote_poc.Molecule.Uint16Vec.Builder.{Uint16VecBuilder}
use ckb_vote_poc.Molecule.Uint16Vec.RoundTrip.{IsUint16s, length-concat}
use ckb_vote_poc.Molecule.Vote
use ckb_vote_poc.Molecule.Vote.Builder.{VoteBuilder}
use ckb_vote_poc.Molecule.GuestProgramArguments
use ckb_vote_poc.Molecule.GuestProgramArguments.Builder.{GuestProgramArgumentsBuilder}
use ckb_vote_poc.Molecule.Proposal
use ckb_vote_poc.Molecule.Proposal.Builder.{ProposalBuilder}
use ckb_vote_poc.Molecule.PublicValues
use ckb_vote_poc.Molecule.PublicValues.Builder.{PublicValuesBuilder}
use ckb_vote_poc.Molecule.ProposalWitness
use ckb_vote_poc.Molecule.ProposalWitness.Builder.{ProposalWitnessBuilder}

sum-concat : (parts : List Bytes) → length (concat parts) ≡ sum (map length parts)
unfolding concat
sum-concat [] = refl
sum-concat (part ∷ parts) = omega (arith, length-append part (concat parts), sum-concat parts)

module _ (P : Packages) (L : NumberLaws P) where
  length-table :
      (parts : List Bytes)
      → length (write_table P parts) ≡ 4 * (length parts + 1) + sum (map length parts)
  length-table parts = omega (arith, length-write_table P L parts, sum-concat parts)

  length-dynvec :
      (items : List Bytes)
      → length (write_dynvec P items) ≡ 4 * (length items + 1) + sum (map length items)
  unfolding write_dynvec
  length-dynvec [] = L.pack_length 4
  length-dynvec (item ∷ items) = length-table (item ∷ items)

  vote-expected_length :
      (builder : VoteBuilder)
      → length (Vote.Builder.build P builder) ≡ Vote.Builder.expected_length builder
  unfolding Vote.Builder.build Vote.build Vote.Builder.expected_length
  vote-expected_length builder =
      omega (arith, length-table (builder.vote ∷ builder.amount ∷ builder.dao_index ∷ []))

  guest_program_arguments-expected_length :
      (builder : GuestProgramArgumentsBuilder)
      → length (GuestProgramArguments.Builder.build P builder)
        ≡ GuestProgramArguments.Builder.expected_length builder
  unfolding GuestProgramArguments.Builder.build GuestProgramArguments.build
      GuestProgramArguments.Builder.expected_length
  guest_program_arguments-expected_length builder =
      omega
        (arith, length-table (builder.blocks ∷ builder.witness_root ∷ builder.proposal_script ∷ []))

  proposal-expected_length :
      (builder : ProposalBuilder)
      → length (Proposal.Builder.build P builder) ≡ Proposal.Builder.expected_length builder
  unfolding Proposal.Builder.build Proposal.build Proposal.Builder.expected_length
  proposal-expected_length builder = omega (
    arith,
    length-table (
        builder.duration ∷ builder.vote_cell_code_hash ∷ builder.vote_cell_hash_type
        ∷ builder.description ∷ builder.receiver ∷ builder.amount ∷ builder.minimal_requirement
        ∷ []),
  )

  public_values-expected_length :
      (builder : PublicValuesBuilder)
      → length (PublicValues.Builder.build P builder) ≡ PublicValues.Builder.expected_length builder
  unfolding PublicValues.Builder.build PublicValues.build PublicValues.Builder.expected_length
  public_values-expected_length builder = omega (
    arith,
    length-table (
        builder.proposal ∷ builder.start_block_hash ∷ builder.end_block_hash
        ∷ builder.proposal_script ∷ builder.passed ∷ builder.yes_vote ∷ builder.no_vote ∷ []),
  )

  proposal_witness-expected_length :
      (builder : ProposalWitnessBuilder)
      → length (ProposalWitness.Builder.build P builder)
        ≡ ProposalWitness.Builder.expected_length builder
  unfolding ProposalWitness.Builder.build ProposalWitness.build
      ProposalWitness.Builder.expected_length
  proposal_witness-expected_length builder =
      omega (arith, length-table (builder.proof ∷ builder.public_values ∷ []))

  block_vec-expected_length :
      (builder : BlockVecBuilder)
      → length (BlockVec.Builder.build P builder) ≡ BlockVec.Builder.expected_length builder
  unfolding BlockVec.Builder.build BlockVec.build BlockVec.Builder.expected_length
  block_vec-expected_length builder = length-dynvec builder.blocks

  uint16_vec-expected_length :
      (builder : Uint16VecBuilder)
      → IsUint16s builder.items
      → length (Uint16Vec.Builder.build P builder) ≡ Uint16Vec.Builder.expected_length builder
  unfolding Uint16Vec.Builder.build Uint16Vec.build Uint16Vec.Builder.expected_length
  uint16_vec-expected_length builder sizes = omega (
    arith,
    length-append (P.pack_number (length builder.items)) (concat builder.items),
    L.pack_length (length builder.items),
    length-concat builder.items sizes,
  )
