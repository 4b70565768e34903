-- ===== src/Molecule/Safety.antt =====
-- The panics of verifying a table.
use ckb_vote_poc.Base.{◌+◌, ◌*◌, Bool, not, length, ltb, ◌==◌, NoPanic-fail_if, NoPanic-if, arith}
use ckb_vote_poc.Chain.{Packages, NumberLaws, VerifierLaws}
use ckb_vote_poc.Molecule.Uint16Vec
use ckb_vote_poc.Molecule.Vote
use ckb_vote_poc.Molecule.Proposal
use ckb_vote_poc.Molecule.PublicValues
use ckb_vote_poc.Molecule.ProposalWitness
use ckb_vote_poc.Molecule.GuestProgramArguments
use ckb_vote_poc.Molecule.Offsets.{read_number-inside}
use ckb_vote_poc.Molecule.NoPanic.{IsSafe, verify_table-NoPanic}

module _ (P : Packages) (L : NumberLaws P) (V : VerifierLaws P) where
  uint16_vec-NoPanic : (compatible : Bool) → IsSafe (λ s. Uint16Vec.verify P s compatible)
  unfolding Uint16Vec.verify
  uint16_vec-NoPanic compatible slice = NoPanic-fail_if (ltb (length slice) 4) _ _ λ long.
      rw (read_number-inside P slice 0 (ground arith)) (
        NoPanic-if (P.unpack_number slice == 0) _ _
          (λ e. NoPanic-fail_if (not (length slice == 4)) _ _ λ e'. tt)
          (λ e. NoPanic-fail_if (not (length slice == 4 + 2 * P.unpack_number slice)) _ _ λ e'. tt))

  pub vote-NoPanic : (compatible : Bool) → IsSafe (λ s. Vote.verify P s compatible)
  unfolding Vote.verify
  vote-NoPanic compatible = verify_table-NoPanic P L (not compatible) _ (
    (λ s. V.byte_returns s compatible),
    ((λ s. V.uint64_returns s compatible), (uint16_vec-NoPanic compatible, tt)),
  )

  pub proposal-NoPanic : (compatible : Bool) → IsSafe (λ s. Proposal.verify P s compatible)
  unfolding Proposal.verify
  proposal-NoPanic compatible = verify_table-NoPanic P L (not compatible) _ (
    (λ s. V.uint32_returns s compatible),
    (
      (λ s. V.byte32_returns s compatible),
      (
        (λ s. V.byte_returns s compatible),
        (
          (λ s. V.bytes_returns s compatible),
          (
            (λ s. V.script_returns s compatible),
            ((λ s. V.uint64_returns s compatible), ((λ s. V.uint64_returns s compatible), tt)),
          ),
        ),
      ),
    ),
  )

  pub public_values-NoPanic : (compatible : Bool) → IsSafe (λ s. PublicValues.verify P s compatible)
  unfolding PublicValues.verify
  public_values-NoPanic compatible = verify_table-NoPanic P L (not compatible) _ (
    proposal-NoPanic compatible,
    (
      (λ s. V.byte32_returns s compatible),
      (
        (λ s. V.byte32_returns s compatible),
        (
          (λ s. V.script_returns s compatible),
          (
            (λ s. V.byte_returns s compatible),
            ((λ s. V.uint64_returns s compatible), ((λ s. V.uint64_returns s compatible), tt)),
          ),
        ),
      ),
    ),
  )

  pub proposal_witness-NoPanic :
      (compatible : Bool) → IsSafe (λ s. ProposalWitness.verify P s compatible)
  unfolding ProposalWitness.verify
  proposal_witness-NoPanic compatible =
      verify_table-NoPanic P L (not compatible) _
        ((λ s. V.bytes_returns s compatible), (public_values-NoPanic compatible, tt))

  pub guest_program_arguments-NoPanic :
      (compatible : Bool) → IsSafe (λ s. GuestProgramArguments.verify P s compatible)
  unfolding GuestProgramArguments.verify
  guest_program_arguments-NoPanic compatible = verify_table-NoPanic P L (not compatible) _ (
    (λ s. V.bytes_returns s compatible),
    ((λ s. V.byte32_vec_returns s compatible), ((λ s. V.script_returns s compatible), tt)),
  )
