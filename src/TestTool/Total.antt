-- ===== src/TestTool/Total.antt =====
-- The runs of the test tool.
use ckb_vote_poc.Base.{
  ℕ, ◌+◌, ◌%◌, ◌^◌, ◌<◌, ◌≡◌, ◌≢◌, refl, true, List, [], ◌∷◌, ◌++◌, map, length, length-append,
  Result, ok, unwrap, ◌==◌, if◌then◌else◌, Succeeds, Succeeds-bind, arith,
}
use ckb_vote_poc.Chain.{Bytes, Packages, NumberLaws, VerificationError, Script, Transaction, Block}
use ckb_vote_poc.Molecule.{concat}
use ckb_vote_poc.Molecule.Proposal
use ckb_vote_poc.Molecule.Proposal.Builder.{ProposalBuilder}
use ckb_vote_poc.Molecule.BlockVec
use ckb_vote_poc.Molecule.Layout.{length-write_table}
use ckb_vote_poc.Molecule.Fields.{proposal_fields}
use ckb_vote_poc.Merkle.Total.{merkle_root_total}
use ckb_vote_poc.Integrity.{merge, zeros, merkle_root, tx_hash, witness_hash}
use ckb_vote_poc.Guest.{to_le_bytes, read_blocks}
use ckb_vote_poc.Count.Ballots.{length-to_le_bytes}
use ckb_vote_poc.Prepare.{all_witness_root}
use ckb_vote_poc.TestTool.{
  from_verification, calc_transactions_root, rebuild_block_with_extra_tx, append_transactions,
  build_proposal_tx, build_vote_tx, generate_blocks, generate_from_templates, last_index,
  stamp_duration,
}

Succeeds-from_verification :
    {A : Type 0} (run : Result VerificationError A)
    → Succeeds run
    → Succeeds (from_verification run)
Succeeds-from_verification run (a, e) = (a, rw e refl)

module _ (P : Packages) where
  root-Succeeds :
      (leaves : List Bytes) → Succeeds (unwrap {E = VerificationError} (merkle_root P leaves))
  unfolding merkle_root
  root-Succeeds leaves =
      let (root, e) = merkle_root_total (merge P) (zeros 32) leaves in (root, rw e refl)

  calc_transactions_root-Succeeds :
      (txs : List Transaction) → Succeeds (calc_transactions_root P txs)
  unfolding calc_transactions_root
  calc_transactions_root-Succeeds txs =
      let (raw_root, e₁) = root-Succeeds (map (tx_hash P) txs) in
      let (witness_root, e₂) = root-Succeeds (map (witness_hash P) txs) in
      rw (e₁, e₂) (root-Succeeds (raw_root ∷ witness_root ∷ []))

  rebuild_block-Succeeds :
      (template : Block) (tx : Transaction) → Succeeds (rebuild_block_with_extra_tx P template tx)
  unfolding rebuild_block_with_extra_tx
  rebuild_block-Succeeds template tx =
      Succeeds-bind _ _ (calc_transactions_root-Succeeds (template.transactions ++ (tx ∷ [])))
        (λ root done. (_, refl))

  append_transactions-Succeeds :
      (proposal : Bytes) (script vote_script : Script) (k : ℕ) (templates : List Block)
      → Succeeds (append_transactions P proposal script vote_script k templates)
  unfolding append_transactions
  append_transactions-Succeeds proposal script vote_script k [] = ([], refl)
  append_transactions-Succeeds proposal script vote_script k (template ∷ templates) =
      let (block, e) =
        rebuild_block-Succeeds template
          (if k == 0 then build_proposal_tx P proposal script else build_vote_tx P vote_script k) in
      let (blocks, e') =
        append_transactions-Succeeds proposal script vote_script (k + 1) templates in
      (block ∷ blocks, rw (e, e') refl)

  all_witness_root-Succeeds : (blocks : List Block) → Succeeds (all_witness_root P blocks)
  unfolding all_witness_root
  all_witness_root-Succeeds [] = ([], refl)
  all_witness_root-Succeeds (block ∷ blocks) =
      let (root, e) = root-Succeeds (map (witness_hash P) block.transactions) in
      let (roots, e') = all_witness_root-Succeeds blocks in (root ∷ roots, rw (e, e') refl)

  last_index-Succeeds :
      (templates : List Block) → templates ≢ [] → Succeeds (last_index (length templates))
  unfolding last_index
  last_index-Succeeds [] h = absurd (h refl)
  last_index-Succeeds (template ∷ templates) h = (length templates % 2 ^ 32, refl)

  module _ (L : NumberLaws P)
      (duration code_hash hash_type description receiver amount minimal_requirement : Bytes)
      (four : length duration ≡ 4)
      (small : length (
          Proposal.build P duration code_hash hash_type description receiver amount
            minimal_requirement)
        < 2 ^ 32) where
    abbrev proposal : Bytes
    proposal =
        Proposal.build P duration code_hash hash_type description receiver amount
          minimal_requirement

    abbrev stamped : ℕ → Bytes
    stamped n =
        Proposal.build P (to_le_bytes 4 n) code_hash hash_type description receiver amount
          minimal_requirement

    stamp_duration-proposal : (n : ℕ) → stamp_duration P proposal (to_le_bytes 4 n) ≡ ok (stamped n)
    unfolding stamp_duration Proposal.Builder.as_builder Proposal.Builder.build
        Proposal.Builder.new_builder Proposal.Builder.with_duration
        Proposal.Builder.with_vote_cell_code_hash Proposal.Builder.with_vote_cell_hash_type
        Proposal.Builder.with_description Proposal.Builder.with_receiver
        Proposal.Builder.with_amount Proposal.Builder.with_minimal_requirement
    stamp_duration-proposal n =
        let (f₁, f₂, f₃, f₄, f₅, f₆, f₇) =
          proposal_fields P L duration code_hash hash_type description receiver amount
            minimal_requirement small in
        rw (f₁, f₂, f₃, f₄, f₅, f₆, f₇) refl

    stamped-small : (n : ℕ) → length (stamped n) < 2 ^ 32
    unfolding Proposal.build concat
    stamped-small n =
        let rest =
          code_hash ∷ hash_type ∷ description ∷ receiver ∷ amount ∷ minimal_requirement ∷ [] in
        omega (
          arith,
          small,
          four,
          length-to_le_bytes 4 n,
          length-write_table P L (duration ∷ rest),
          length-write_table P L (to_le_bytes 4 n ∷ rest),
          length-append duration (concat rest),
          length-append (to_le_bytes 4 n) (concat rest),
        )

    generate_blocks-Succeeds :
        (templates : List Block) → templates ≢ [] → Succeeds (generate_blocks P proposal templates)
    unfolding generate_blocks
    generate_blocks-Succeeds templates nonempty =
        let (n, e) = last_index-Succeeds templates nonempty in
        let fields =
          proposal_fields P L (to_le_bytes 4 n) code_hash hash_type description receiver amount
            minimal_requirement (stamped-small n) in
        rw (e, stamp_duration-proposal n, fields.1, fields.2)
          (Succeeds-bind _ _ (append_transactions-Succeeds (stamped n) _ _ 0 templates)
            (λ blocks done. (_, refl)))

    -- From a proposal that was built of seven parts, with a duration of four bytes and a size that
    -- fits the four bytes of a molecule number, and from a verified vector of at least one block, the
    -- test tool generates arguments, if numbers follow the molecule format.
    pub generate_total :
        (template_blocks : Bytes) (templates : List Block)
        → BlockVec.verify P template_blocks true ≡ ok tt
        → read_blocks P template_blocks ≡ ok templates
        → templates ≢ []
        → (args : Bytes) × (generate_from_templates P proposal template_blocks ≡ ok args)
    unfolding generate_from_templates
    generate_total template_blocks templates verified read nonempty =
        let (generated, e) = generate_blocks-Succeeds templates nonempty in
        Succeeds-from_verification _ (
          rw (verified, read, e)
            (Succeeds-bind _ _ (all_witness_root-Succeeds (generated.0)) (λ roots done. (_, refl))))
