-- ===== src/TestTool/Laws.antt =====
-- The blocks that the test tool generates, against the integrity check.
use ckb_vote_poc.Base.{
  ℕ, zero, suc, ◌+◌, ◌^◌, ◌<◌, ◌≤◌, ◌≡◌, refl, sym, ap, subst, ◌∙◌, true, List, [], ◌∷◌, ◌++◌, map,
  length, length-append, All, All-get_elem?, Result, ok, err, panic, unwrap, >>=-eq-ok, err, panic,
  unwrap-eq-ok, ok_inj, arith,
}
use ckb_vote_poc.Chain.{
  Bytes, Packages, NumberLaws, BuilderLaws, VerificationError, Script, Transaction, Block,
}
use ckb_vote_poc.Molecule.Proposal
use ckb_vote_poc.Molecule.BlockVec
use ckb_vote_poc.Molecule.GuestProgramArguments
use ckb_vote_poc.Molecule.{concat}
use ckb_vote_poc.Molecule.Layout.{length-write_table}
use ckb_vote_poc.Molecule.Fields.{guest_program_arguments_fields}
use ckb_vote_poc.Molecule.Vectors.{BlockVec_iter-build}
use ckb_vote_poc.Integrity.{merkle_root, header_hash, tx_hash, witness_hash, verify_block_integrity}
use ckb_vote_poc.Integrity.Laws.{LinkedAt}
use ckb_vote_poc.Guest.{to_le_bytes, read_blocks}
use ckb_vote_poc.Prepare.{all_witness_root}
use ckb_vote_poc.Prepare.Laws.{HasTransactionsRoot, all_witness_root-verify}
use ckb_vote_poc.TestTool.{
  from_verification, calc_transactions_root, rebuild_block_with_extra_tx, append_transactions,
  relink_block, relink_after, relink, generate_blocks, generate_from_templates, rebuild_header,
  last_index, stamp_duration,
}

from_verification-eq-ok :
    {A : Type 0} (run : Result VerificationError A) {a : A}
    → from_verification run ≡ ok a
    → run ≡ ok a
from_verification-eq-ok (ok b) h = cc
from_verification-eq-ok (err e) h = cc
from_verification-eq-ok panic h = cc

module _ (P : Packages) where
  rebuild_block-HasTransactionsRoot :
      (template block : Block) (tx : Transaction)
      → rebuild_block_with_extra_tx P template tx ≡ ok block
      → HasTransactionsRoot P block
  unfolding rebuild_block_with_extra_tx calc_transactions_root rebuild_header
  rebuild_block-HasTransactionsRoot template block tx h =
      let txs = template.transactions ++ (tx ∷ []) in
      let (root, e, h₁) = >>=-eq-ok (calc_transactions_root P txs) _ h in
      let (raw_root, e₁, h₂) = >>=-eq-ok (unwrap (merkle_root P (map (tx_hash P) txs))) _ e in
      let (witness_root, e₂, h₃) =
        >>=-eq-ok (unwrap (merkle_root P (map (witness_hash P) txs))) _ h₂ in
      subst (HasTransactionsRoot P) (ok_inj h₁)
        (raw_root, witness_root, unwrap-eq-ok _ e₁, unwrap-eq-ok _ e₂, unwrap-eq-ok _ h₃)

  append_transactions-HasTransactionsRoot :
      (proposal : Bytes) (script vote_script : Script) (k : ℕ) (templates blocks : List Block)
      → append_transactions P proposal script vote_script k templates ≡ ok blocks
      → All (HasTransactionsRoot P) blocks × (length blocks ≡ length templates)
  unfolding append_transactions
  append_transactions-HasTransactionsRoot proposal script vote_script k [] blocks h =
      subst (λ l. All (HasTransactionsRoot P) l × (length l ≡ 0)) (ok_inj h) (tt, refl)
  append_transactions-HasTransactionsRoot proposal script vote_script k (template ∷ templates)
        blocks h =
      let (block, e, h₁) = >>=-eq-ok (rebuild_block_with_extra_tx P template _) _ h in
      let (rest, e₁, h₂) =
        >>=-eq-ok (append_transactions P proposal script vote_script (k + 1) templates) _ h₁ in
      let (fits, size) =
        append_transactions-HasTransactionsRoot proposal script vote_script (k + 1) templates rest
          e₁ in
      subst (λ l. All (HasTransactionsRoot P) l × (length l ≡ suc (length templates))) (ok_inj h₂)
        ((rebuild_block-HasTransactionsRoot template block _ e, fits), ap suc size)

  relink_after-HasTransactionsRoot :
      (blocks : List Block) (parent : Block)
      → All (HasTransactionsRoot P) blocks
      → All (HasTransactionsRoot P) (relink_after P blocks parent)
  unfolding relink_after relink_block rebuild_header
  relink_after-HasTransactionsRoot [] parent fits = tt
  relink_after-HasTransactionsRoot (old ∷ blocks) parent (fit, fits) =
      (fit, relink_after-HasTransactionsRoot blocks (relink_block P parent old) fits)

  relink_after-LinkedAt :
      (blocks : List Block) (parent : Block) (i : ℕ)
      → LinkedAt P (parent ∷ relink_after P blocks parent) i
  unfolding relink_after relink_block rebuild_header
  relink_after-LinkedAt [] parent i a b p q = cc
  relink_after-LinkedAt (old ∷ blocks) parent zero a b p q =
      let here : parent ≡ a = cc p in
      let next : relink_block P parent old ≡ b = cc q in
      ap (λ block. header_hash P block.header) (sym here)
      ∙ ap (λ block. block.header.raw.parent_hash) next
  relink_after-LinkedAt (old ∷ blocks) parent (suc i) a b p q =
      relink_after-LinkedAt blocks (relink_block P parent old) i a b p q

  length-relink_after :
      (blocks : List Block) (parent : Block) → length (relink_after P blocks parent) ≡ length blocks
  unfolding relink_after
  length-relink_after [] parent = refl
  length-relink_after (old ∷ blocks) parent =
      ap suc (length-relink_after blocks (relink_block P parent old))

  last_index-positive : (n k : ℕ) → last_index n ≡ ok k → 0 < n
  unfolding last_index
  last_index-positive zero k h = cc
  last_index-positive (suc n) k h = omega arith

  -- Blocks that are linked, with the root of its transactions in each header.
  record Linked (count : ℕ) (blocks : List Block) : Type 0 where
    size : length blocks ≡ count
    some_block : 0 < length blocks
    fits : All (HasTransactionsRoot P) blocks
    linked : (i : ℕ) → LinkedAt P blocks i

  relink-Linked :
      (count : ℕ) (blocks : List Block)
      → 0 < count
      → length blocks ≡ count
      → All (HasTransactionsRoot P) blocks
      → Linked count (relink P blocks)
  unfolding relink
  relink-Linked count [] positive size fits = absurd (omega arith)
  relink-Linked count (first ∷ blocks) positive size (fit, fits) = record {
    size = ap suc (length-relink_after blocks first) ∙ size;
    some_block = omega arith;
    fits = (fit, relink_after-HasTransactionsRoot blocks first fits);
    linked = relink_after-LinkedAt blocks first;
  }

  generate_blocks-Linked :
      (proposal : Bytes) (templates : List Block) (generated : List Block × Script)
      → generate_blocks P proposal templates ≡ ok generated
      → Linked (length templates) (generated.0)
  unfolding generate_blocks
  generate_blocks-Linked proposal templates generated h =
      let (duration, e₁, h₁) = >>=-eq-ok (last_index (length templates)) _ h in
      let (stamped, e₂, h₂) = >>=-eq-ok (stamp_duration P proposal (to_le_bytes 4 duration)) _ h₁ in
      let (code_hash, e₃, h₃) = >>=-eq-ok (Proposal.vote_cell_code_hash P stamped) _ h₂ in
      let (hash_type, e₄, h₄) = >>=-eq-ok (Proposal.vote_cell_hash_type P stamped) _ h₃ in
      let (blocks, e₅, h₅) = >>=-eq-ok (append_transactions P stamped _ _ 0 templates) _ h₄ in
      let (fits, size) =
        append_transactions-HasTransactionsRoot stamped _ _ 0 templates blocks e₅ in
      subst (λ g. Linked (length templates) (g.0)) (ok_inj h₅)
        (relink-Linked (length templates) blocks
          (last_index-positive (length templates) duration e₁) size fits)

  length-blocks :
      NumberLaws P
      → (blocks_field roots_field script : Bytes)
      → length blocks_field ≤ length (GuestProgramArguments.build P blocks_field roots_field script)
  unfolding GuestProgramArguments.build concat
  length-blocks L blocks_field roots_field script = omega (
    arith,
    length-write_table P L (blocks_field ∷ roots_field ∷ script ∷ []),
    length-append blocks_field (roots_field ++ (script ++ [])),
  )

  -- If the encodings of the packages are read back, the arguments that the test tool generates, as
  -- long as they fit the four bytes of a molecule number, hold a block vector with the encodings of
  -- as many blocks as there were templates, and witness roots with which these blocks pass the
  -- integrity check.
  pub generate-verify :
      NumberLaws P
      → BuilderLaws P
      → (proposal template_blocks args : Bytes) (templates : List Block)
      → read_blocks P template_blocks ≡ ok templates
      → generate_from_templates P proposal template_blocks ≡ ok args
      → length args < 2 ^ 32
      → (blocks : List Block) × (blocks_field roots_field : Bytes) × (length blocks
          ≡ length templates)
        × (GuestProgramArguments.blocks P args ≡ ok blocks_field)
        × (GuestProgramArguments.witness_root P args ≡ ok roots_field)
        × (BlockVec.iter P (P.bytes_raw_data blocks_field) ≡ ok (map P.block_slice blocks))
        × (verify_block_integrity P blocks (P.read_byte32_vec roots_field) ≡ ok tt)
  unfolding generate_from_templates
  generate-verify L B proposal template_blocks args templates read h size =
      let h₀ = from_verification-eq-ok _ h in
      let (u, e₁, h₁) = >>=-eq-ok (BlockVec.verify P template_blocks true) _ h₀ in
      let (read_back, e₂, h₂) = >>=-eq-ok (read_blocks P template_blocks) _ h₁ in
      let (generated, e₃, h₃) = >>=-eq-ok (generate_blocks P proposal read_back) _ h₂ in
      let (roots, e₄, h₄) = >>=-eq-ok (all_witness_root P (generated.0)) _ h₃ in
      let blocks = generated.0 in
      let same : read_back ≡ templates = ok_inj (sym e₂ ∙ read) in
      let g = generate_blocks-Linked proposal read_back generated e₃ in
      let slices = BlockVec.build P (map P.block_slice blocks) in
      let built = ok_inj h₄ in
      let small = subst (λ slice. length slice < 2 ^ 32) (sym built) size in
      let fields =
        guest_program_arguments_fields P L (P.build_bytes slices) (P.build_byte32_vec roots)
          (P.script_slice (generated.1)) small in
      (
        blocks,
        P.build_bytes slices,
        P.build_byte32_vec roots,
        g.size ∙ ap length same,
        ap (GuestProgramArguments.blocks P) (sym built) ∙ fields.0,
        ap (GuestProgramArguments.witness_root P) (sym built) ∙ fields.1,
        ap (BlockVec.iter P) (B.raw_data_of_built slices)
            ∙ BlockVec_iter-build P L (map P.block_slice blocks) (
                omega (
                  arith,
                  small,
                  length-blocks L (P.build_bytes slices) (P.build_byte32_vec roots)
                      (P.script_slice (generated.1)),
                  B.built_size slices,
                )),
        all_witness_root-verify P blocks (P.read_byte32_vec (P.build_byte32_vec roots))
            (e₄ ∙ ap ok (sym (B.items_of_built roots)))
            (λ e. absurd (omega (arith, ap length e, g.some_block))) g.linked
            (λ i b e. All-get_elem? (HasTransactionsRoot P) blocks i b g.fits e),
      )
