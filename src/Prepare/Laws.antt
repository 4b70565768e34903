-- ===== src/Prepare/Laws.antt =====
-- The arguments that the host prepares, against the integrity check of the guest.
use ckb_vote_poc.Base.{
  ℕ, zero, suc, ◌^◌, ◌<◌, ◌≡◌, ◌≢◌, refl, sym, ap, subst, ◌∙◌, some, List, [], ◌∷◌, map, length,
  get_elem?, true, ok, unwrap, expect, >>=-eq-ok, unwrap-eq-ok, ok_inj,
}
use ckb_vote_poc.Chain.{Bytes, Packages, NumberLaws, BuilderLaws, VerificationError, Block}
use ckb_vote_poc.Molecule.BlockVec
use ckb_vote_poc.Molecule.GuestProgramArguments
use ckb_vote_poc.Molecule.Fields.{guest_program_arguments_fields}
use ckb_vote_poc.Integrity.{
  Error, merkle_root, tx_hash, witness_hash, calc_transactions_root, verify_block_integrity,
}
use ckb_vote_poc.Integrity.Laws.{LinkedAt, verify_block_integrity_iff}
use ckb_vote_poc.Guest.{read_blocks}
use ckb_vote_poc.Prepare.{all_witness_root, prepare_guest_program_arguments}

module _ (P : Packages) where
  -- The header has the root of the transactions' hashes and of their hashes with witnesses.
  abbrev pub HasTransactionsRoot : Block → Type 0
  HasTransactionsRoot block =
      (raw_root witness_root : Bytes) × (merkle_root P (map (tx_hash P) block.transactions)
        ≡ some raw_root)
      × (merkle_root P (map (witness_hash P) block.transactions) ≡ some witness_root)
      × (merkle_root P (raw_root ∷ witness_root ∷ []) ≡ some block.header.raw.transactions_root)

  get-all_witness_root :
      (blocks : List Block) (roots : List Bytes) (i : ℕ) (block : Block)
      → all_witness_root P blocks ≡ ok roots
      → get_elem? blocks i ≡ some block
      → (root : Bytes) × (get_elem? roots i ≡ some root)
        × (merkle_root P (map (witness_hash P) block.transactions) ≡ some root)
  unfolding all_witness_root
  get-all_witness_root [] roots i block h p = cc
  get-all_witness_root (x ∷ blocks) roots zero block h p =
      let (root, e₁, h₁) =
        >>=-eq-ok (unwrap (merkle_root P (map (witness_hash P) x.transactions))) _ h in
      let (rest, e₂, h₂) = >>=-eq-ok (all_witness_root P blocks) _ h₁ in
      let there : x ≡ block = cc p in
      (
        root,
        ap (λ l. get_elem? l 0) (sym (ok_inj h₂)),
        subst (λ (b : Block). merkle_root P (map (witness_hash P) b.transactions) ≡ some root) there
            (unwrap-eq-ok _ e₁),
      )
  get-all_witness_root (x ∷ blocks) roots (suc i) block h p =
      let (root, e₁, h₁) =
        >>=-eq-ok (unwrap (merkle_root P (map (witness_hash P) x.transactions))) _ h in
      let (rest, e₂, h₂) = >>=-eq-ok (all_witness_root P blocks) _ h₁ in
      let (w, q, r) = get-all_witness_root blocks rest i block e₂ p in
      (w, ap (λ l. get_elem? l (suc i)) (sym (ok_inj h₂)) ∙ q, r)

  calc-HasTransactionsRoot :
      (block : Block) (w : Bytes)
      → HasTransactionsRoot block
      → merkle_root P (map (witness_hash P) block.transactions) ≡ some w
      → calc_transactions_root P {E = Error} block w ≡ ok block.header.raw.transactions_root
  unfolding calc_transactions_root
  calc-HasTransactionsRoot block w (raw_root, witness_root, e₁, e₂, e₃) e =
      let same : witness_root ≡ w = cc (e₂, e) in rw (e₁, ← same, e₃) refl

  pub all_witness_root-verify :
      (blocks : List Block) (roots : List Bytes)
      → all_witness_root P blocks ≡ ok roots
      → blocks ≢ []
      → ((i : ℕ) → LinkedAt P blocks i)
      → ((i : ℕ) (b : Block) → get_elem? blocks i ≡ some b → HasTransactionsRoot b)
      → verify_block_integrity P blocks roots ≡ ok tt
  all_witness_root-verify blocks roots h nonempty linked fits =
      (verify_block_integrity_iff P blocks roots).1 (record {
        nonempty = nonempty;
        linked = linked;
        roots = λ i b p.
            let (w, q, r) = get-all_witness_root blocks roots i b h p in
            (w, q, calc-HasTransactionsRoot b w (fits i b p) r);
      })

  -- If the encodings of the packages are read back, the blocks that are read are nonempty and linked,
  -- and each header has the root of its transactions and witnesses, then from the prepared
  -- arguments, as long as they fit the four bytes of a molecule number, the guest reads the bytes
  -- that were given, and their blocks pass the integrity check with the prepared witness roots.
  pub prepare-verify :
      NumberLaws P
      → BuilderLaws P
      → (bytes args : Bytes) (blocks : List Block) → read_blocks P bytes ≡ ok blocks
      → blocks ≢ []
      → ((i : ℕ) → LinkedAt P blocks i)
      → ((i : ℕ) (b : Block) → get_elem? blocks i ≡ some b → HasTransactionsRoot b)
      → prepare_guest_program_arguments P bytes ≡ ok args
      → length args < 2 ^ 32
      → (blocks_field roots_field : Bytes) × (GuestProgramArguments.blocks P args ≡ ok blocks_field)
        × (GuestProgramArguments.witness_root P args ≡ ok roots_field)
        × (P.bytes_raw_data blocks_field ≡ bytes)
        × (verify_block_integrity P blocks (P.read_byte32_vec roots_field) ≡ ok tt)
  unfolding prepare_guest_program_arguments
  prepare-verify L B bytes args blocks read nonempty linked fits h size =
      let (u, e₁, h₁) =
        >>=-eq-ok (expect {E = VerificationError} (BlockVec.verify P bytes true)) _ h in
      let (read_back, e₂, h₂) = >>=-eq-ok (read_blocks P bytes) _ h₁ in
      let (roots, e₃, h₃) = >>=-eq-ok (all_witness_root P read_back) _ h₂ in
      let built = ok_inj h₃ in
      let same : read_back ≡ blocks = ok_inj (sym e₂ ∙ read) in
      let fields =
        guest_program_arguments_fields P L (P.build_bytes bytes) (P.build_byte32_vec roots)
          P.default_script (subst (λ slice. length slice < 2 ^ 32) (sym built) size) in
      (
        P.build_bytes bytes,
        P.build_byte32_vec roots,
        ap (GuestProgramArguments.blocks P) (sym built) ∙ fields.0,
        ap (GuestProgramArguments.witness_root P) (sym built) ∙ fields.1,
        B.raw_data_of_built bytes,
        all_witness_root-verify blocks (P.read_byte32_vec (P.build_byte32_vec roots))
            (ap (all_witness_root P) (sym same) ∙ e₃ ∙ ap ok (sym (B.items_of_built roots)))
            nonempty linked fits,
      )
