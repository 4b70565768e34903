-- ===== src/Host/Accepted.antt =====
-- The guest program on what the host writes to its stdin.
use ckb_vote_poc.Base.{
  ℕ, ◌^◌, ◌<◌, ◌≡◌, ◌≢◌, refl, sym, ap, subst, ◌∙◌, true, false, some, List, [], ◌∷◌, length,
  get_elem?, ok, ok_inj, Succeeds, arith,
}
use ckb_vote_poc.Chain.{
  Bytes, Packages, NumberLaws, BuilderLaws, VerifierLaws, Verified, Script, Block,
}
use ckb_vote_poc.Molecule.GuestProgramArguments
use ckb_vote_poc.Molecule.Fields.{guest_program_arguments_fields}
use ckb_vote_poc.Molecule.Accepted.{verify_table-write_table}
use ckb_vote_poc.Molecule.Shallow.{verify_block_vec}
use ckb_vote_poc.Integrity.Laws.{LinkedAt, IsIntact, verify_block_integrity_iff}
use ckb_vote_poc.Guest
use ckb_vote_poc.Guest.{read_blocks}
use ckb_vote_poc.Guest.Total.{IsAccepted, main-Succeeds_iff}
use ckb_vote_poc.Prepare.{prepare_guest_program_arguments}
use ckb_vote_poc.Prepare.Laws.{HasTransactionsRoot, prepare-verify}
use ckb_vote_poc.Host.{prepare_stdin_real}

module _ (P : Packages) (L : NumberLaws P) where
  -- Built arguments parse if their parts are accepted.
  from_slice-build :
      (blocks_field roots_field script : Bytes)
      → P.verify_bytes blocks_field false ≡ ok tt
      → P.verify_byte32_vec roots_field false ≡ ok tt
      → P.verify_script script false ≡ ok tt
      → length (GuestProgramArguments.build P blocks_field roots_field script) < 2 ^ 32
      → GuestProgramArguments.from_slice P
          (GuestProgramArguments.build P blocks_field roots_field script)
        ≡ ok (GuestProgramArguments.build P blocks_field roots_field script)
  unfolding GuestProgramArguments.from_slice GuestProgramArguments.verify
      GuestProgramArguments.build
  from_slice-build blocks_field roots_field script bytes roots scripts small =
      let fields : List (Bytes → Verified) =
        (λ s. P.verify_bytes s false)
        ∷ (λ s. P.verify_byte32_vec s false)
        ∷ (λ s. P.verify_script s false)
        ∷ [] in
      rw
        (verify_table-write_table P L true fields (blocks_field ∷ roots_field ∷ script ∷ [])
          (omega arith) (bytes, (roots, (scripts, tt))) small)
        refl

  -- If the encodings of the packages are read back, their verifiers return, and they accept the three
  -- parts of what the host writes, then the guest program commits public values on the stdin that the
  -- host prepares from a block vector: its blocks must conform to the schema, be linked, and have the
  -- roots of their transactions in their headers, and both the prepared arguments and the stdin must
  -- fit the four bytes of a molecule number.
  pub prepare_stdin_real-Succeeds :
      BuilderLaws P
      → VerifierLaws P
      → (block_data base blocks_field roots_field stdin : Bytes) (blocks : List Block)
        (script : Script)
      → read_blocks P block_data ≡ ok blocks
      → blocks ≢ []
      → ((i : ℕ) → LinkedAt P blocks i)
      → ((i : ℕ) (b : Block) → get_elem? blocks i ≡ some b → HasTransactionsRoot P b)
      → verify_block_vec P block_data false ≡ ok tt
      → prepare_guest_program_arguments P block_data ≡ ok base
      → length base < 2 ^ 32
      → GuestProgramArguments.blocks P base ≡ ok blocks_field
      → GuestProgramArguments.witness_root P base ≡ ok roots_field
      → prepare_stdin_real P block_data script ≡ ok stdin
      → length stdin < 2 ^ 32
      → P.verify_bytes blocks_field false ≡ ok tt
      → P.verify_byte32_vec roots_field false ≡ ok tt
      → P.verify_script (P.script_slice script) false ≡ ok tt
      → Succeeds (Guest.main P stdin)
  unfolding prepare_stdin_real
  prepare_stdin_real-Succeeds B V block_data base blocks_field roots_field stdin blocks script read
        nonempty linked fits verified prepared base_small blocks_given roots_read h small bytes
        roots scripts =
      let (given_blocks, given_roots, blocks_is, roots_is, given_raw, intact) =
        prepare-verify P L B block_data base blocks read nonempty linked fits prepared base_small in
      let raw : P.bytes_raw_data blocks_field ≡ block_data =
        ap P.bytes_raw_data (ok_inj (sym blocks_given ∙ blocks_is)) ∙ given_raw in
      let same_roots : given_roots ≡ roots_field = ok_inj (sym roots_is ∙ roots_read) in
      let built : GuestProgramArguments.build P blocks_field roots_field (P.script_slice script)
          ≡ stdin =
        ok_inj (rw (prepared, blocks_given, roots_read) at h) in
      let built_small = subst (λ slice. length slice < 2 ^ 32) (sym built) small in
      let fields =
        guest_program_arguments_fields P L blocks_field roots_field (P.script_slice script)
          built_small in
      let accepted : IsAccepted P
          (GuestProgramArguments.build P blocks_field roots_field (P.script_slice script)) =
        record {
          args = GuestProgramArguments.build P blocks_field roots_field (P.script_slice script);
          blocks_field = blocks_field;
          roots_field = roots_field;
          blocks = blocks;
          parsed =
              from_slice-build blocks_field roots_field (P.script_slice script) bytes roots scripts
                built_small;
          field_read = fields.0;
          verified = subst (λ slice. verify_block_vec P slice false ≡ ok tt) (sym raw) verified;
          blocks_read = subst (λ slice. read_blocks P slice ≡ ok blocks) (sym raw) read;
          roots_read = fields.1;
          intact =
              subst (λ r. IsIntact P blocks (P.read_byte32_vec r)) same_roots
                ((verify_block_integrity_iff P blocks (P.read_byte32_vec given_roots)).0 intact);
        } in
      subst (λ slice. Succeeds (Guest.main P slice)) built ((main-Succeeds_iff P L V _).1 accepted)
