-- ===== src/Guest/Laws.antt =====
-- What the committed bytes of the guest program show.
use ckb_vote_poc.Base.{
  ◌-◌, ◌≡◌, sym, false, some, List, length, get_elem?, ok, >>=-eq-ok, unwrap, expect, unwrap-eq-ok,
  expect-eq-ok, ok_inj,
}
use ckb_vote_poc.Chain.{Bytes, Packages, VerificationError, Block}
use ckb_vote_poc.Molecule.GuestProgramArguments
use ckb_vote_poc.Molecule.Shallow.{verify_block_vec}
use ckb_vote_poc.Integrity.{header_hash, verify_block_integrity}
use ckb_vote_poc.Integrity.Laws.{IsIntact, verify_block_integrity_iff}
use ckb_vote_poc.Count.{VoteResult, count_vote}
use ckb_vote_poc.Guest.{read_blocks, public_values, main}

module _ (P : Packages) where
  -- A run that commits `pv`: intact blocks whose votes were counted.
  pub record Committed (pv : Bytes) : Type 0 where
    pub blocks : List Block
    pub witness_roots : List Bytes
    pub first_block : Block
    pub last_block : Block
    pub proposal_script : Bytes
    pub result : VoteResult
    pub intact : IsIntact P blocks witness_roots
    pub first : get_elem? blocks 0 ≡ some first_block
    pub last : get_elem? blocks (length blocks - 1) ≡ some last_block
    pub counted : count_vote P blocks (P.read_script proposal_script) ≡ ok result
    pub values :
        pv
        ≡ public_values P
            (header_hash P first_block.header)
            (header_hash P last_block.header)
            proposal_script
            result

  -- When the program commits bytes, these are the public values of a count of votes in blocks that
  -- passed the integrity check, with the header hashes of the first and of the last of them.
  pub main-Committed : (args_bytes pv : Bytes) → main P args_bytes ≡ ok pv → Committed pv
  unfolding main
  main-Committed args_bytes pv h =
      let (args, e₁, h₁) = >>=-eq-ok (expect (GuestProgramArguments.from_slice P args_bytes)) _ h in
      let (field, e₂, h₂) = >>=-eq-ok (GuestProgramArguments.blocks P args) _ h₁ in
      let (u, e₃, h₃) =
        >>=-eq-ok
          (expect {E = VerificationError} (verify_block_vec P (P.bytes_raw_data field) false)) _
          h₂ in
      let (blocks, e₄, h₄) = >>=-eq-ok (read_blocks P (P.bytes_raw_data field)) _ h₃ in
      let (roots, e₅, h₅) = >>=-eq-ok (GuestProgramArguments.witness_root P args) _ h₄ in
      let (v, e₆, h₆) =
        >>=-eq-ok (expect (verify_block_integrity P blocks (P.read_byte32_vec roots))) _ h₅ in
      let (first_block, e₇, h₇) = >>=-eq-ok (unwrap (get_elem? blocks 0)) _ h₆ in
      let (last_block, e₈, h₈) = >>=-eq-ok (unwrap (get_elem? blocks (length blocks - 1))) _ h₇ in
      let (script, e₉, h₉) = >>=-eq-ok (GuestProgramArguments.proposal_script P args) _ h₈ in
      let (result, e, h') = >>=-eq-ok (count_vote P blocks (P.read_script script)) _ h₉ in
      record {
        blocks = blocks;
        witness_roots = P.read_byte32_vec roots;
        first_block = first_block;
        last_block = last_block;
        proposal_script = script;
        result = result;
        intact =
            (verify_block_integrity_iff P blocks (P.read_byte32_vec roots)).0 (expect-eq-ok _ e₆);
        first = unwrap-eq-ok _ e₇;
        last = unwrap-eq-ok _ e₈;
        counted = e;
        values = sym (ok_inj h');
      }
