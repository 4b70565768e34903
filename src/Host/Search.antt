-- ===== src/Host/Search.antt =====
-- The proposal that the host's search of sp1/ckb-vote-verification/script/src/main.rs finds, and the one
-- that `find_proposal` of crates/verification/src/lib.rs finds.
use mathlib.Core.Option.{some-injective}
use ckb_vote_poc.Base.{
  ℕ, zero, suc, ◌+◌, ◌≡◌, refl, sym, ap, subst, ◌∙◌, inl, inr, Bool-cases, true, false, not, some,
  List, [], ◌∷◌, length, get_elem?, ◌==◌, leb, bytes_eq, Result, ok, fail_if-eq-ok, >>=-eq-ok,
  map_err, map_err-eq-ok, unwrap, unwrap-eq-ok, expect, expect-eq-ok, ok_or, ok_or-eq-ok, ok_inj,
  arith,
}
use ckb_vote_poc.Chain.{
  Bytes, Packages, CompatibleLaws, VerificationError, Script, Transaction, Block,
}
use ckb_vote_poc.Molecule.{collect, get_unchecked}
use ckb_vote_poc.Molecule.BlockVec
use ckb_vote_poc.Molecule.Proposal
use ckb_vote_poc.Molecule.Compatible.{proposal_compatible}
use ckb_vote_poc.Integrity.{tx_hash}
use ckb_vote_poc.Count.Find.{find_proposal}
use ckb_vote_poc.Count.{count_vote}
use ckb_vote_poc.Count.Passed.{Carried, count_vote_passed}
use ckb_vote_poc.Guest.{decode_blocks, read_blocks}
use ckb_vote_poc.Host.Laws.{Confirmed}
use ckb_vote_poc.Host.Outputs.{HoldsOnly, find_in_transactions-found}
use ckb_vote_poc.Host.{
  Args, Report, Sdk, read_proposal_cell, find_in_txs, find_proposal_in_first_block, trim_prefix,
  invalid_block_data, no_blocks, invalid_proposal_tx_hash,
}

-- In the first block.
abbrev pub HoldsOnlyFirst : (P : Packages) → Script → Bytes → List Block → Type 0
HoldsOnlyFirst P script proposal [] = Unit
HoldsOnlyFirst P script proposal (first_block ∷ blocks) =
    HoldsOnly P script proposal first_block.transactions

collect_first :
    (get : ℕ → Result VerificationError Bytes) (count : ℕ) (slice : Bytes) (slices : List Bytes)
    → leb count 0 ≡ false
    → get 0 ≡ ok slice
    → collect get count 0 ≡ ok slices
    → (rest : List Bytes) × (slices ≡ slice ∷ rest)
unfolding collect
collect_first get zero slice slices some_item e h = absurd (ground arith)
collect_first get (suc count) slice slices some_item e h =
    let (first, e₁, h₁) = >>=-eq-ok (get 0) _ h in
    let (rest, e₂, h₂) = >>=-eq-ok (collect get count (0 + 1)) _ h₁ in
    (rest, sym (ok_inj h₂) ∙ ap (λ s. s ∷ rest) (ok_inj (sym e₁ ∙ e)))

module _ (P : Packages) where
  first_of :
      (block_data slice : Bytes) (blocks : List Block)
      → BlockVec.get P block_data 0 ≡ ok (some slice)
      → read_blocks P block_data ≡ ok blocks
      → (first : Block) × (rest : List Block) × (P.read_block slice ≡ some first)
        × (blocks ≡ first ∷ rest)
  unfolding BlockVec.get read_blocks decode_blocks BlockVec.iter collect
  first_of block_data slice blocks found read =
      let (count, e₁, h₁) = >>=-eq-ok (BlockVec.len P block_data) _ found in
      let (slices, e₂, h₂) = >>=-eq-ok (BlockVec.iter P block_data) _ read in
      elim (Bool-cases (leb count 0)) [
        | inl empty ↦ let none_found = rw empty at h₁ in cc none_found
        | inr more ↦
            let (item, e₃, h₃) = >>=-eq-ok (get_unchecked P block_data 0) _ (rw more at h₁) in
            let same : item ≡ slice = cc h₃ in
            let items : collect (get_unchecked P block_data) count 0 ≡ ok slices = rw e₁ at e₂ in
            let (rest, split) =
              collect_first (get_unchecked P block_data) count slice slices more (e₃ ∙ ap ok same)
                items in
            let (first, e₄, h₄) = >>=-eq-ok (unwrap (P.read_block slice)) _ (rw split at h₂) in
            let (more_blocks, e₅, h₅) = >>=-eq-ok (decode_blocks P rest) _ h₄ in
            (first, more_blocks, unwrap-eq-ok _ e₄, sym (ok_inj h₅))
      ]

  proposal_parses :
      CompatibleLaws P
      → (data_ proposal : Bytes) → Proposal.from_slice P data_ ≡ ok proposal
      → Proposal.from_compatible_slice P proposal ≡ ok proposal
  unfolding Proposal.from_slice Proposal.from_compatible_slice
  proposal_parses C data_ proposal h =
      let (done, e, h₁) = >>=-eq-ok (Proposal.verify P data_ false) _ h in
      subst (λ s. Proposal.from_compatible_slice P s ≡ ok s) (ok_inj h₁)
        (rw (proposal_compatible P C data_ e) refl)

  read_proposal_cell-parses :
      CompatibleLaws P
      → (tx : Transaction) (output_index : ℕ) (proposal : Bytes) (script : Script)
      → read_proposal_cell P tx output_index ≡ ok (proposal, script)
      → Proposal.from_compatible_slice P proposal ≡ ok proposal
  unfolding read_proposal_cell
  read_proposal_cell-parses C tx output_index proposal script h =
      let (output, e₁, h₁) = >>=-eq-ok (ok_or (get_elem? tx.raw.outputs output_index) _) _ h in
      let (type_script, e₂, h₂) = >>=-eq-ok (ok_or output.type_ _) _ h₁ in
      let (data_, e₃, h₃) = >>=-eq-ok (ok_or (get_elem? tx.raw.outputs_data output_index) _) _ h₂ in
      let (parsed, e₄, h₄) = >>=-eq-ok (map_err (Proposal.from_slice P data_) _) _ h₃ in
      let same : parsed ≡ proposal = ap (λ p. p.0) (ok_inj h₄) in
      proposal_parses C data_ proposal (map_err-eq-ok _ _ e₄ ∙ ap ok same)

  find_in_txs-parses :
      CompatibleLaws P
      → (txs : List Transaction) (tx_hash_bytes : Bytes) (output_index : ℕ) (proposal : Bytes)
        (script : Script)
      → find_in_txs P tx_hash_bytes output_index txs ≡ ok (proposal, script)
      → Proposal.from_compatible_slice P proposal ≡ ok proposal
  unfolding find_in_txs
  find_in_txs-parses C [] tx_hash_bytes output_index proposal script h = cc
  find_in_txs-parses C (tx ∷ txs) tx_hash_bytes output_index proposal script h =
      elim (Bool-cases (bytes_eq (tx_hash P tx) tx_hash_bytes)) [
        | inl named ↦ read_proposal_cell-parses C tx output_index proposal script (rw named at h)
        | inr other ↦
            find_in_txs-parses C txs tx_hash_bytes output_index proposal script (rw other at h)
      ]

  -- If the compatible verification accepts what the strict one accepts, the guest counts the votes on
  -- the proposal that the host finds by its transaction and its index, as long as every output of the
  -- first block whose type script has the bytes of the found one holds that proposal: with the script
  -- that the host found, `find_proposal` returns the proposal that the host found.
  pub host_find-find_proposal :
      CompatibleLaws P
      → (sdk : Sdk) (block_data tx_hash_hex : Bytes) (output_index : ℕ) (proposal : Bytes)
        (script : Script) (blocks : List Block)
      → find_proposal_in_first_block P sdk block_data tx_hash_hex output_index
        ≡ ok (proposal, script)
      → read_blocks P block_data ≡ ok blocks
      → HoldsOnlyFirst P script proposal blocks
      → find_proposal P blocks script ≡ ok (some proposal)
  unfolding find_proposal_in_first_block find_proposal BlockVec.from_compatible_slice
  host_find-find_proposal C sdk block_data tx_hash_hex output_index proposal script blocks h read
        only =
      let (tx_hash_bytes, e₁, h₁) =
        >>=-eq-ok (ok_or (sdk.hex_decode (trim_prefix tx_hash_hex)) invalid_proposal_tx_hash) _ h in
      let (e₂, h₂) = fail_if-eq-ok (not (length tx_hash_bytes == 32)) _ _ h₁ in
      let (block_vec, e₃, h₃) =
        >>=-eq-ok (map_err (BlockVec.from_compatible_slice P block_data) invalid_block_data) _ h₂ in
      let (u, e₄, h₄) = >>=-eq-ok (BlockVec.verify P block_data true) _ (map_err-eq-ok _ _ e₃) in
      let same : block_data ≡ block_vec = ok_inj h₄ in
      let (found, e₅, h₅) =
        >>=-eq-ok (expect {E = VerificationError} (BlockVec.get P block_vec 0)) _ h₃ in
      let (slice, e₆, h₆) = >>=-eq-ok (ok_or found no_blocks) _ h₅ in
      let got : BlockVec.get P block_data 0 ≡ ok (some slice) =
        ap (λ s. BlockVec.get P s 0) same ∙ expect-eq-ok _ e₅ ∙ ap ok (ok_or-eq-ok _ _ e₆) in
      let (first, rest, decoded, split) = first_of block_data slice blocks got read in
      let (block, e₇, h₇) = >>=-eq-ok (unwrap (P.read_block slice)) _ h₆ in
      let same_block : block ≡ first = some-injective _ _ (sym (unwrap-eq-ok _ e₇) ∙ decoded) in
      let searched : find_in_txs P tx_hash_bytes output_index first.transactions
          ≡ ok (proposal, script) =
        ap (λ b. find_in_txs P tx_hash_bytes output_index b.transactions) (sym same_block) ∙ h₇ in
      let parses =
        find_in_txs-parses C first.transactions tx_hash_bytes output_index proposal script
          searched in
      subst (λ bs. find_proposal P bs script ≡ ok (some proposal)) (sym split)
        (find_in_transactions-found P script proposal parses first.transactions
          (subst (HoldsOnlyFirst P script proposal) split only) tx_hash_bytes output_index searched)

  -- If the compatible verification accepts what the strict one accepts, then what a run of the host
  -- without --mock confirms is a vote on the proposal that its command line names, as long as every output
  -- of the first block whose type script has the bytes of the found one holds that proposal, and the
  -- script is read back from its bytes: the result is of that proposal, the window has as many blocks as
  -- its duration says and one more, YES exceeds NO, and both together, cut at the largest u64,
  -- exceed the requirement of its terms, which is in shannon and taken modulo 2 ^ 64.
  pub Confirmed-Carried :
      CompatibleLaws P
      → (sdk : Sdk) (cli : Args) (block_data : Bytes) (report : Report)
        (confirmed : Confirmed P sdk cli block_data report)
      → HoldsOnlyFirst P confirmed.script confirmed.proposal confirmed.blocks
      → P.read_script (P.script_slice confirmed.script) ≡ confirmed.script
      → (confirmed.result.proposal ≡ confirmed.proposal)
        × Carried P confirmed.blocks confirmed.script confirmed.result
  Confirmed-Carried C sdk cli block_data report confirmed only same =
      let carried =
        count_vote_passed P confirmed.blocks confirmed.script confirmed.result
          (ap (count_vote P confirmed.blocks) (sym same) ∙ confirmed.counted) confirmed.passed in
      let found =
        host_find-find_proposal C sdk block_data confirmed.tx_hash confirmed.index
          confirmed.proposal confirmed.script confirmed.blocks confirmed.found confirmed.blocks_read
          only in
      (some-injective _ _ (ok_inj (sym carried.found ∙ found)), carried)
