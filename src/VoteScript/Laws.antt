-- ===== src/VoteScript/Laws.antt =====
-- What the vote type script accepts.
use ckb_vote_poc.Base.{
  ℕ, ◌≡◌, ap, ◌↔◌, ◌⊎◌, inl, inr, Bool-cases, Option-cases, ◌<◌, min, true, false, not, ◌&&◌, some,
  List, [], ◌∷◌, length, take, get_elem?, ltb, ◌==◌, bytes_eq_iff, bytes_eq_refl, ok, >>=-eq-ok,
  ok_or-eq-ok, unwrap-eq-ok, map_err-eq-ok, fail_if-eq-ok, ok_or, unwrap, map_err, arith,
}
use ckb_vote_poc.Chain.{Bytes, Packages, Script}
use ckb_vote_poc.Molecule.Vote
use ckb_vote_poc.Molecule.Uint16Vec
use ckb_vote_poc.Count.{u64_max}
use ckb_vote_poc.Count.Read.{little_endian}
use ckb_vote_poc.Syscalls.{input, cell_dep, group_output, Cell, Context, load_cell}
use ckb_vote_poc.VoteScript.{
  args_invalid, proposal_not_found, voter_lock_not_found, vote_data_invalid, multiple_vote_outputs,
  any_cell, blake160, is_proposal, has_lock, check_amount, check_creation, run,
}
use ckb_vote_poc.VoteScript.Deposits.{Backed}
use ckb_vote_poc.VoteScript.Search.{Found, any_cell_sound, any_cell_complete}
use ckb_vote_poc.VoteScript.Amounts.{check_amount_sound, check_amount_complete}

module _ (P : Packages) (c : Context) where
  -- The one vote cell that is created is a valid vote for the proposal.
  pub record IsVote (proposal_blake160 : Bytes) : Type 0 where
    pub vote_cell : Cell
    pub vote : Bytes
    pub value : Bytes
    pub direction : ℕ
    pub amount : Bytes
    pub indices : Bytes
    pub items : List Bytes
    pub total : ℕ
    pub only : c.cells group_output ≡ vote_cell ∷ []
    pub proposal :
        Found
          (λ cell.
            (t : Script) × (cell.type_ ≡ some t)
            × (blake160 P (P.script_slice t) ≡ proposal_blake160))
          (c.cells cell_dep)
    pub parsed : Vote.from_slice P vote_cell.data_ ≡ ok vote
    pub value_read : Vote.vote P vote ≡ ok value
    pub direction_read : get_elem? value 0 ≡ some direction
    pub yes_or_no : (direction ≡ 0) ⊎ (direction ≡ 1)
    pub owner :
        Found (λ cell. P.script_slice cell.lock ≡ P.script_slice vote_cell.lock) (c.cells input)
    pub amount_read : Vote.amount P vote ≡ ok amount
    pub amount_size : length amount ≡ 8
    pub indices_read : Vote.dao_index P vote ≡ ok indices
    pub items_read : Uint16Vec.iter P indices ≡ ok items
    pub backed : Backed P c vote_cell.lock items total
    pub nonempty : 0 < length items
    pub positive : 0 < total
    pub matches : little_endian amount ≡ min total u64_max

  proposal_sound :
      (tag : Bytes) (cell : Cell)
      → is_proposal P tag cell ≡ true
      → (t : Script) × (cell.type_ ≡ some t) × (blake160 P (P.script_slice t) ≡ tag)
  unfolding is_proposal
  proposal_sound tag cell h = elim (Option-cases cell.type_) [
    | inl e ↦ ground arith
    | inr (t, e) ↦ (t, e, ground (arith, bytes_eq_iff (blake160 P (P.script_slice t)) tag))
  ]

  lone_cell :
      (cells : List Cell) (cell : Cell)
      → length cells ≡ 1
      → get_elem? cells 0 ≡ some cell
      → cells ≡ cell ∷ []
  lone_cell [] cell n e = cc
  lone_cell (x ∷ []) cell n e = let p : x ≡ cell = cc e in ap (λ v. v ∷ []) p
  lone_cell (x ∷ y ∷ cells) cell n e = absurd (omega arith)

  check_creation_sound :
      (tag : Bytes)
      → length (c.cells group_output) ≡ 1
      → check_creation P c tag ≡ ok tt
      → IsVote tag
  unfolding check_creation has_lock
  check_creation_sound tag one h =
      let (e₁, h₁) =
        fail_if-eq-ok (not (any_cell (is_proposal P tag) (c.cells cell_dep))) proposal_not_found _
          h in
      let (vote_cell, e₂, h₂) = >>=-eq-ok (ok_or (load_cell c 0 group_output) args_invalid) _ h₁ in
      let (vote, e₃, h₃) =
        >>=-eq-ok (map_err (Vote.from_slice P vote_cell.data_) vote_data_invalid) _ h₂ in
      let (value, e₄, h₄) = >>=-eq-ok (map_err (Vote.vote P vote) vote_data_invalid) _ h₃ in
      let (direction, e₅, h₅) = >>=-eq-ok (unwrap (get_elem? value 0)) _ h₄ in
      let (e₆, h₆) =
        fail_if-eq-ok (not (direction == 0) && not (direction == 1)) vote_data_invalid _ h₅ in
      let (e₇, h₇) =
        fail_if-eq-ok (not (any_cell (has_lock P vote_cell.lock) (c.cells input)))
          voter_lock_not_found _ h₆ in
      let (i, dep, listed, test) =
        any_cell_sound (is_proposal P tag) (c.cells cell_dep) (ground arith) in
      let (j, from, listed', test') =
        any_cell_sound (has_lock P vote_cell.lock) (c.cells input) (ground arith) in
      let (amount, indices, items, total, a₁, a₂, a₃, a₄, b, n, t, m) =
        check_amount_sound P c vote_cell.lock vote h₇ in
      record {
        vote_cell = vote_cell;
        vote = vote;
        value = value;
        direction = direction;
        amount = amount;
        indices = indices;
        items = items;
        total = total;
        only = lone_cell (c.cells group_output) vote_cell one (ok_or-eq-ok _ _ e₂);
        proposal = (i, dep, listed, proposal_sound tag dep test);
        parsed = map_err-eq-ok _ _ e₃;
        value_read = map_err-eq-ok _ _ e₄;
        direction_read = unwrap-eq-ok _ e₅;
        yes_or_no = ground arith;
        owner = (
          j,
          from,
          listed',
          (bytes_eq_iff (P.script_slice from.lock) (P.script_slice vote_cell.lock)).0 test',
        );
        amount_read = a₁;
        amount_size = a₂;
        indices_read = a₃;
        items_read = a₄;
        backed = b;
        nonempty = n;
        positive = t;
        matches = m;
      }

  proposal_complete :
      (tag : Bytes) (cell : Cell) (t : Script)
      → cell.type_ ≡ some t
      → blake160 P (P.script_slice t) ≡ tag
      → is_proposal P tag cell ≡ true
  unfolding is_proposal
  proposal_complete tag cell t e q = rw (e, q) (bytes_eq_refl tag)

  check_creation_complete : (tag : Bytes) → IsVote tag → check_creation P c tag ≡ ok tt
  unfolding check_creation has_lock
  check_creation_complete tag v =
      let (i, dep, listed, at) = v.proposal in
      let (t, typed, tagged) = at in
      let (j, from, listed', owned) = v.owner in
      let p : any_cell (is_proposal P tag) (c.cells cell_dep) ≡ true =
        any_cell_complete (is_proposal P tag) (c.cells cell_dep) i dep listed
          (proposal_complete tag dep t typed tagged) in
      let q : any_cell (has_lock P v.vote_cell.lock) (c.cells input) ≡ true =
        any_cell_complete (has_lock P v.vote_cell.lock) (c.cells input) j from listed'
          ((bytes_eq_iff (P.script_slice from.lock) (P.script_slice v.vote_cell.lock)).1 owned) in
      let amounts : check_amount P c v.vote_cell.lock v.vote ≡ ok tt =
        check_amount_complete P c v.vote_cell.lock v.vote (
          v.amount, v.indices, v.items, v.total, v.amount_read, v.amount_size, v.indices_read,
          v.items_read, v.backed, v.nonempty, v.positive, v.matches,
        ) in
      let direction : (not (v.direction == 0) && not (v.direction == 1)) ≡ false = ground arith in
      rw (p, v.only, v.parsed, v.value_read, v.direction_read, direction, q) amounts

  run_complete :
      (script : Script)
      → c.load_script ≡ some script
      → length script.args ≡ 20
      → (length (c.cells group_output) ≡ 0) ⊎ IsVote (take 20 script.args)
      → run P c ≡ ok tt
  unfolding run
  run_complete script e n (inl none_created) = rw (e, n, none_created)
  run_complete script e n (inr v) =
      let one : length (c.cells group_output) ≡ 1 = ap length v.only in
      simp (e, n, one) (check_creation_complete (take 20 script.args) v)

  -- The script succeeds exactly if it was loaded with 20 bytes of arguments, and the transaction
  -- either creates no cell of the script's group (a vote cell is consumed), or creates exactly one,
  -- which is a valid vote: a proposal with this hash is among the cell deps, the vote is 0 or 1,
  -- an input has the vote cell's lock, the vote lists one cell dep at least, each entry of the list
  -- is the index of a DAO deposit under this lock, and the vote's amount is the sum, over the
  -- entries of the list, of the capacity of the deposit at the entry, which is not 0 and stops at
  -- the largest u64; a cell dep that is listed twice counts twice.
  pub run_iff : (run P c ≡ ok tt) ↔ (
      (script : Script) × (c.load_script ≡ some script)
      × (length script.args ≡ 20)
      × ((length (c.cells group_output) ≡ 0) ⊎ IsVote (take 20 script.args)))
  unfolding run
  run_iff = (
    λ h.
        let (script, e₁, h₁) = >>=-eq-ok (ok_or c.load_script args_invalid) _ h in
        let (e₂, h₂) = fail_if-eq-ok (not (length script.args == 20)) args_invalid _ h₁ in
        let outcome : (length (c.cells group_output) ≡ 0) ⊎ IsVote (take 20 script.args) =
          elim (Bool-cases (length (c.cells group_output) == 0)) [
            | inl none_created ↦ inl (ground arith)
            | inr created ↦
                let (e₃, h₃) =
                  fail_if-eq-ok (ltb 1 (length (c.cells group_output))) multiple_vote_outputs _
                    (rw created at h₂) in
                inr (check_creation_sound (take 20 script.args) (ground arith) h₃)
          ] in
        (script, ok_or-eq-ok _ _ e₁, ground arith, outcome),
    λ s. run_complete s.0 s.1 s.2 s.3,
  )
