-- ===== src/VoteScript/Safety.antt =====
-- The exit code of the vote type script.
use ckb_vote_poc.Base.{
  ℕ, ◌<◌, ◌≡◌, subst, ◌↔◌, true, false, not, ◌&&◌, ◌||◌, some, List, [], ◌∷◌, length, take,
  get_elem?, ltb, ◌==◌, bytes_eq, ok, ok_or, unwrap, map_err, >>=-eq-ok, ok_inj, ok_or-eq-ok,
  map_err-eq-ok, NoPanic, NoPanic-bind, NoPanic-fail_if, NoPanic-if, NoPanic-ok_or, NoPanic-map_err,
  All, arith,
}
use ckb_vote_poc.Chain.{Bytes, Packages, NumberLaws, VerifierLaws, Script}
use ckb_vote_poc.Molecule.Vote
use ckb_vote_poc.Molecule.Uint16Vec
use ckb_vote_poc.Molecule.Typed.{vote_parts, uint16_vec_items}
use ckb_vote_poc.Molecule.Safety.{vote-NoPanic}
use ckb_vote_poc.Count.Read.{from_le_bytes}
use ckb_vote_poc.Syscalls.{input, cell_dep, group_output, Cell, Context, load_cell}
use ckb_vote_poc.Syscalls.Exit.{unwrap_first, returned_NoPanic, returned_eq, exit_code_of}
use ckb_vote_poc.VoteScript.{
  Error, code, args_invalid, proposal_not_found, voter_lock_not_found, vote_data_invalid,
  dao_dep_invalid, amount_mismatch, multiple_vote_outputs, dao_code_hash, dao_hash_type, any_cell,
  le_bytes_or, is_proposal, has_lock, check_deposit, sum_deposits, check_amount, check_creation,
  run, program_entry,
}

-- The hash type of a script on chain is a byte.
abbrev pub HasHashTypes : Context → Type 0
HasHashTypes c =
    (i : ℕ) (cell : Cell) (type : Script)
    → get_elem? (c.cells cell_dep) i ≡ some cell
    → cell.type_ ≡ some type
    → length type.hash_type ≡ 1

from_le_bytes-NoPanic :
    (size : ℕ) (slice : Bytes) → length slice ≡ size → NoPanic (from_le_bytes size slice)
unfolding from_le_bytes
from_le_bytes-NoPanic size slice h = let e : (length slice == size) ≡ true = ground arith in rw e tt

le_bytes_or-NoPanic : (size : ℕ) (slice : Bytes) (e : Error) → NoPanic (le_bytes_or size slice e)
unfolding le_bytes_or
le_bytes_or-NoPanic size slice e = NoPanic-if (length slice == size) _ _ (λ p. tt) (λ p. tt)

module _ (P : Packages) (c : Context) (H : HasHashTypes c) where
  check_deposit-NoPanic : (lock : Script) (idx : ℕ) → NoPanic (check_deposit P c lock idx)
  unfolding check_deposit
  check_deposit-NoPanic lock idx =
      NoPanic-bind (ok_or (load_cell c idx cell_dep) dao_dep_invalid) _ (NoPanic-ok_or _ _)
        λ dep listed.
          NoPanic-bind (ok_or dep.type_ dao_dep_invalid) _ (NoPanic-ok_or _ _) λ type typed.
            NoPanic-fail_if (not (has_lock P lock dep)) _ _ λ e₁.
              NoPanic-fail_if (not (bytes_eq type.code_hash dao_code_hash)) _ _ λ e₂.
                NoPanic-bind (unwrap (get_elem? type.hash_type 0)) _
                  (unwrap_first Error type.hash_type
                    (H idx dep type (ok_or-eq-ok _ _ listed) (ok_or-eq-ok _ _ typed)))
                  λ hash_type e₃.
                    NoPanic-fail_if (not (hash_type == dao_hash_type)) _ _
                      λ e₄. NoPanic-fail_if (not (length type.args == 0)) _ _ λ e₅. tt

  sum_deposits-NoPanic :
      (lock : Script) (items : List Bytes) (n t : ℕ)
      → All (λ item. length item ≡ 2) items
      → NoPanic (sum_deposits P c lock items n t)
  unfolding sum_deposits
  sum_deposits-NoPanic lock [] n t p = tt
  sum_deposits-NoPanic lock (item ∷ items) n t (p, ps) =
      NoPanic-bind (map_err (from_le_bytes 2 item) vote_data_invalid) _
        (NoPanic-map_err _ _ (from_le_bytes-NoPanic 2 item p))
        λ idx e.
          NoPanic-bind (check_deposit P c lock idx) _ (check_deposit-NoPanic lock idx)
            λ cap e'. sum_deposits-NoPanic lock items _ _ ps

  module _ (L : NumberLaws P) (V : VerifierLaws P) where
    check_amount-NoPanic :
        (lock : Script) (vote : Bytes)
        → Vote.verify P vote false ≡ ok tt
        → NoPanic (check_amount P c lock vote)
    unfolding check_amount
    check_amount-NoPanic lock vote h =
        let (value, shannon, indices) = vote_parts P L vote false h in
        NoPanic-bind (map_err (Vote.amount P vote) vote_data_invalid) _
          (returned_NoPanic _ _ shannon)
          λ amount e₁.
            NoPanic-bind (le_bytes_or 8 amount vote_data_invalid) _ (le_bytes_or-NoPanic 8 amount _)
              λ expected e₂.
                NoPanic-bind (map_err (Vote.dao_index P vote) vote_data_invalid) _
                  (returned_NoPanic _ _ indices)
                  λ list e₃.
                    let items = uint16_vec_items P L list false (returned_eq _ _ list indices e₃) in
                    NoPanic-bind (map_err (Uint16Vec.iter P list) vote_data_invalid) _
                      (let (a, r, p) = items in rw r tt)
                      λ read e₄.
                        NoPanic-bind (sum_deposits P c lock read 0 0) _
                          (sum_deposits-NoPanic lock read 0 0 (returned_eq _ _ read items e₄))
                          λ counts e₅.
                            NoPanic-fail_if (counts.0 == 0 || counts.1 == 0) _ _
                              λ e₆. NoPanic-fail_if (not (counts.1 == expected)) _ _ λ e₇. tt

    parsed_vote :
        (cell vote : Bytes) → Vote.from_slice P cell ≡ ok vote → Vote.verify P vote false ≡ ok tt
    unfolding Vote.from_slice
    parsed_vote cell vote h =
        let (u, e, h₁) = >>=-eq-ok (Vote.verify P cell false) _ h in
        subst (λ slice. Vote.verify P slice false ≡ ok tt) (ok_inj h₁) e

    from_slice-NoPanic : (cell : Bytes) → NoPanic (Vote.from_slice P cell)
    unfolding Vote.from_slice
    from_slice-NoPanic cell =
        NoPanic-bind (Vote.verify P cell false) _ (vote-NoPanic P L V false cell) λ u e. tt

    check_creation-NoPanic : (tag : Bytes) → NoPanic (check_creation P c tag)
    unfolding check_creation
    check_creation-NoPanic tag =
        NoPanic-fail_if (not (any_cell (is_proposal P tag) (c.cells cell_dep))) _ _ λ e₁.
          NoPanic-bind (ok_or (load_cell c 0 group_output) args_invalid) _ (NoPanic-ok_or _ _)
            λ cell e₂.
              NoPanic-bind (map_err (Vote.from_slice P cell.data_) vote_data_invalid) _
                (NoPanic-map_err _ _ (from_slice-NoPanic cell.data_))
                λ vote e₃.
                  let verified = parsed_vote cell.data_ vote (map_err-eq-ok _ _ e₃) in
                  let (value, shannon, indices) = vote_parts P L vote false verified in
                  NoPanic-bind (map_err (Vote.vote P vote) vote_data_invalid) _
                    (returned_NoPanic _ _ value)
                    λ bytes e₄.
                      NoPanic-bind (unwrap (get_elem? bytes 0)) _
                        (unwrap_first Error bytes
                          (V.byte_size bytes false (returned_eq _ _ bytes value e₄)))
                        λ direction e₅.
                          NoPanic-fail_if (not (direction == 0) && not (direction == 1)) _ _ λ e₆.
                            NoPanic-fail_if (not (any_cell (has_lock P cell.lock) (c.cells input)))
                              _ _ λ e₇. check_amount-NoPanic cell.lock vote verified

    -- The vote type script never panics.
    pub run-NoPanic : NoPanic (run P c)
    unfolding run
    run-NoPanic = NoPanic-bind (ok_or c.load_script args_invalid) _ (NoPanic-ok_or _ _) λ script e₁.
        NoPanic-fail_if (not (length script.args == 20)) _ _ λ e₂.
          NoPanic-if (length (c.cells group_output) == 0) _ _ (λ e₃. tt)
            λ e₃.
              NoPanic-fail_if (ltb 1 (length (c.cells group_output))) _ _
                λ e₄. check_creation-NoPanic (take 20 script.args)

code-positive : (e : Error) → 0 < code e
unfolding code
code-positive args_invalid = omega arith
code-positive proposal_not_found = omega arith
code-positive voter_lock_not_found = omega arith
code-positive vote_data_invalid = omega arith
code-positive dao_dep_invalid = omega arith
code-positive amount_mismatch = omega arith
code-positive multiple_vote_outputs = omega arith

-- On a transaction whose cell deps have scripts with a hash type of one byte, if the packages' verifiers
-- return and numbers follow the molecule format, the vote type script ends with an exit code, which is 0 exactly when
-- `run` succeeds.
pub vote_exit_code :
    (P : Packages) (c : Context)
    → HasHashTypes c
    → NumberLaws P
    → VerifierLaws P
    → (n : ℕ) × (program_entry P c ≡ some n) × ((n ≡ 0) ↔ (run P c ≡ ok tt))
unfolding program_entry
vote_exit_code P c H L V = exit_code_of code (run P c) code-positive (run-NoPanic P c H L V)
