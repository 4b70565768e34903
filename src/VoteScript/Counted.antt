-- ===== src/VoteScript/Counted.antt =====
-- A vote cell that the vote type script let through, and how `count_vote` of
-- crates/verification/src/lib.rs reads it from a block.
use ckb_vote_poc.Base.{
  ℕ, ◌+◌, ◌≡◌, ◌<◌, ◌⊎◌, inl, inr, min, true, false, some, List, [], ◌∷◌, length, take, get_elem?,
  ok, >>=-eq-ok, refl, subst, sym, ap, ◌∙◌, ◌==◌, arith, Option,
}
use ckb_vote_poc.Chain.{Bytes, Packages, CompatibleLaws, Script, OutPoint, CellDep, CellOutput}
use ckb_vote_poc.Molecule.Vote
use ckb_vote_poc.Molecule.Compatible.{vote_compatible}
use ckb_vote_poc.Count.{u64_max, is_vote_script, output_ballot}
use ckb_vote_poc.Count.Read.{Terms, Ballot, from_le_bytes, little_endian, read_indices, read_ballot}
use ckb_vote_poc.Syscalls.{cell_dep, group_output, Cell, Context}
use ckb_vote_poc.VoteScript.{run}
use ckb_vote_poc.VoteScript.Deposits.{IsDeposit, Backed, none_left, deposit}
use ckb_vote_poc.VoteScript.Laws.{IsVote, run_iff}

module _ (P : Packages) (c : Context) where
  -- The script sees the cell deps of the transaction one by one, each as the cell at its out point:
  -- what CKB documents of a transaction without dep groups. `cell_of` is the chain's live cells.
  abbrev pub Resolves : (OutPoint → Option Cell) → List CellDep → Type 0
  Resolves cell_of cell_deps =
      (i : ℕ) (cell : Cell)
      → get_elem? (c.cells cell_dep) i ≡ some cell
      → (dep : CellDep) × (get_elem? cell_deps i ≡ some dep) × (cell_of dep.out_point ≡ some cell)

  module _ (cell_of : OutPoint → Option Cell) (cell_deps : List CellDep) where
    -- The transaction's cell dep at each entry of the list names a cell that is a DAO deposit under
    -- the lock, and `total` is the sum of the capacities over the entries.
    abbrev pub AreDeposits : Script → List ℕ → ℕ → Type 0
    AreDeposits lock [] total = total ≡ 0
    AreDeposits lock (idx ∷ indices) total =
        (capacity : ℕ) × (rest : ℕ) × (dep : CellDep) × (d : IsDeposit P c lock idx capacity)
        × (get_elem? cell_deps idx ≡ some dep)
        × (cell_of dep.out_point ≡ some d.cell)
        × AreDeposits lock indices rest
        × (total ≡ capacity + rest)

    Backed-AreDeposits :
        Resolves cell_of cell_deps
        → {lock : Script} {items : List Bytes} {total : ℕ} → Backed P c lock items total
        → (indices : List ℕ) × (read_indices items ≡ ok indices) × AreDeposits lock indices total
    unfolding read_indices
    Backed-AreDeposits resolves none_left = ([], refl, refl)
    Backed-AreDeposits resolves
          (deposit {idx = idx} {capacity = capacity} {total = rest} read d backed) =
        let (indices, e, more) = Backed-AreDeposits resolves backed in
        let (dep, at, live) = resolves idx d.cell d.listed in
        (idx ∷ indices, rw (read, e) refl, (capacity, rest, dep, d, at, live, more, refl))

    -- What is counted of a vote.
    pub record IsCounted (lock : Script) (cast : Option Ballot) : Type 0 where
      pub ballot : Ballot
      pub counted : cast ≡ some ballot
      pub yes_or_no : (ballot.direction ≡ 0) ⊎ (ballot.direction ≡ 1)
      pub total : ℕ
      pub deposits : AreDeposits lock ballot.dao_index total
      pub positive : 0 < total
      pub amount : ballot.amount ≡ min total u64_max

    vote_ballot :
        Resolves cell_of cell_deps
        → {tag : Bytes} (v : IsVote P c tag)
        → (ballot : Ballot) × (read_ballot P v.vote ≡ ok ballot)
          × IsCounted v.vote_cell.lock (some ballot)
    unfolding read_ballot from_le_bytes
    vote_ballot resolves v =
        let (indices, e, deposits) = Backed-AreDeposits resolves v.backed in
        let sized : (length v.amount == 8) ≡ true = let s = v.amount_size in ground arith in
        let ballot : Ballot = record {
          direction = v.direction;
          amount = little_endian v.amount;
          dao_index = indices;
        } in
        (
          ballot,
          rw (v.value_read, v.direction_read, v.amount_read, sized, v.indices_read, v.items_read, e)
              refl,
          record {
            ballot = ballot;
            counted = refl;
            yes_or_no = v.yes_or_no;
            total = v.total;
            deposits = deposits;
            positive = v.positive;
            amount = v.matches;
          },
        )

  vote_parses :
      CompatibleLaws P
      → {tag : Bytes} (v : IsVote P c tag)
      → Vote.from_compatible_slice P v.vote_cell.data_ ≡ ok v.vote
  unfolding Vote.from_slice Vote.from_compatible_slice
  vote_parses C v =
      let (done, e, h) = >>=-eq-ok (Vote.verify P v.vote_cell.data_ false) _ v.parsed in
      rw (vote_compatible P C v.vote_cell.data_ e) h

  -- If the compatible verification accepts what the strict one accepts, and the script saw each cell
  -- dep of the vote's transaction as the live cell at its out point, then counting agrees with the
  -- vote type script on a vote cell that the script let through: from an output of a block with this
  -- type script and the cell's data, if the proposal names the script, counting reads a YES or a NO;
  -- at each index that it reads, the cell dep of the transaction names a DAO deposit under the
  -- voter's lock; and the amount that it reads is the sum of their capacities over the entries of
  -- the list, not 0 and cut at the largest u64. An index that is listed twice counts twice.
  pub run-IsCounted :
      CompatibleLaws P
      → (cell_of : OutPoint → Option Cell) (cell_deps : List CellDep) → Resolves cell_of cell_deps
      → (script : Script) (vote_cell : Cell) → run P c ≡ ok tt
      → c.load_script ≡ some script
      → c.cells group_output ≡ vote_cell ∷ []
      → (terms : Terms) (outputs_data : List Bytes) (j : ℕ) (output : CellOutput)
      → output.type_ ≡ some script
      → is_vote_script P terms (take 20 script.args) script ≡ true
      → get_elem? outputs_data j ≡ some vote_cell.data_
      → (cast : Option Ballot) × (output_ballot P terms (take 20 script.args) outputs_data j output
          ≡ ok cast)
        × IsCounted cell_of cell_deps vote_cell.lock cast
  unfolding output_ballot
  run-IsCounted C cell_of cell_deps resolves script vote_cell h loaded only terms outputs_data j
        output typed named data_ =
      let (script', loaded', sized, outcome) = (run_iff P c).0 h in
      let same : script' ≡ script = cc (loaded, loaded') in
      elim outcome [
        | inl none_created ↦ absurd (omega (arith, ap length only))
        | inr v ↦
            let same_cell : v.vote_cell ≡ vote_cell = cc (only, v.only) in
            let (ballot, e, counted) = vote_ballot cell_of cell_deps resolves v in
            let parses : Vote.from_compatible_slice P vote_cell.data_ ≡ ok v.vote =
              ap (λ cell. Vote.from_compatible_slice P cell.data_) (sym same_cell)
              ∙ vote_parses C v in
            (
              some ballot,
              rw (typed, named, data_, parses, e) refl,
              subst (λ cell. IsCounted cell_of cell_deps cell.lock (some ballot)) same_cell counted,
            )
      ]
