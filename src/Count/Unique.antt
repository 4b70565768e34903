-- ===== src/Count/Unique.antt =====
-- The keys of the map of votes.
use ckb_vote_poc.Base.{
  ℕ, ◌+◌, ◌≡◌, subst, Option, none, some, List, [], ◌∷◌, Result, ok, >>=-eq-ok, ok_inj,
}
use ckb_vote_poc.Chain.{
  Bytes, Packages, VerificationError, CellInput, CellOutput, CellDep, RawTransaction, Transaction,
  Block,
}
use ckb_vote_poc.Count.Dict.{
  HasUniqueKeys, lookup, remove, insert-HasUniqueKeys, remove-HasUniqueKeys,
}
use ckb_vote_poc.Count.Read.{Terms, Ballot}
use ckb_vote_poc.Count.{
  State, init, spend_inputs, record_vote, output_ballot, record_outputs, count_transaction,
  count_transactions, count_blocks,
}

abbrev IsUnique : State → Type 0
IsUnique s = HasUniqueKeys s.votes

abbrev KeepsUnique : (State → Result VerificationError State) → Type 0
KeepsUnique run = (s s' : State) → IsUnique s → run s ≡ ok s' → IsUnique s'

module _ (P : Packages) where
  spent :
      (op : Bytes) (s : State) (owner : Option Bytes)
      → IsUnique s
      → IsUnique (elim owner [
        | none ↦ s
        | some voter ↦ record { votes = remove voter s.votes; deposits = remove op s.deposits }
      ])
  spent op s none u = u
  spent op s (some voter) u = remove-HasUniqueKeys voter s.votes u

  spend_inputs-IsUnique :
      (inputs : List CellInput) (s : State) → IsUnique s → IsUnique (spend_inputs P inputs s)
  unfolding spend_inputs
  spend_inputs-IsUnique [] s u = u
  spend_inputs-IsUnique (input ∷ inputs) s u = spend_inputs-IsUnique inputs _ (
      spent (P.out_point_slice input.previous_output) s
        (lookup (P.out_point_slice input.previous_output) s.deposits) u)

  recorded :
      (cell_deps : List CellDep) (output : CellOutput) (vote : Option Ballot) (s : State)
      → IsUnique s
      → IsUnique (elim vote [ none ↦ s | some ballot ↦ record_vote P cell_deps output ballot s ])
  unfolding record_vote
  recorded cell_deps output none s u = u
  recorded cell_deps output (some ballot) s u = insert-HasUniqueKeys _ _ s.votes u

  record_outputs-IsUnique :
      (terms : Terms) (tag : Bytes) (raw : RawTransaction) (j : ℕ) (outputs : List CellOutput)
      → KeepsUnique (record_outputs P terms tag raw j outputs)
  unfolding record_outputs
  record_outputs-IsUnique terms tag raw j [] s s' u e = subst IsUnique (ok_inj e) u
  record_outputs-IsUnique terms tag raw j (output ∷ outputs) s s' u e =
      let (vote, read, e') = >>=-eq-ok (output_ballot P terms tag raw.outputs_data j output) _ e in
      record_outputs-IsUnique terms tag raw (j + 1) outputs _ s'
        (recorded raw.cell_deps output vote s u) e'

  count_transactions-IsUnique :
      (terms : Terms) (tag : Bytes) (txs : List Transaction)
      → KeepsUnique (count_transactions P terms tag txs)
  unfolding count_transactions count_transaction
  count_transactions-IsUnique terms tag [] s s' u e = subst IsUnique (ok_inj e) u
  count_transactions-IsUnique terms tag (tx ∷ txs) s s' u e =
      let (t, one, e') =
        >>=-eq-ok
          (record_outputs P terms tag tx.raw 0 tx.raw.outputs (spend_inputs P tx.raw.inputs s)) _
          e in
      count_transactions-IsUnique terms tag txs t s'
        (record_outputs-IsUnique terms tag tx.raw 0 tx.raw.outputs _ t
          (spend_inputs-IsUnique tx.raw.inputs s u) one)
        e'

  blocks-IsUnique :
      (terms : Terms) (tag : Bytes) (blocks : List Block)
      → KeepsUnique (count_blocks P terms tag blocks)
  unfolding count_blocks
  blocks-IsUnique terms tag [] s s' u e = subst IsUnique (ok_inj e) u
  blocks-IsUnique terms tag (block ∷ blocks) s s' u e =
      let (t, one, e') = >>=-eq-ok (count_transactions P terms tag block.transactions s) _ e in
      blocks-IsUnique terms tag blocks t s'
        (count_transactions-IsUnique terms tag block.transactions s t u one) e'

  -- After any blocks no voter has two entries in the map of votes, so none is counted twice.
  pub count_blocks-HasUniqueKeys :
      (terms : Terms) (tag : Bytes) (blocks : List Block) (s : State)
      → count_blocks P terms tag blocks init ≡ ok s
      → HasUniqueKeys s.votes
  count_blocks-HasUniqueKeys terms tag blocks s e = blocks-IsUnique terms tag blocks init s tt e
