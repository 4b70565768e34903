-- ===== src/Count/Refine.antt =====
-- `count_vote`'s maps against the history of the counted blocks.
use ckb_vote_poc.Base.{
  ℕ, ◌+◌, ◌≡◌, refl, Option, none, some, List, [], ◌∷◌, ◌++◌, Result, ok, ◌>>=◌, ok_inj, subst,
  >>=-eq-ok,
}
use ckb_vote_poc.Chain.{
  Bytes, Packages, VerificationError, CellOutput, RawTransaction, Transaction, Block,
}
use ckb_vote_poc.Count.Dict.{lookup}
use ckb_vote_poc.Count.Read.{Terms, Ballot}
use ckb_vote_poc.Count.{
  State, init, spend_inputs, record_vote, output_ballot, record_outputs, count_transaction,
  count_transactions, count_blocks,
}
use ckb_vote_poc.Count.History.{
  Event, owner, standing, after, after-append, Agrees, spends, cast_of, casts, transaction_events,
  transactions_events, blocks_events,
}
use ckb_vote_poc.Count.Steps.{Agrees-spend_inputs, Agrees-cast}

module _ (P : Packages) where
  -- What a run of the count does to an agreeing state, given the events of what it reads.
  abbrev Follows :
      (State → Result VerificationError State) → Result VerificationError (List Event) → Type 0
  Follows run events =
      (es : List Event)
      → events ≡ ok es
      → (s : State) (h : List Event) → Agrees s h
      → (s' : State) × (run s ≡ ok s') × Agrees s' (after es h)

  Follows-eq :
      {run : Result VerificationError State} {es fs : List Event} (h : List Event)
      → es ≡ fs
      → (s' : State) × (run ≡ ok s') × Agrees s' (after es h)
      → (s' : State) × (run ≡ ok s') × Agrees s' (after fs h)
  Follows-eq {run} h e t = subst (λ gs. (s' : State) × (run ≡ ok s') × Agrees s' (after gs h)) e t

  -- One output: its vote is recorded, and the rest follows from there.
  record_output_lem :
      (terms : Terms) (tag : Bytes) (raw : RawTransaction) (j : ℕ) (output : CellOutput)
      (outputs : List CellOutput) (vote : Option Ballot) (rest : List Event)
      → casts P terms tag raw (j + 1) outputs ≡ ok rest
      → Follows
          (record_outputs P terms tag raw (j + 1) outputs)
          (casts P terms tag raw (j + 1) outputs)
      → (s : State) (h : List Event) → Agrees s h
      → (s' : State) × (record_outputs P terms tag raw
            (j + 1)
            outputs
            (elim vote [ none ↦ s | some ballot ↦ record_vote P raw.cell_deps output ballot s ])
          ≡ ok s')
        × Agrees s' (
            after
              (elim vote [
                | none ↦ rest
                | some ballot ↦ cast_of P raw.cell_deps output ballot ∷ rest
              ])
              h)
  unfolding after
  record_output_lem terms tag raw j output outputs none rest e follows s h a = follows rest e s h a
  record_output_lem terms tag raw j output outputs (some ballot) rest e follows s h a =
      follows rest e (record_vote P raw.cell_deps output ballot s)
        (cast_of P raw.cell_deps output ballot ∷ h)
        (Agrees-cast P raw.cell_deps output ballot s h a)

  record_outputs_lem :
      (terms : Terms) (tag : Bytes) (raw : RawTransaction) (j : ℕ) (outputs : List CellOutput)
      → Follows (record_outputs P terms tag raw j outputs) (casts P terms tag raw j outputs)
  unfolding record_outputs casts
  record_outputs_lem terms tag raw j [] es e s h a =
      Follows-eq h (ok_inj e) (s, refl, unfold after in a)
  record_outputs_lem terms tag raw j (output ∷ outputs) es e s h a =
      let (vote, read, e') = >>=-eq-ok (output_ballot P terms tag raw.outputs_data j output) _ e in
      let (rest, later, e'') = >>=-eq-ok (casts P terms tag raw (j + 1) outputs) _ e' in
      Follows-eq
        {es = elim vote [
          | none ↦ rest
          | some ballot ↦ cast_of P raw.cell_deps output ballot ∷ rest
        ]}
        h (ok_inj e'')
        (rw read (
          record_output_lem terms tag raw j output outputs vote rest later
            (record_outputs_lem terms tag raw (j + 1) outputs) s h a))

  -- Two runs in a row, with the events of both.
  Follows-then :
      (run : State → Result VerificationError State)
      (events : Result VerificationError (List Event))
      (run' : State → Result VerificationError State)
      (events' : Result VerificationError (List Event))
      → Follows run events
      → Follows run' events'
      → Follows (λ s. run s >>= run') (events >>= λ es. events' >>= λ fs. ok (es ++ fs))
  Follows-then run events run' events' first second gs e s h a =
      let (es, p, e') = >>=-eq-ok events (λ es. events' >>= λ fs. ok (es ++ fs)) e in
      let (fs, q, e'') = >>=-eq-ok events' (λ fs. ok (es ++ fs)) e' in
      let (t, r, b) = first es p s h a in
      Follows-eq {es = es ++ fs} h (ok_inj e'')
        (rw (r, after-append es fs h) (second fs q t (after es h) b))

  count_transaction_lem :
      (terms : Terms) (tag : Bytes) (tx : Transaction)
      → Follows (count_transaction P terms tag tx) (transaction_events P terms tag tx)
  unfolding count_transaction transaction_events
  count_transaction_lem terms tag tx es e s h a =
      let (votes, p, e') =
        >>=-eq-ok (casts P terms tag tx.raw 0 tx.raw.outputs)
          (λ votes. ok (spends P tx.raw.inputs ++ votes)) e in
      Follows-eq {es = spends P tx.raw.inputs ++ votes} h (ok_inj e') (
        rw after-append (
          record_outputs_lem terms tag tx.raw 0 tx.raw.outputs votes p
            (spend_inputs P tx.raw.inputs s) (after (spends P tx.raw.inputs) h)
            (Agrees-spend_inputs P tx.raw.inputs s h a)))

  count_transactions_lem :
      (terms : Terms) (tag : Bytes) (txs : List Transaction)
      → Follows (count_transactions P terms tag txs) (transactions_events P terms tag txs)
  unfolding count_transactions transactions_events
  count_transactions_lem terms tag [] es e s h a =
      Follows-eq h (ok_inj e) (s, refl, unfold after in a)
  count_transactions_lem terms tag (tx ∷ txs) es e s h a =
      Follows-then (count_transaction P terms tag tx) (transaction_events P terms tag tx)
        (count_transactions P terms tag txs) (transactions_events P terms tag txs)
        (count_transaction_lem terms tag tx) (count_transactions_lem terms tag txs) es e s h a

  count_blocks_lem :
      (terms : Terms) (tag : Bytes) (blocks : List Block)
      → Follows (count_blocks P terms tag blocks) (blocks_events P terms tag blocks)
  unfolding count_blocks blocks_events
  count_blocks_lem terms tag [] es e s h a = Follows-eq h (ok_inj e) (s, refl, unfold after in a)
  count_blocks_lem terms tag (block ∷ blocks) es e s h a =
      Follows-then (count_transactions P terms tag block.transactions)
        (transactions_events P terms tag block.transactions) (count_blocks P terms tag blocks)
        (blocks_events P terms tag blocks) (count_transactions_lem terms tag block.transactions)
        (count_blocks_lem terms tag blocks) es e s h a

  -- Counting blocks whose vote cells can be read yields a state, and its maps hold exactly what the
  -- history of these blocks says: each voter has the newest vote, unless an out point that the voter
  -- owned when it was spent was spent since; each out point has the voter that named it last, unless
  -- it was spent since.
  pub count_blocks-history :
      (terms : Terms) (tag : Bytes) (blocks : List Block) (es : List Event)
      → blocks_events P terms tag blocks ≡ ok es
      → (s : State) × (count_blocks P terms tag blocks init ≡ ok s)
        × ((voter : Bytes) → lookup voter s.votes ≡ standing voter (after es []))
        × ((op : Bytes) → lookup op s.deposits ≡ owner op (after es []))
  count_blocks-history terms tag blocks es e =
      let (s, r, a) =
        count_blocks_lem terms tag blocks es e init []
          (unfold lookup standing owner in record { votes = λ v. refl; deposits = λ k. refl }) in
      (s, r, a.votes, a.deposits)
