-- ===== src/Count/Steps.antt =====
-- One event of a history, and the step of the maps that shows it.
use ckb_vote_poc.Base.{
  ℕ, ◌≡◌, refl, ap, ◌∙◌, none, some, List, [], ◌∷◌, inl, inr, Option-cases, get_elem?, bytes_eq,
  bytes_eq_iff, if◌then◌else◌, arith,
}
use ckb_vote_poc.Chain.{Bytes, Packages, CellInput, CellOutput, CellDep}
use ckb_vote_poc.Count.Dict
use ckb_vote_poc.Count.Dict.{Map, lookup, insert, lookup-insert, lookup-remove}
use ckb_vote_poc.Count.Read.{Ballot}
use ckb_vote_poc.Count.{State, spend_inputs, record_deposits, record_vote}
use ckb_vote_poc.Count.History.{
  Event, spend, contains, owner, standing, after, Agrees, spends, deposit_keys, cast_of,
}

module _ (P : Packages) where
  spend_step : Bytes → State → State
  spend_step op s = elim (lookup op s.deposits) [
    | none ↦ s
    | some voter ↦ record {
      votes = Dict.remove voter s.votes;
      deposits = Dict.remove op s.deposits;
    }
  ]

  Agrees-spend :
      (op : Bytes) (s : State) (h : List Event)
      → Agrees s h
      → Agrees (spend_step op s) (spend op ∷ h)
  unfolding spend_step standing owner
  Agrees-spend op s h a = record {
    votes = λ voter. elim (Option-cases (lookup op s.deposits)) [
      | inl e ↦ ground (arith, a.votes voter, a.deposits op)
      | inr (w, e) ↦ ground (arith, a.votes voter, a.deposits op, lookup-remove w voter s.votes)
    ];
    deposits = λ k. elim (Option-cases (lookup op s.deposits)) [
      | inl e ↦ ground (arith, a.deposits k, a.deposits op, bytes_eq_iff op k)
      | inr (w, e) ↦ ground (arith, a.deposits k, lookup-remove op k s.deposits)
    ];
  }

  lookup-record_deposits :
      (cell_deps : List CellDep) (voter : Bytes) (indices : List ℕ) (deposits : Map Bytes)
      (k : Bytes)
      → lookup k (record_deposits P cell_deps voter indices deposits)
        ≡ (if contains (deposit_keys P cell_deps indices) k then some voter else lookup k deposits)
  unfolding record_deposits contains deposit_keys
  lookup-record_deposits cell_deps voter [] deposits k = refl
  lookup-record_deposits cell_deps voter (idx ∷ rest) deposits k =
      elim (Option-cases (get_elem? cell_deps idx)) [
        | inl e ↦ ground (arith, lookup-record_deposits cell_deps voter rest deposits k)
        | inr (d, e) ↦
            let key = P.out_point_slice d.out_point in
            ground (
              arith,
              lookup-record_deposits cell_deps voter rest (insert key voter deposits) k,
              lookup-insert key k voter deposits,
            )
      ]

  pub Agrees-cast :
      (cell_deps : List CellDep) (output : CellOutput) (ballot : Ballot) (s : State)
      (h : List Event)
      → Agrees s h
      → Agrees (record_vote P cell_deps output ballot s) (cast_of P cell_deps output ballot ∷ h)
  unfolding record_vote cast_of standing owner
  Agrees-cast cell_deps output ballot s h a = record {
    votes = λ voter.
        lookup-insert _ voter _ s.votes
        ∙ ap
            (λ o.
              if bytes_eq (P.blake2b (P.script_slice output.lock)) voter
              then some (ballot.direction, ballot.amount)
              else o)
            (a.votes voter);
    deposits = λ k.
        lookup-record_deposits cell_deps _ ballot.dao_index s.deposits k
        ∙ ap
            (λ o.
              if contains (deposit_keys P cell_deps ballot.dao_index) k
              then some (P.blake2b (P.script_slice output.lock))
              else o)
            (a.deposits k);
  }

  pub Agrees-spend_inputs :
      (inputs : List CellInput) (s : State) (h : List Event)
      → Agrees s h
      → Agrees (spend_inputs P inputs s) (after (spends P inputs) h)
  unfolding spend_inputs spends after spend_step
  Agrees-spend_inputs [] s h a = a
  Agrees-spend_inputs (input ∷ inputs) s h a =
      let op = P.out_point_slice input.previous_output in
      Agrees-spend_inputs inputs (spend_step op s) (spend op ∷ h) (Agrees-spend op s h a)
