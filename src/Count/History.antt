-- ===== src/Count/History.antt =====
-- The votes that stand after a history, told without the maps of `count_vote`: the history is a
-- list of events, the newest first.
use ckb_vote_poc.Base.{
  ℕ, ◌+◌, ◌≡◌, refl, Bool, false, ◌||◌, Option, none, some, List, [], ◌∷◌, ◌++◌, get_elem?,
  bytes_eq, if◌then◌else◌, Result, ok, ◌>>=◌,
}
use ckb_vote_poc.Chain.{
  Bytes, Packages, VerificationError, CellInput, CellOutput, CellDep, RawTransaction, Transaction,
  Block,
}
use ckb_vote_poc.Count.Dict.{lookup}
use ckb_vote_poc.Count.Read.{Terms, Ballot}
use ckb_vote_poc.Count.{State, output_ballot}

-- An input spends an out point; a vote cell casts a vote with the out points of its deposits.
pub data Event : Type 0 where
  spend : Bytes → Event
  cast : Bytes → ℕ → ℕ → List Bytes → Event

unfoldable pub contains : List Bytes → Bytes → Bool
contains [] k = false
contains (j ∷ js) k = bytes_eq j k || contains js k

-- The voter whose vote rests on an out point: of the newest vote that names it, if it was not
-- spent since.
unfoldable pub owner : Bytes → List Event → Option Bytes
owner op [] = none
owner op (spend o ∷ before) = if bytes_eq o op then none else owner op before
owner op (cast voter direction amount keys ∷ before) =
    if contains keys op then some voter else owner op before

-- The vote of a voter that stands: the newest one, unless an out point that the voter owned when it
-- was spent was spent since.
unfoldable pub standing : Bytes → List Event → Option (ℕ × ℕ)
standing voter [] = none
standing voter (spend o ∷ before) =
    let rest = standing voter before in
    elim (owner o before) [ none ↦ rest | some w ↦ if bytes_eq w voter then none else rest ]
standing voter (cast w direction amount keys ∷ before) =
    if bytes_eq w voter then some (direction, amount) else standing voter before

unfoldable pub after : List Event → List Event → List Event
after [] before = before
after (e ∷ es) before = after es (e ∷ before)

pub after-append :
    (es fs before : List Event) → after (es ++ fs) before ≡ after fs (after es before)
unfolding after
after-append [] fs before = refl
after-append (e ∷ es) fs before = after-append es fs (e ∷ before)

-- The maps show what the history says.
pub record Agrees (s : State) (h : List Event) : Type 0 where
  pub votes : (voter : Bytes) → lookup voter s.votes ≡ standing voter h
  pub deposits : (op : Bytes) → lookup op s.deposits ≡ owner op h

module _ (P : Packages) where
  unfoldable pub spends : List CellInput → List Event
  spends [] = []
  spends (input ∷ inputs) = spend (P.out_point_slice input.previous_output) ∷ spends inputs

  -- The out points of the cell deps that a vote names; an index out of range names none.
  unfoldable pub deposit_keys : List CellDep → List ℕ → List Bytes
  deposit_keys cell_deps [] = []
  deposit_keys cell_deps (idx ∷ rest) = elim (get_elem? cell_deps idx) [
    | none ↦ deposit_keys cell_deps rest
    | some cell_dep ↦ P.out_point_slice cell_dep.out_point ∷ deposit_keys cell_deps rest
  ]

  unfoldable pub cast_of : List CellDep → CellOutput → Ballot → Event
  cast_of cell_deps output ballot =
      cast (P.blake2b (P.script_slice output.lock)) ballot.direction ballot.amount
        (deposit_keys cell_deps ballot.dao_index)

  unfoldable pub casts :
      Terms → Bytes → RawTransaction → ℕ → List CellOutput → Result VerificationError (List Event)
  casts terms tag raw j [] = ok []
  casts terms tag raw j (output ∷ outputs) = do
    vote ← output_ballot P terms tag raw.outputs_data j output
    rest ← casts terms tag raw (j + 1) outputs
    ok (elim vote [ none ↦ rest | some ballot ↦ cast_of raw.cell_deps output ballot ∷ rest ])

  -- The events of a transaction: its inputs, then its vote cells.
  unfoldable pub transaction_events :
      Terms → Bytes → Transaction → Result VerificationError (List Event)
  transaction_events terms tag tx = do
    votes ← casts terms tag tx.raw 0 tx.raw.outputs
    ok (spends tx.raw.inputs ++ votes)

  unfoldable pub transactions_events :
      Terms → Bytes → List Transaction → Result VerificationError (List Event)
  transactions_events terms tag [] = ok []
  transactions_events terms tag (tx ∷ txs) = do
    first ← transaction_events terms tag tx
    rest ← transactions_events terms tag txs
    ok (first ++ rest)

  unfoldable pub blocks_events : Terms → Bytes → List Block → Result VerificationError (List Event)
  blocks_events terms tag [] = ok []
  blocks_events terms tag (block ∷ blocks) = do
    first ← transactions_events terms tag block.transactions
    rest ← blocks_events terms tag blocks
    ok (first ++ rest)
