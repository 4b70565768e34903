-- ===== src/VoteScript/Search.antt =====
-- A search through the cells that a query yields.
use ckb_vote_poc.Base.{
  ℕ, zero, suc, ◌≡◌, refl, inl, inr, Bool-cases, Bool, true, some, List, [], ◌∷◌, get_elem?, arith,
}
use ckb_vote_poc.Syscalls.{Cell}
use ckb_vote_poc.VoteScript.{any_cell}

-- Some cell of a list meets a test.
abbrev pub Found : (Cell → Type 0) → List Cell → Type 0
Found F cells = (i : ℕ) × (cell : Cell) × (get_elem? cells i ≡ some cell) × F cell

pub any_cell_sound :
    (test : Cell → Bool) (cells : List Cell)
    → any_cell test cells ≡ true
    → Found (λ cell. test cell ≡ true) cells
unfolding any_cell
any_cell_sound test [] h = cc
any_cell_sound test (cell ∷ cells) h = elim (Bool-cases (test cell)) [
  | inl e ↦ (0, cell, refl, e)
  | inr e ↦ let (i, found, p, q) = any_cell_sound test cells (ground arith) in (suc i, found, p, q)
]

pub any_cell_complete :
    (test : Cell → Bool) (cells : List Cell) (i : ℕ) (cell : Cell)
    → get_elem? cells i ≡ some cell
    → test cell ≡ true
    → any_cell test cells ≡ true
unfolding any_cell
any_cell_complete test [] i cell p q = cc
any_cell_complete test (x ∷ cells) zero cell p q =
    let same : x ≡ cell = cc p in let e : test x ≡ true = cc (same, q) in ground arith
any_cell_complete test (x ∷ cells) (suc i) cell p q =
    ground (arith, any_cell_complete test cells i cell p q)
