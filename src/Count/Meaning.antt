-- ===== src/Count/Meaning.antt =====
-- The result of `count_vote`, told by the history of the blocks alone.
use mathlib.Core.List.{Permᴰ}
use mathlib.Core.List.Permᴰ
use ckb_vote_poc.Base.{
  ℕ, ◌+◌, ◌≡◌, refl, sym, ap, ap₂, ◌∙◌, subst, Bool-cases, inl, inr, true, none, some, List, [],
  ◌∷◌, length, take, min, ◌==◌, bytes_eq, bytes_eq_iff, bytes_eq_refl, if◌then◌else◌, ok, arith,
}
use ckb_vote_poc.Chain.{Bytes, Packages, Script, Block}
use ckb_vote_poc.Count.Dict.{
  Map, lookup, remove, lookup-remove, IsFresh, HasUniqueKeys, remove-HasUniqueKeys,
}
use ckb_vote_poc.Count.Read.{Terms, read_terms}
use ckb_vote_poc.Count.Find.{find_proposal}
use ckb_vote_poc.Count.History.{Event, standing, after, blocks_events}
use ckb_vote_poc.Count.Refine.{count_blocks-history}
use ckb_vote_poc.Count.Unique.{count_blocks-HasUniqueKeys}
use ckb_vote_poc.Count.Order.{tally-perm}
use ckb_vote_poc.Count.Tally.{yes_sum, no_sum, tally-sums}
use ckb_vote_poc.Count.{u64_max, tally, decide_passed, count_proposal, count_vote}

module _ {ℓ} {V : Type ℓ} where
  lookup-IsFresh : (k : List ℕ) (m : Map V) → IsFresh k m → lookup k m ≡ none
  unfolding lookup
  lookup-IsFresh k [] f = refl
  lookup-IsFresh k ((j, v) ∷ m) (e, f) = rw e (lookup-IsFresh k m f)

  remove-IsFresh : (k : List ℕ) (m : Map V) → IsFresh k m → remove k m ≡ m
  unfolding remove
  remove-IsFresh k [] f = refl
  remove-IsFresh k ((j, v) ∷ m) (e, f) = rw e (ap (λ r. (j, v) ∷ r) (remove-IsFresh k m f))

  -- An entry can be moved to the front.
  remove-perm :
      (k : List ℕ) (v : V) (m : Map V)
      → HasUniqueKeys m
      → lookup k m ≡ some v
      → Permᴰ m ((k, v) ∷ remove k m)
  unfolding lookup remove
  remove-perm k v [] u e = cc e
  remove-perm k v ((j, w) ∷ m) (f, u) e = elim (Bool-cases (bytes_eq j k)) [
    | inl same ↦
        let key : j ≡ k = (bytes_eq_iff j k).0 same in
        let value : w ≡ v = cc (rw same at e) in
        rw (same, remove-IsFresh k m (subst (λ i. IsFresh i m) key f))
          (Permᴰ.cons (ap₂ (λ a b. (a, b)) key value) (Permᴰ.refl m))
    | inr other ↦
        rw other (
          Permᴰ.trans (Permᴰ.cons refl (remove-perm k v m u (rw other at e)))
            (Permᴰ.swap refl refl))
  ]

  -- Two maps with the same answers have the same entries.
  lookup-perm :
      (l m : Map V)
      → HasUniqueKeys l
      → HasUniqueKeys m
      → ((k : List ℕ) → lookup k l ≡ lookup k m)
      → Permᴰ l m
  unfolding lookup
  lookup-perm [] [] u w e = Permᴰ.nil
  lookup-perm [] ((k, v) ∷ m) u w e =
      let p : none ≡ some v = e k ∙ rw (bytes_eq_refl k) refl in cc p
  lookup-perm ((k, v) ∷ l) m (f, u) w e =
      let here : lookup k m ≡ some v = sym (e k) ∙ rw (bytes_eq_refl k) refl in
      Permᴰ.trans
        (Permᴰ.cons refl (
          lookup-perm l (remove k m) u (remove-HasUniqueKeys k m w) λ j.
            elim (Bool-cases (bytes_eq k j)) [
              | inl same ↦
                  let key : k ≡ j = (bytes_eq_iff k j).0 same in
                  lookup-IsFresh j l (subst (λ i. IsFresh i l) key f)
                  ∙ sym (lookup-remove k j m ∙ rw same refl)
              | inr other ↦
                  let at : (if bytes_eq k j then some v else lookup j l) ≡ lookup j m = e j in
                  (rw other at at) ∙ sym (lookup-remove k j m ∙ rw other refl)
            ]))
        (Permᴰ.symm (remove-perm k v m w here))

module _ (P : Packages) where
  -- If the proposal is found and its terms are read, the window has duration + 1 blocks and the vote
  -- cells in them can be read, then `count_vote` returns a result, and its totals are those of any
  -- roll that lists every voter whose vote stands after the history of the blocks, once, with that
  -- vote: the sums of the YES amounts and of the other amounts, cut at the largest u64.
  pub count_vote-standing :
      (blocks : List Block) (script : Script) (proposal : Bytes) (terms : Terms)
      (events : List Event) (roll : Map (ℕ × ℕ))
      → find_proposal P blocks script ≡ ok (some proposal)
      → read_terms P proposal ≡ ok terms
      → length blocks ≡ terms.duration + 1
      → blocks_events P terms (take 20 (P.blake2b (P.script_slice script))) blocks ≡ ok events
      → HasUniqueKeys roll
      → ((voter : Bytes) → lookup voter roll ≡ standing voter (after events []))
      → count_vote P blocks script
        ≡ ok (record {
          proposal = proposal;
          yes_vote = min (yes_sum roll) u64_max;
          no_vote = min (no_sum roll) u64_max;
          passed =
              decide_passed
                (min (yes_sum roll) u64_max)
                (min (no_sum roll) u64_max)
                terms.minimal_req;
        })
  unfolding count_vote count_proposal
  count_vote-standing blocks script proposal terms events roll found read n told u lists =
      let tag = take 20 (P.blake2b (P.script_slice script)) in
      let (s, counted, votes, deposits) = count_blocks-history P terms tag blocks events told in
      let sized : (length blocks == terms.duration + 1) ≡ true = ground arith in
      let entries =
        lookup-perm s.votes roll (count_blocks-HasUniqueKeys P terms tag blocks s counted) u
          λ voter. votes voter ∙ sym (lists voter) in
      let totals : tally 0 0 s.votes ≡ (min (yes_sum roll) u64_max, min (no_sum roll) u64_max) =
        tally-perm s.votes roll ∣ entries ∣₁ ∙ tally-sums roll in
      rw (found, read, sized, counted, totals) refl
