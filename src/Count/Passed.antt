-- ===== src/Count/Passed.antt =====
-- What a result of `count_vote` means.
use ckb_vote_poc.Base.{
  ◌+◌, ◌*◌, ◌^◌, ◌%◌, ◌<◌, ◌↔◌, min, ℕ, ◌≡◌, refl, ap, subst, Bool, true, false, not, Option, none,
  some, List, length, take, arith, ◌==◌, if◌then◌else◌, Result, ok, ◌>>=◌, >>=-eq-ok, ok_inj,
}
use ckb_vote_poc.Chain.{Bytes, Packages, VerificationError, Script, Block}
use ckb_vote_poc.Molecule.Proposal
use ckb_vote_poc.Count.Read.{Terms, read_terms}
use ckb_vote_poc.Count.Find.{find_proposal}
use ckb_vote_poc.Count.{
  u64_max, State, init, VoteResult, tally, decide_passed, count_blocks, count_proposal, count_vote,
}

module _ (P : Packages) where
  -- What a passing result shows: the terms of the proposal, the state of the count, and what the
  -- totals exceed; `minimal_req` is in CKBytes, and its number of shannon wraps at 64 bits.
  pub record Carried (blocks : List Block) (script : Script) (r : VoteResult) : Type 0 where
    pub terms : Terms
    pub state : State
    pub found : find_proposal P blocks script ≡ ok (some r.proposal)
    pub read : read_terms P r.proposal ≡ ok terms
    pub window : length blocks ≡ terms.duration + 1
    pub counted :
        count_blocks P terms (take 20 (P.blake2b (P.script_slice script))) blocks init ≡ ok state
    pub totals : tally 0 0 state.votes ≡ (r.yes_vote, r.no_vote)
    pub majority : r.no_vote < r.yes_vote
    pub requirement : terms.minimal_req * 100000000 % 2 ^ 64 < min (r.yes_vote + r.no_vote) u64_max

  decision_iff :
      (yes_vote no_vote minimal_req : ℕ)
      → (decide_passed yes_vote no_vote minimal_req ≡ true) ↔ (
          (no_vote < yes_vote)
          × (minimal_req * 100000000 % 2 ^ 64 < min (yes_vote + no_vote) u64_max))
  unfolding decide_passed
  decision_iff yes_vote no_vote minimal_req = (λ h. (ground arith, ground arith), λ h. ground arith)

  abbrev result_of : Bytes → Terms → State → VoteResult
  result_of proposal terms s = record {
    proposal = proposal;
    yes_vote = (tally 0 0 s.votes).0;
    no_vote = (tally 0 0 s.votes).1;
    passed = decide_passed (tally 0 0 s.votes).0 (tally 0 0 s.votes).1 terms.minimal_req;
  }

  abbrev count_window : Bytes → Terms → List Block → Script → Result VerificationError VoteResult
  count_window proposal terms blocks script = do
    s ← count_blocks P terms (take 20 (P.blake2b (P.script_slice script))) blocks init
    ok (result_of proposal terms s)

  count_window_passed :
      (proposal : Bytes) (terms : Terms) (blocks : List Block) (script : Script) (r : VoteResult)
      → find_proposal P blocks script ≡ ok (some proposal)
      → read_terms P proposal ≡ ok terms
      → length blocks ≡ terms.duration + 1
      → count_window proposal terms blocks script ≡ ok r
      → r.passed ≡ true
      → Carried blocks script r
  count_window_passed proposal terms blocks script r f read same e =
      let (s, counted, e') = >>=-eq-ok (count_blocks P terms _ blocks init) _ e in
      subst (λ r. r.passed ≡ true → Carried blocks script r) (ok_inj e')
        λ passed. record {
          terms = terms;
          state = s;
          found = f;
          read = read;
          window = same;
          counted = counted;
          totals = refl;
          majority = ((decision_iff _ _ terms.minimal_req).0 passed).0;
          requirement = ((decision_iff _ _ terms.minimal_req).0 passed).1;
        }

  sized_passed :
      (sized : Bool) (proposal : Bytes) (terms : Terms) (blocks : List Block) (script : Script)
      (r : VoteResult)
      → (length blocks == terms.duration + 1) ≡ sized
      → find_proposal P blocks script ≡ ok (some proposal)
      → read_terms P proposal ≡ ok terms
      → (if not sized
          then ok (record { proposal = proposal; yes_vote = 0; no_vote = 0; passed = false })
          else count_window proposal terms blocks script)
        ≡ ok r
      → r.passed ≡ true
      → Carried blocks script r
  sized_passed true proposal terms blocks script r b f read e passed =
      count_window_passed proposal terms blocks script r f read (ground arith) e passed
  sized_passed false proposal terms blocks script r b f read e passed =
      let p : false ≡ r.passed = ap (λ r. r.passed) (ok_inj e) in cc (p, passed)

  found_passed :
      (found : Option Bytes) (blocks : List Block) (script : Script) (r : VoteResult)
      → find_proposal P blocks script ≡ ok found
      → elim found [
        | none ↦ ok (record {
          proposal = Proposal.default_value;
          yes_vote = 0;
          no_vote = 0;
          passed = false;
        })
        | some proposal ↦ count_proposal P proposal blocks script
      ]
        ≡ ok r
      → r.passed ≡ true
      → Carried blocks script r
  unfolding count_proposal
  found_passed none blocks script r f e passed =
      let p : false ≡ r.passed = ap (λ r. r.passed) (ok_inj e) in cc (p, passed)
  found_passed (some proposal) blocks script r f e passed =
      let (terms, read, e') = >>=-eq-ok (read_terms P proposal) _ e in
      sized_passed (length blocks == terms.duration + 1) proposal terms blocks script r refl f read
        e' passed

  pub count_vote_passed :
      (blocks : List Block) (script : Script) (r : VoteResult)
      → count_vote P blocks script ≡ ok r
      → r.passed ≡ true
      → Carried blocks script r
  unfolding count_vote
  count_vote_passed blocks script r e =
      let (found, f, e') = >>=-eq-ok (find_proposal P blocks script) _ e in
      found_passed found blocks script r f e'
