-- ===== src/Molecule/Compatible.antt =====
-- The compatible verification against the strict one.
use ckb_vote_poc.Base.{
  Bool, ◌&&◌, ◌-◌, ◌*◌, ◌/◌, ◌≡◌, refl, sym, ap, suc, true, false, ℕ, List, [], ◌∷◌, length, ltb,
  ok, >>=-eq-ok, fail_if-eq-ok,
}
use ckb_vote_poc.Chain.{Bytes, Packages, CompatibleLaws, Verified}
use ckb_vote_poc.Molecule.{
  slice_range, verify_fields, check_total_size, check_offset_first, table_offsets, verify_table,
}
use ckb_vote_poc.Molecule.Proposal
use ckb_vote_poc.Molecule.Vote
use ckb_vote_poc.Molecule.Uint16Vec

-- The second of the verifiers at each place accepts what the first does.
abbrev pub AreWeaker : List (Bytes → Verified) → List (Bytes → Verified) → Type 0
AreWeaker [] [] = Unit
AreWeaker (strict ∷ more) (weak ∷ rest) =
    ((slice : Bytes) → strict slice ≡ ok tt → weak slice ≡ ok tt) × AreWeaker more rest
AreWeaker _ _ = ⊥

AreWeaker-length :
    (strict weak : List (Bytes → Verified)) → AreWeaker strict weak → length strict ≡ length weak
AreWeaker-length [] [] w = refl
AreWeaker-length [] (v ∷ rest) w = elim w [ ]
AreWeaker-length (u ∷ more) [] w = elim w [ ]
AreWeaker-length (u ∷ more) (v ∷ rest) (here, w) = ap suc (AreWeaker-length more rest w)

verify_fields-AreWeaker :
    (strict weak : List (Bytes → Verified))
    → AreWeaker strict weak
    → (slice : Bytes) (offsets : List ℕ) → verify_fields strict slice offsets ≡ ok tt
    → verify_fields weak slice offsets ≡ ok tt
unfolding verify_fields
verify_fields-AreWeaker [] [] w slice offsets h = refl
verify_fields-AreWeaker [] (v ∷ rest) w slice offsets h = elim w [ ]
verify_fields-AreWeaker (u ∷ more) [] w slice offsets h = elim w [ ]
verify_fields-AreWeaker (u ∷ more) (v ∷ rest) w slice [] h = cc
verify_fields-AreWeaker (u ∷ more) (v ∷ rest) w slice (start ∷ []) h = cc
verify_fields-AreWeaker (u ∷ more) (v ∷ rest) (here, w) slice (start ∷ end ∷ offsets) h =
    let (field, e₁, h₁) = >>=-eq-ok (slice_range slice start end) _ h in
    let (done, e₂, h₂) = >>=-eq-ok (u field) _ h₁ in
    rw (e₁, here field e₂) (verify_fields-AreWeaker more rest w slice (end ∷ offsets) h₂)

module _ (P : Packages) where
  table_offsets-compatible :
      (strict : Bool) (fields : ℕ) (slice : Bytes) (offsets : List ℕ)
      → table_offsets P strict fields slice ≡ ok offsets
      → table_offsets P false fields slice ≡ ok offsets
  unfolding table_offsets
  table_offsets-compatible strict fields slice offsets h =
      let (total, e₁, h₁) = >>=-eq-ok (check_total_size P slice) _ h in
      let (e₂, h₂) = fail_if-eq-ok (ltb (length slice) (4 * 2)) _ _ h₁ in
      let (first, e₃, h₃) = >>=-eq-ok (check_offset_first P slice) _ h₂ in
      let (e₄, h₄) = fail_if-eq-ok (ltb (first / 4 - 1) fields) _ _ h₃ in
      let (e₅, h₅) = fail_if-eq-ok (strict && ltb fields (first / 4 - 1)) _ _ h₄ in
      rw (e₁, e₂, e₃, e₄) h₅

  pub verify_table-compatible :
      (strict : Bool) (fields weak : List (Bytes → Verified))
      → AreWeaker fields weak
      → (slice : Bytes) → verify_table P strict fields slice ≡ ok tt
      → verify_table P false weak slice ≡ ok tt
  unfolding verify_table
  verify_table-compatible strict fields weak w slice h =
      let (offsets, e, h₁) = >>=-eq-ok (table_offsets P strict (length fields) slice) _ h in
      rw
        (
          sym (AreWeaker-length fields weak w),
          table_offsets-compatible strict (length fields) slice offsets e,
        )
        (verify_fields-AreWeaker fields weak w slice offsets h₁)

  -- A Proposal that the strict verification accepts is accepted by the compatible one, if that holds of
  -- the verifiers of its fields.
  pub proposal_compatible :
      CompatibleLaws P
      → (slice : Bytes) → Proposal.verify P slice false ≡ ok tt
      → Proposal.verify P slice true ≡ ok tt
  unfolding Proposal.verify
  proposal_compatible C slice h =
      verify_table-compatible true _ _
        (
          C.uint32_compatible,
          (
            C.byte32_compatible,
            (
              C.byte_compatible,
              (
                C.bytes_compatible,
                (C.script_compatible, (C.uint64_compatible, (C.uint64_compatible, tt))),
              ),
            ),
          ),
        )
        slice h

  -- A Vote that the strict verification accepts is accepted by the compatible one, if that holds of the
  -- verifiers of its fields.
  pub vote_compatible :
      CompatibleLaws P
      → (slice : Bytes) → Vote.verify P slice false ≡ ok tt
      → Vote.verify P slice true ≡ ok tt
  unfolding Vote.verify Uint16Vec.verify
  vote_compatible C slice h =
      verify_table-compatible true _ _ (C.byte_compatible, (C.uint64_compatible, ((λ s e. e), tt)))
        slice h
