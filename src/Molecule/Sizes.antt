-- ===== src/Molecule/Sizes.antt =====
-- The sizes of what is read, and of what was verified.
use ckb_vote_poc.Base.{
  ℕ, ◌+◌, ◌-◌, ◌*◌, ◌^◌, ◌≤◌, ◌<◌, ◌≡◌, ap, subst, inl, inr, Bool-cases, Bool, false, not, List,
  ◌&&◌, length, take, drop, length-take, length-drop, leb, ltb, ◌==◌, ok, >>=-eq-ok, fail_if-eq-ok,
  ok_inj, arith,
}
use ckb_vote_poc.Chain.{Bytes, Packages, NumberLaws, Verified}
use ckb_vote_poc.Molecule.{
  slice_range, read_number, item_count, check_total_size, table_offsets, verify_table, last_field,
}
use ckb_vote_poc.Molecule.ProposalWitness
use ckb_vote_poc.Molecule.PublicValues
use ckb_vote_poc.Molecule.GuestProgramArguments

length-slice_range :
    (slice part : Bytes) (start end : ℕ)
    → slice_range slice start end ≡ ok part
    → length part ≤ length slice
unfolding slice_range
length-slice_range slice part start end h =
    elim (Bool-cases (leb start end && leb end (length slice))) [
      | inl e ↦
          let same : take (end - start) (drop start slice) ≡ part = ok_inj (rw e at h) in
          omega (
            arith,
            ap length same,
            length-take (end - start) (drop start slice),
            length-drop start slice,
          )
      | inr e ↦ let p = rw e at h in cc p
    ]

module _ (P : Packages) (L : NumberLaws P) where
  pub length-last_field :
      (fields : ℕ) (slice part : Bytes)
      → last_field P fields slice ≡ ok part
      → length part ≤ length slice
  unfolding last_field
  length-last_field fields slice part h =
      let (start, e₁, h₁) = >>=-eq-ok (read_number P slice (4 * fields)) _ h in
      let (count, e₂, h₂) = >>=-eq-ok (item_count P slice) _ h₁ in
      elim (Bool-cases (not (fields == count))) [
        | inl more ↦
            let (end, e₃, h₃) =
              >>=-eq-ok (read_number P slice (4 * fields + 4)) _ (rw more at h₂) in
            length-slice_range slice part start end h₃
        | inr none_more ↦ length-slice_range slice part start (length slice) (rw none_more at h₂)
      ]

  read_number-bound : (slice : Bytes) (at n : ℕ) → read_number P slice at ≡ ok n → n < 2 ^ 32
  unfolding read_number
  read_number-bound slice at n h = elim (Bool-cases (leb (at + 4) (length slice))) [
    | inl e ↦ subst (λ m. m < 2 ^ 32) (ok_inj (rw e at h)) (L.unpack_bound (drop at slice))
    | inr e ↦ let p = rw e at h in cc p
  ]

  check_total_size-bound :
      (slice : Bytes) (n : ℕ) → check_total_size P slice ≡ ok n → length slice < 2 ^ 32
  unfolding check_total_size
  check_total_size-bound slice n h =
      let (e₁, h₁) = fail_if-eq-ok (ltb (length slice) 4) _ _ h in
      let (total, e₂, h₂) = >>=-eq-ok (read_number P slice 0) _ h₁ in
      let (e₃, h₃) = fail_if-eq-ok (not (length slice == total)) _ _ h₂ in
      let same : length slice ≡ total = ground arith in
      let bound = read_number-bound slice 0 total e₂ in omega arith

  pub verify_table-bound :
      (strict : Bool) (fields : List (Bytes → Verified)) (slice : Bytes)
      → verify_table P strict fields slice ≡ ok tt
      → length slice < 2 ^ 32
  unfolding verify_table table_offsets
  verify_table-bound strict fields slice h =
      let (offsets, e, h₁) = >>=-eq-ok (table_offsets P strict (length fields) slice) _ h in
      let (total, e₁, h₂) = >>=-eq-ok (check_total_size P slice) _ e in
      check_total_size-bound slice total e₁

  pub proposal_witness-bound :
      (raw witness : Bytes)
      → ProposalWitness.from_slice P raw ≡ ok witness
      → length witness < 2 ^ 32
  unfolding ProposalWitness.from_slice ProposalWitness.verify
  proposal_witness-bound raw witness h =
      let (u, e, h₁) = >>=-eq-ok (ProposalWitness.verify P raw false) _ h in
      subst (λ slice. length slice < 2 ^ 32) (ok_inj h₁) (verify_table-bound _ _ raw e)

  pub public_values-bound :
      (raw pv : Bytes) → PublicValues.from_slice P raw ≡ ok pv → (raw ≡ pv) × (length pv < 2 ^ 32)
  unfolding PublicValues.from_slice PublicValues.verify
  public_values-bound raw pv h =
      let (u, e, h₁) = >>=-eq-ok (PublicValues.verify P raw false) _ h in
      (ok_inj h₁, subst (λ slice. length slice < 2 ^ 32) (ok_inj h₁) (verify_table-bound _ _ raw e))

  pub guest_program_arguments-bound :
      (raw args : Bytes)
      → GuestProgramArguments.from_slice P raw ≡ ok args
      → (raw ≡ args) × (length args < 2 ^ 32)
  unfolding GuestProgramArguments.from_slice GuestProgramArguments.verify
  guest_program_arguments-bound raw args h =
      let (u, e, h₁) = >>=-eq-ok (GuestProgramArguments.verify P raw false) _ h in
      (ok_inj h₁, subst (λ slice. length slice < 2 ^ 32) (ok_inj h₁) (verify_table-bound _ _ raw e))
