-- ===== src/Molecule/Canonical.antt =====
-- The tables that the strict verification accepts, against those that a builder writes.
use mathlib.Core.List.{append-nil}
use ckb_vote_poc.Base.{
  ℕ, zero, suc, ◌+◌, ◌-◌, ◌*◌, ◌/◌, ◌^◌, ◌≤◌, ◌<◌, ◌≡◌, refl, sym, ap, ap₂, subst, ◌∙◌, ◌↔◌, true,
  List, [], ◌∷◌, ◌++◌, length, length-append, length-take, length-drop, take, drop, ltb, some,
  get_elem?, ok, >>=-eq-ok, fail_if-eq-ok, ok_inj, arith,
}
use ckb_vote_poc.Chain.{Bytes, Packages, NumberLaws, Verified}
use ckb_vote_poc.Molecule.{
  slice_range, any_decrease, verify_fields, read_number, chunk_numbers, check_total_size,
  check_offset_first, read_offsets, table_offsets, verify_table, pack_offsets, concat, write_table,
}
use ckb_vote_poc.Molecule.Chunks.{quads, quads_lem, get-chunk_numbers}
use ckb_vote_poc.Molecule.Offsets.{
  slice_range-eq-ok, drop-drop, check_total_size-eq-ok, check_offset_first-eq-ok,
  read_number-inside,
}
use ckb_vote_poc.Molecule.Accepted.{Accepted, Accepted-length, verify_table-write_table}
use ckb_vote_poc.Molecule.Pieces.{
  IsBytes, take-append-drop, drop_all, take-IsBytes, drop-IsBytes, snoc_injective, starts_of,
  offsets_of-starts_of, verify_fields-parts,
}

module _ (P : Packages) (L : NumberLaws P) where
  abbrev pack_all : List ℕ → Bytes
  pack_all [] = []
  pack_all (n ∷ ns) = P.pack_number n ++ pack_all ns

  pack_offsets-starts_of :
      (start : ℕ) (parts : List Bytes)
      → pack_offsets P start parts ≡ pack_all (starts_of start parts)
  unfolding pack_offsets
  pack_offsets-starts_of start [] = refl
  pack_offsets-starts_of start (part ∷ parts) =
      ap (λ l. P.pack_number start ++ l) (pack_offsets-starts_of (start + length part) parts)

  pack_all-chunk_numbers :
      (chunks : ℕ) (area : Bytes)
      → length area ≡ quads chunks
      → IsBytes area
      → (pack_all (chunk_numbers P area) ≡ area) × (length (chunk_numbers P area) ≡ chunks)
  unfolding chunk_numbers
  pack_all-chunk_numbers zero [] n p = (refl, refl)
  pack_all-chunk_numbers zero (a ∷ area) n p = absurd (omega arith)
  pack_all-chunk_numbers (suc chunks) [] n p = absurd (omega arith)
  pack_all-chunk_numbers (suc chunks) (a ∷ []) n p = absurd (omega arith)
  pack_all-chunk_numbers (suc chunks) (a ∷ b ∷ []) n p = absurd (omega arith)
  pack_all-chunk_numbers (suc chunks) (a ∷ b ∷ c ∷ []) n p = absurd (omega arith)
  pack_all-chunk_numbers (suc chunks) (a ∷ b ∷ c ∷ d ∷ area) n (p, (q, (r, (s, ps)))) =
      let (same, many) = pack_all-chunk_numbers chunks area (omega arith) ps in
      let number = L.pack_unpack (a ∷ b ∷ c ∷ d ∷ []) refl (p, (q, (r, (s, tt)))) in
      (rw (number, same) refl, ap suc many)

  -- What the loop over the fields shows, if the offsets are those of the fields.
  record Cut (slice : Bytes) (fields : List (Bytes → Verified)) (numbers : List ℕ) (total : ℕ)
      : Type 0 where
    start : ℕ
    parts : List Bytes
    accepted : Accepted fields parts
    first : get_elem? numbers 0 ≡ some start
    starts : numbers ≡ starts_of start parts
    rest : drop start slice ≡ concat parts
    end : total ≡ start + length (concat parts)

  verify_fields-Cut :
      (fields : List (Bytes → Verified)) (slice : Bytes) (numbers : List ℕ) (total : ℕ)
      → 0 < length fields
      → length numbers ≡ length fields
      → length slice ≡ total
      → verify_fields fields slice (numbers ++ (total ∷ [])) ≡ ok tt
      → Cut slice fields numbers total
  verify_fields-Cut fields slice [] total p n size h = absurd (omega arith)
  verify_fields-Cut fields slice (start ∷ numbers) total p n size h =
      let (parts, accepted, ends, rest) =
        verify_fields-parts fields slice start (numbers ++ (total ∷ []))
          (omega (arith, length-append numbers (total ∷ []))) h in
      let (same, last) =
        snoc_injective (start ∷ numbers) (starts_of start parts) total
          (start + length (concat parts))
          (ap (λ l. start ∷ l) ends ∙ offsets_of-starts_of start parts) in
      record {
        start = start;
        parts = parts;
        accepted = accepted;
        first = refl;
        starts = same;
        rest =
            rest
            ∙ ap (λ k. concat parts ++ drop k slice) (sym last ∙ sym size)
            ∙ ap (λ l. concat parts ++ l) (drop_all slice)
            ∙ append-nil (concat parts);
        end = last;
      }

  unpack-take :
      (slice : Bytes) → 4 ≤ length slice → P.unpack_number (take 4 slice) ≡ P.unpack_number slice
  unpack-take (a ∷ b ∷ c ∷ d ∷ rest) h = sym (L.unpack_four a b c d rest)
  unpack-take [] h = absurd (omega arith)
  unpack-take (a ∷ []) h = absurd (omega arith)
  unpack-take (a ∷ b ∷ []) h = absurd (omega arith)
  unpack-take (a ∷ b ∷ c ∷ []) h = absurd (omega arith)

  -- A number that was read is the one that its bytes encode.
  pub pack-read_number :
      (slice : Bytes) (n : ℕ)
      → IsBytes slice
      → 4 ≤ length slice
      → read_number P slice 0 ≡ ok n
      → P.pack_number n ≡ take 4 slice
  pack-read_number slice n bytes h r =
      let same : P.unpack_number slice ≡ n = ok_inj (sym (read_number-inside P slice 0 h) ∙ r) in
      ap P.pack_number (sym (unpack-take slice h ∙ same))
      ∙ L.pack_unpack (take 4 slice) (omega (arith, length-take 4 slice))
          (take-IsBytes 4 slice bytes)

  -- The three pieces of a table.
  whole-write_table :
      (slice area : Bytes) (first total : ℕ) (parts : List Bytes)
      → P.pack_number total ≡ take 4 slice
      → area ≡ take (first - 4) (drop 4 slice)
      → area ≡ pack_offsets P first parts
      → drop first slice ≡ concat parts
      → 4 ≤ first
      → first ≡ 4 * (length parts + 1)
      → total ≡ first + length (concat parts)
      → slice ≡ write_table P parts
  unfolding write_table
  whole-write_table slice area first total parts number is_area packed rest after count end =
      sym (take-append-drop 4 slice)
      ∙ ap₂ (λ x y. x ++ y) (sym number)
          (sym (take-append-drop (first - 4) (drop 4 slice))
            ∙ ap₂ (λ x y. x ++ y) (sym is_area ∙ packed)
                (drop-drop (first - 4) 4 first slice (omega arith) ∙ rest))
      ∙ ap₂ (λ n k. P.pack_number n ++ (pack_offsets P k parts ++ concat parts))
          (end ∙ ap (λ k. k + length (concat parts)) count) count

  -- Parts that the verifiers of the fields accept, from which a builder writes the slice.
  pub record IsWritten (fields : List (Bytes → Verified)) (slice : Bytes) : Type 0 where
    pub parts : List Bytes
    pub some_part : 0 < length parts
    pub accepted : Accepted fields parts
    pub written : slice ≡ write_table P parts
    pub small : length slice < 2 ^ 32

  pub table_offsets-IsWritten :
      (fields : List (Bytes → Verified)) (slice area : Bytes) (first total : ℕ)
      → IsBytes slice
      → read_number P slice 0 ≡ ok total
      → length slice ≡ total
      → check_offset_first P slice ≡ ok first
      → first / 4 - 1 ≡ length fields
      → slice_range slice 4 first ≡ ok area
      → verify_fields fields slice (chunk_numbers P area ++ (total ∷ [])) ≡ ok tt
      → IsWritten fields slice
  table_offsets-IsWritten fields slice area first total bytes r₀ size f count e h =
      let (r₄, aligned, after, inside) = check_offset_first-eq-ok P slice first f in
      let (lo, hi, is_area) = slice_range-eq-ok slice area 4 first e in
      let width : first - 4 ≡ quads (length fields) = omega (arith, quads_lem (length fields)) in
      let area_size : length area ≡ quads (length fields) =
        omega
          (arith, ap length is_area, length-take (first - 4) (drop 4 slice), length-drop 4 slice) in
      let area_bytes =
        subst IsBytes (sym is_area)
          (take-IsBytes (first - 4) (drop 4 slice) (drop-IsBytes 4 slice bytes)) in
      let (packed, many) = pack_all-chunk_numbers (length fields) area area_size area_bytes in
      let c =
        verify_fields-Cut fields slice (chunk_numbers P area) total (omega arith) many size h in
      let same_area : area ≡ take (quads (length fields)) (drop 4 slice) =
        is_area ∙ ap (λ k. take k (drop 4 slice)) width in
      let head : get_elem? (chunk_numbers P area) 0 ≡ some first =
        ap (λ a. get_elem? (chunk_numbers P a) 0) same_area
        ∙ get-chunk_numbers P L (length fields) 0 (drop 4 slice)
            (omega (arith, length-drop 4 slice)) (omega arith)
        ∙ ap some (ok_inj (sym (read_number-inside P slice 4 (omega arith)) ∙ r₄)) in
      let start : c.start ≡ first = cc (c.first, head) in
      let parts_many = Accepted-length fields c.parts c.accepted in
      record {
        parts = c.parts;
        some_part = omega arith;
        accepted = c.accepted;
        written =
            whole-write_table slice area first total c.parts
              (pack-read_number slice total bytes (omega arith) r₀) is_area
              (sym packed
                ∙ ap pack_all (c.starts ∙ ap (λ s. starts_of s c.parts) start)
                ∙ sym (pack_offsets-starts_of first c.parts))
              (ap (λ s. drop s slice) (sym start) ∙ c.rest) (omega arith) (omega arith)
              (c.end ∙ ap (λ s. s + length (concat c.parts)) start);
        small =
            subst (λ n. n < 2 ^ 32)
              (ok_inj (sym (read_number-inside P slice 0 (omega arith)) ∙ r₀) ∙ sym size)
              (L.unpack_bound slice);
      }

  pub verify_table-IsWritten :
      (fields : List (Bytes → Verified)) (slice : Bytes)
      → IsBytes slice
      → verify_table P true fields slice ≡ ok tt
      → IsWritten fields slice
  unfolding verify_table table_offsets read_offsets
  verify_table-IsWritten fields slice bytes h =
      let (offsets, e, h₀) = >>=-eq-ok (table_offsets P true (length fields) slice) _ h in
      let (total, e₁, h₁) = >>=-eq-ok (check_total_size P slice) _ e in
      let (e₂, h₂) = fail_if-eq-ok (ltb (length slice) (4 * 2)) _ _ h₁ in
      let (first, e₃, h₃) = >>=-eq-ok (check_offset_first P slice) _ h₂ in
      let (e₄, h₄) = fail_if-eq-ok (ltb (first / 4 - 1) (length fields)) _ _ h₃ in
      let (e₅, h₅) = fail_if-eq-ok (ltb (length fields) (first / 4 - 1)) _ _ h₄ in
      let (r₀, size) = check_total_size-eq-ok P slice total e₁ in
      let (area, e₆, h₆) = >>=-eq-ok (slice_range slice 4 first) _ h₅ in
      let (sorted, h₇) =
        fail_if-eq-ok (any_decrease (chunk_numbers P area ++ (total ∷ []))) _ _ h₆ in
      table_offsets-IsWritten fields slice area first total bytes r₀ size e₃ (ground arith) e₆
        (subst (λ l. verify_fields fields slice l ≡ ok tt) (sym (ok_inj h₇)) h₀)

  -- If numbers follow the molecule format, the strict verification accepts exactly the tables that a
  -- builder writes from at least one part, with as many parts as fields, each of which the verifier of
  -- its field accepts, and with a size that fits the four bytes of a molecule number.
  pub verify_table-IsWritten_iff :
      (fields : List (Bytes → Verified)) (slice : Bytes)
      → IsBytes slice
      → (verify_table P true fields slice ≡ ok tt) ↔ IsWritten fields slice
  verify_table-IsWritten_iff fields slice bytes = (
    verify_table-IsWritten fields slice bytes,
    λ w.
        ap (verify_table P true fields) w.written
        ∙ verify_table-write_table P L true fields w.parts w.some_part w.accepted
            (subst (λ s. length s < 2 ^ 32) w.written w.small),
  )
