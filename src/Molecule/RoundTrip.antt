-- ===== src/Molecule/RoundTrip.antt =====
-- The readers of a table against its builder.
use mathlib.Core.List.{append_assoc}
use ckb_vote_poc.Base.{
  ℕ, ◌+◌, ◌-◌, ◌*◌, ◌/◌, ◌^◌, ◌<◌, ◌≡◌, refl, sym, ap, subst, ◌∙◌, true, false, List, [], ◌∷◌, ◌++◌,
  length, length-append, ◌==◌, ok, arith,
}
use ckb_vote_poc.Chain.{Bytes, Packages, NumberLaws}
use ckb_vote_poc.Molecule.{
  pack_offsets, read_number, item_count, inner_field, last_field, concat, write_table,
}
use ckb_vote_poc.Molecule.Layout.{
  read_number-append, header_size, length-write_table, length-concat-append, table, part_start,
  read_offset, slice_part,
}

module _ (P : Packages) (L : NumberLaws P) where
  -- A field that is not the last, of a table with any fields before and after it.
  pub inner_field-write_table :
      (front : List Bytes) (part next : Bytes) (back : List Bytes) (at : ℕ)
      → at ≡ 4 * (1 + length front)
      → length (write_table P (front ++ (part ∷ next ∷ back))) < 2 ^ 32
      → inner_field P (write_table P (front ++ (part ∷ next ∷ back))) at ≡ ok part
  unfolding inner_field concat
  inner_field-write_table front part next back at a h =
      let start = part_start P L front part (next ∷ back) in
      let split : (front ++ (part ∷ [])) ++ (next ∷ back) ≡ front ++ (part ∷ next ∷ back) =
        append_assoc front (part ∷ []) (next ∷ back) in
      let whole : table P L (front ++ (part ∷ [])) next back ≡ table P L front part (next ∷ back) =
        ap (write_table P) split in
      let end : part_start P L (front ++ (part ∷ [])) next back ≡ start + length part =
        omega
          (arith, ap length split, length-concat-append front (part ∷ []), length-append part []) in
      let second : read_number P (table P L front part (next ∷ back)) (at + 4)
          ≡ ok (start + length part) =
        ap (λ slice. read_number P slice (at + 4)) (sym whole)
        ∙ read_offset P L (front ++ (part ∷ [])) next back (at + 4)
            (omega (arith, length-append front (part ∷ [])))
            (subst (λ slice. length slice < 2 ^ 32) (sym whole) h)
        ∙ ap ok end in
      rw (read_offset P L front part (next ∷ back) at a h, second)
        (slice_part P L front part (next ∷ back) start (start + length part) refl refl)

  pub item_count-write_table :
      (parts : List Bytes)
      → 0 < length parts
      → length (write_table P parts) < 2 ^ 32
      → item_count P (write_table P parts) ≡ ok (length parts)
  unfolding item_count concat
  item_count-write_table [] p h = absurd (omega arith)
  item_count-write_table (part ∷ rest) p h =
      let parts = part ∷ rest in
      let total = header_size P L parts + length (concat parts) in
      let first : read_number P (write_table P parts) 0 ≡ ok total =
        unfold write_table in
        read_number-append P L [] (pack_offsets P (header_size P L parts) parts ++ concat parts) 0
          total refl (omega (arith, length-write_table P L parts)) in
      let second : read_number P (write_table P parts) 4 ≡ ok (header_size P L parts) =
        read_offset P L [] part rest 4 refl h ∙ ap ok (omega arith) in
      let large : (total == 4) ≡ false = ground arith in
      let some_offset : (header_size P L parts / 4 == 0) ≡ false = ground arith in
      let count : header_size P L parts / 4 - 1 ≡ length parts = omega arith in
      rw (first, large, second, some_offset, count) refl

  -- The last field of a table.
  pub last_field-write_table :
      (front : List Bytes) (part : Bytes) (fields : ℕ)
      → fields ≡ length front + 1
      → length (write_table P (front ++ (part ∷ []))) < 2 ^ 32
      → last_field P fields (write_table P (front ++ (part ∷ []))) ≡ ok part
  unfolding last_field concat
  last_field-write_table front part fields n h =
      let parts = front ++ (part ∷ []) in
      let start = part_start P L front part [] in
      let size : length parts ≡ fields = omega (arith, length-append front (part ∷ [])) in
      let count : item_count P (write_table P parts) ≡ ok fields =
        item_count-write_table parts (omega arith) h ∙ ap ok size in
      let complete : (fields == fields) ≡ true = ground arith in
      rw (read_offset P L front part [] (4 * fields) (omega arith) h, count, complete)
        (slice_part P L front part [] start (length (write_table P parts)) refl (
          omega (
            arith,
            length-write_table P L parts,
            length-concat-append front (part ∷ []),
            length-append part [],
          )))
