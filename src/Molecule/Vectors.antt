-- ===== src/Molecule/Vectors.antt =====
-- The readers of a vector of items of dynamic size against its builder.
use mathlib.Core.List.{append_assoc, append-nil}
use ckb_vote_poc.Base.{
  ◌+◌, ◌-◌, ◌*◌, ◌^◌, ◌<◌, ◌≡◌, refl, sym, ap, ap₂, subst, ◌∙◌, true, false, List, [], ◌∷◌, ◌++◌,
  length, length-append, ◌==◌, ok, arith,
}
use ckb_vote_poc.Chain.{Bytes, Packages, NumberLaws}
use ckb_vote_poc.Molecule.{
  read_number, item_count, inner_field, get_unchecked, collect, concat, write_table, write_dynvec,
}
use ckb_vote_poc.Molecule.BlockVec
use ckb_vote_poc.Molecule.Layout.{
  read_number-append, length-write_table, length-concat-append, part_start, read_offset, slice_part,
}
use ckb_vote_poc.Molecule.RoundTrip.{inner_field-write_table, item_count-write_table}

module _ (P : Packages) (L : NumberLaws P) where
  get_unchecked-write_table :
      (front : List Bytes) (item : Bytes) (back : List Bytes)
      → length (write_table P (front ++ (item ∷ back))) < 2 ^ 32
      → get_unchecked P (write_table P (front ++ (item ∷ back))) (length front) ≡ ok item
  unfolding get_unchecked
  get_unchecked-write_table front item [] h =
      let parts = front ++ (item ∷ []) in
      let start = part_start P L front item [] in
      let size : length parts ≡ length front + 1 = omega (arith, length-append front (item ∷ [])) in
      let count = item_count-write_table P L parts (omega arith) h in
      let last : (length front == length parts - 1) ≡ true = ground arith in
      rw (read_offset P L front item [] (4 * (1 + length front)) refl h, count, last)
        (slice_part P L front item [] start (length (write_table P parts)) refl (
          unfold concat in
          omega (
            arith,
            length-write_table P L parts,
            length-concat-append front (item ∷ []),
            length-append item [],
          )))
  get_unchecked-write_table front item (next ∷ back) h =
      let parts = front ++ (item ∷ next ∷ back) in
      let size : length parts ≡ length front + 2 + length back =
        omega (arith, length-append front (item ∷ next ∷ back)) in
      let count = item_count-write_table P L parts (omega arith) h in
      let inner : (length front == length parts - 1) ≡ false = ground arith in
      rw (count, inner)
        (unfold inner_field in
          inner_field-write_table P L front item next back (4 * (1 + length front)) refl h)

  collect-write_table :
      (front back : List Bytes)
      → length (write_table P (front ++ back)) < 2 ^ 32
      → collect (get_unchecked P (write_table P (front ++ back))) (length back) (length front)
        ≡ ok back
  unfolding collect
  collect-write_table front [] h = refl
  collect-write_table front (item ∷ back) h =
      let split : (front ++ (item ∷ [])) ++ back ≡ front ++ (item ∷ back) =
        append_assoc front (item ∷ []) back in
      let index : length (front ++ (item ∷ [])) ≡ length front + 1 =
        omega (arith, length-append front (item ∷ [])) in
      let rest =
        collect-write_table (front ++ (item ∷ [])) back
          (subst (λ parts. length (write_table P parts) < 2 ^ 32) (sym split) h) in
      let there : collect (get_unchecked P (write_table P (front ++ (item ∷ back)))) (length back)
            (length front + 1)
          ≡ ok back =
        ap₂ (λ parts at. collect (get_unchecked P (write_table P parts)) (length back) at)
          (sym split) (sym index)
        ∙ rest in
      rw (get_unchecked-write_table front item back h, there) refl

  -- If numbers follow the molecule format, iterating over a built block vector yields the blocks
  -- that it was built from, as long as its size fits the four bytes of a molecule number.
  pub BlockVec_iter-build :
      (blocks : List Bytes)
      → length (BlockVec.build P blocks) < 2 ^ 32
      → BlockVec.iter P (BlockVec.build P blocks) ≡ ok blocks
  unfolding BlockVec.iter BlockVec.len BlockVec.build write_dynvec collect
  BlockVec_iter-build [] h =
      let size : read_number P (P.pack_number 4) 0 ≡ ok 4 =
        ap (λ slice. read_number P slice 0) (sym (append-nil (P.pack_number 4)))
        ∙ read_number-append P L [] [] 0 4 refl (omega arith) in
      unfold item_count in rw size refl
  BlockVec_iter-build (block ∷ blocks) h =
      rw (item_count-write_table P L (block ∷ blocks) (omega arith) h)
        (collect-write_table [] (block ∷ blocks) h)
