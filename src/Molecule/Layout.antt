-- ===== src/Molecule/Layout.antt =====
-- Where the parts of a table and their offsets stand in what its builder writes.
use mathlib.Core.List.{append_assoc}
use ckb_vote_poc.Base.{
  ℕ, ◌+◌, ◌-◌, ◌*◌, ◌^◌, ◌<◌, ◌≡◌, refl, sym, ap, ◌∙◌, true, List, [], ◌∷◌, ◌++◌, length,
  length-append, take, drop, leb, ◌&&◌, ok, arith,
}
use ckb_vote_poc.Chain.{Bytes, Packages, NumberLaws}
use ckb_vote_poc.Molecule.{slice_range, read_number, pack_offsets, concat, write_table}

drop-append : (pre post : Bytes) → drop (length pre) (pre ++ post) ≡ post
drop-append [] post = refl
drop-append (x ∷ pre) post = drop-append pre post

take-append : (pre post : Bytes) → take (length pre) (pre ++ post) ≡ pre
take-append [] post = refl
take-append (x ∷ pre) post = ap (λ l. x ∷ l) (take-append pre post)

pub slice_range-append :
    (pre mid post : Bytes) (start end : ℕ)
    → start ≡ length pre
    → end ≡ length pre + length mid
    → slice_range (pre ++ (mid ++ post)) start end ≡ ok mid
unfolding slice_range
slice_range-append pre mid post start end s e =
    let n : length (pre ++ (mid ++ post)) ≡ length pre + (length mid + length post) =
      omega (arith, length-append pre (mid ++ post), length-append mid post) in
    let inside : (leb start end && leb end (length (pre ++ (mid ++ post)))) ≡ true = ground arith in
    let width : end - start ≡ length mid = omega arith in
    rw inside (rw (width, s, drop-append pre (mid ++ post), take-append mid post))

concat-append : (xs ys : List Bytes) → concat (xs ++ ys) ≡ concat xs ++ concat ys
unfolding concat
concat-append [] ys = refl
concat-append (x ∷ xs) ys =
    ap (λ l. x ++ l) (concat-append xs ys) ∙ sym (append_assoc x (concat xs) (concat ys))

pub length-concat-append :
    (xs ys : List Bytes) → length (concat (xs ++ ys)) ≡ length (concat xs) + length (concat ys)
length-concat-append xs ys = ap length (concat-append xs ys) ∙ length-append (concat xs) (concat ys)

module _ (P : Packages) (L : NumberLaws P) where
  pub read_number-append :
      (pre post : Bytes) (at n : ℕ)
      → at ≡ length pre
      → n < 2 ^ 32
      → read_number P (pre ++ (P.pack_number n ++ post)) at ≡ ok n
  unfolding read_number
  read_number-append pre post at n a b =
      let size : length (pre ++ (P.pack_number n ++ post)) ≡ length pre + (4 + length post) =
        omega (
          arith,
          length-append pre (P.pack_number n ++ post),
          length-append (P.pack_number n) post,
          L.pack_length n,
        ) in
      let inside : leb (at + 4) (length (pre ++ (P.pack_number n ++ post))) ≡ true = ground arith in
      rw inside (rw (a, drop-append pre (P.pack_number n ++ post), L.unpack_pack n post b))

  pub length-pack_offsets :
      (start : ℕ) (parts : List Bytes) → length (pack_offsets P start parts) ≡ 4 * length parts
  unfolding pack_offsets
  length-pack_offsets start [] = omega arith
  length-pack_offsets start (part ∷ parts) = omega (
    arith,
    length-append (P.pack_number start) (pack_offsets P (start + length part) parts),
    L.pack_length start,
    length-pack_offsets (start + length part) parts,
  )

  pack_offsets-append :
      (start : ℕ) (front back : List Bytes)
      → pack_offsets P start (front ++ back)
        ≡ pack_offsets P start front ++ pack_offsets P (start + length (concat front)) back
  unfolding pack_offsets concat
  pack_offsets-append start [] back = ap (λ n. pack_offsets P n back) (omega arith)
  pack_offsets-append start (part ∷ front) back =
      let n : start + length part + length (concat front) ≡ start + length (part ++ concat front) =
        omega (arith, length-append part (concat front)) in
      ap (λ l. P.pack_number start ++ l)
        (pack_offsets-append (start + length part) front back
          ∙ ap (λ k. pack_offsets P (start + length part) front ++ pack_offsets P k back) n)
      ∙ sym (append_assoc (P.pack_number start) _ _)

  -- The size of a table's offsets, with the total size before them.
  abbrev pub header_size : List Bytes → ℕ
  header_size parts = 4 * (length parts + 1)

  pub length-write_table :
      (parts : List Bytes)
      → length (write_table P parts) ≡ header_size parts + length (concat parts)
  unfolding write_table
  length-write_table parts =
      let total = 4 * (length parts + 1) + length (concat parts) in
      omega (
        arith,
        length-append (P.pack_number total)
            (pack_offsets P (4 * (length parts + 1)) parts ++ concat parts),
        length-append (pack_offsets P (4 * (length parts + 1)) parts) (concat parts),
        L.pack_length total,
        length-pack_offsets (4 * (length parts + 1)) parts,
      )

  module _ (front : List Bytes) (part : Bytes) (rest : List Bytes) where
    abbrev pub table : Bytes
    table = write_table P (front ++ (part ∷ rest))

    abbrev pub head_size : ℕ
    head_size = header_size (front ++ (part ∷ rest))

    abbrev pub part_start : ℕ
    part_start = head_size + length (concat front)

    -- The table up to the offset of the part.
    abbrev before_offset : Bytes
    before_offset =
        P.pack_number (head_size + length (concat (front ++ (part ∷ rest))))
        ++ pack_offsets P head_size front

    abbrev after_offset : Bytes
    after_offset = pack_offsets P (part_start + length part) rest ++ concat (front ++ (part ∷ rest))

    length-before_offset : length before_offset ≡ 4 * (1 + length front)
    length-before_offset =
        let total = head_size + length (concat (front ++ (part ∷ rest))) in
        omega (
          arith,
          length-append (P.pack_number total) (pack_offsets P head_size front),
          L.pack_length total,
          length-pack_offsets head_size front,
        )

    table-offset : table ≡ before_offset ++ (P.pack_number part_start ++ after_offset)
    unfolding write_table pack_offsets
    table-offset =
        ap
          (λ offsets.
            P.pack_number (head_size + length (concat (front ++ (part ∷ rest))))
            ++ (offsets ++ concat (front ++ (part ∷ rest))))
          (pack_offsets-append head_size front (part ∷ rest))
        ∙ simp append_assoc

    -- The table up to the part.
    abbrev before_part : Bytes
    before_part =
        P.pack_number (head_size + length (concat (front ++ (part ∷ rest))))
        ++ (pack_offsets P head_size (front ++ (part ∷ rest)) ++ concat front)

    length-before_part : length before_part ≡ part_start
    length-before_part =
        let total = head_size + length (concat (front ++ (part ∷ rest))) in
        omega (
          arith,
          length-append (P.pack_number total)
              (pack_offsets P head_size (front ++ (part ∷ rest)) ++ concat front),
          length-append (pack_offsets P head_size (front ++ (part ∷ rest))) (concat front),
          L.pack_length total,
          length-pack_offsets head_size (front ++ (part ∷ rest)),
        )

    table-part : table ≡ before_part ++ (part ++ concat rest)
    unfolding write_table concat
    table-part = simp (append_assoc, concat-append front (part ∷ rest))

    pub part_start-bound : length table < 2 ^ 32 → part_start < 2 ^ 32
    part_start-bound h = omega (
      arith,
      length-write_table (front ++ (part ∷ rest)),
      length-concat-append front (part ∷ rest),
    )

    pub read_offset :
        (at : ℕ)
        → at ≡ 4 * (1 + length front)
        → length table < 2 ^ 32
        → read_number P table at ≡ ok part_start
    read_offset at a h =
        ap (λ slice. read_number P slice at) table-offset
        ∙ read_number-append before_offset after_offset at part_start (a ∙ sym length-before_offset)
            (part_start-bound h)

    pub slice_part :
        (start end : ℕ)
        → start ≡ part_start
        → end ≡ part_start + length part
        → slice_range table start end ≡ ok part
    slice_part start end s e =
        ap (λ slice. slice_range slice start end) table-part
        ∙ slice_range-append before_part part (concat rest) start end (s ∙ sym length-before_part)
            (e ∙ ap (λ n. n + length part) (sym length-before_part))
