-- ===== src/Integrity/Binding.antt =====
-- The hash of the last header, which the guest commits, and the headers before it, with the chain
-- check of crates/verification/src/lib.rs.
use mathlib.Core.Logic.{◌≢◌}
use native.Mathlib.Decide.{ℕ_discrete}
use ckb_vote_poc.Base.{
  ℕ, suc, ◌≡◌, refl, sym, ap, ap₂, ◌∙◌, ◌⊎◌, inl, inr, Option, none, some, List, [], ◌∷◌, map,
  length, get_elem?, arith, ok,
}
use ckb_vote_poc.Chain.{Bytes, Packages, HashLaws, HeaderLaws, Header, Block}
use ckb_vote_poc.Integrity.{header_hash, verify_block_integrity}
use ckb_vote_poc.Integrity.Laws.{LinkedAt, verify_block_integrity_iff}

Bytes-discrete : Discrete Bytes
Bytes-discrete = hlevel ℕ_discrete

module _ (P : Packages) where
  -- The hash of the last header, which the guest commits as `end_block_hash`.
  unfoldable pub last_hash : List Block → Option Bytes
  last_hash [] = none
  last_hash (block ∷ []) = some (header_hash P block.header)
  last_hash (block ∷ next ∷ blocks) = last_hash (next ∷ blocks)

  abbrev pub header_bytes : List Block → List Bytes
  header_bytes blocks = map (λ b. P.header_slice b.header) blocks

  -- At one place of the two sequences stand headers with different bytes, which have the same hash.
  abbrev pub HeaderCollision : List Block → List Block → Type 0
  HeaderCollision blocks blocks' =
      (i : ℕ) × (b : Block) × (b' : Block) × (get_elem? blocks i ≡ some b)
      × (get_elem? blocks' i ≡ some b')
      × (P.header_slice b.header ≢ P.header_slice b'.header)
      × (P.blake2b (P.header_slice b.header) ≡ P.blake2b (P.header_slice b'.header))

  header_bytes_bound :
      (b b' : Block) (bs bs' : List Block)
      → header_hash P b.header ≡ header_hash P b'.header
      → (P.header_slice b.header ≡ P.header_slice b'.header) ⊎ HeaderCollision (b ∷ bs) (b' ∷ bs')
  unfolding header_hash
  header_bytes_bound b b' bs bs' e =
      elim (Bytes-discrete (P.header_slice b.header) (P.header_slice b'.header)) [
        | yes p ↦ inl p
        | no p ↦ inr (0, b, b', refl, refl, p, e)
      ]

  header_hash_size : HashLaws P → (h : Header) → length (header_hash P h) ≡ 32
  unfolding header_hash
  header_hash_size H h = H.hash_size (P.header_slice h)

  headers_bound :
      HashLaws P
      → HeaderLaws P
      → (blocks blocks' : List Block) → length blocks ≡ length blocks'
      → ((i : ℕ) → LinkedAt P blocks i)
      → ((i : ℕ) → LinkedAt P blocks' i)
      → last_hash blocks ≡ last_hash blocks'
      → (header_bytes blocks ≡ header_bytes blocks') ⊎ HeaderCollision blocks blocks'
  unfolding last_hash
  headers_bound H L [] [] n l l' e = inl refl
  headers_bound H L [] (b' ∷ bs') n l l' e = absurd (omega arith)
  headers_bound H L (b ∷ bs) [] n l l' e = absurd (omega arith)
  headers_bound H L (b ∷ []) (b' ∷ []) n l l' e = elim (header_bytes_bound b b' [] [] (cc e)) [
    | inl p ↦ inl (ap (λ h. h ∷ []) p)
    | inr c ↦ inr c
  ]
  headers_bound H L (b ∷ []) (b' ∷ c' ∷ bs') n l l' e = absurd (omega arith)
  headers_bound H L (b ∷ c ∷ bs) (b' ∷ []) n l l' e = absurd (omega arith)
  headers_bound H L (b ∷ c ∷ bs) (b' ∷ c' ∷ bs') n l l' e =
      elim (headers_bound H L (c ∷ bs) (c' ∷ bs') (omega arith) (λ i. l (suc i)) (λ i. l' (suc i))
        e) [
          | inl same ↦
              let next : P.header_slice c.header ≡ P.header_slice c'.header = cc same in
              let link = l 0 b c refl refl in
              let link' = l' 0 b' c' refl refl in
              let hashes : header_hash P b.header ≡ header_hash P b'.header =
                link
                ∙ L.parent_hash_placed c.header c'.header
                    (ap length (sym link) ∙ header_hash_size H b.header)
                    (ap length (sym link') ∙ header_hash_size H b'.header) next
                ∙ sym link' in
              elim (header_bytes_bound b b' (c ∷ bs) (c' ∷ bs') hashes) [
                | inl p ↦ inl (ap₂ (λ h hs. h ∷ hs) p same)
                | inr x ↦ inr x
              ]
          | inr (i, d, d', p, p', q, r) ↦ inr (suc i, d, d', p, p', q, r)
        ]

  -- Where a hash has 32 bytes and a parent hash of 32 bytes has a fixed place in the bytes of its
  -- header, two sequences of the same number of blocks that `verify_block_integrity` accepts, with
  -- whatever witness roots, and whose last headers have the same hash, have headers with the same
  -- bytes, unless at one place the two sequences have headers with different bytes and the same
  -- hash.
  pub chain_bound :
      HashLaws P
      → HeaderLaws P
      → (blocks blocks' : List Block) (roots roots' : List Bytes)
      → verify_block_integrity P blocks roots ≡ ok tt
      → verify_block_integrity P blocks' roots' ≡ ok tt
      → length blocks ≡ length blocks'
      → last_hash blocks ≡ last_hash blocks'
      → (header_bytes blocks ≡ header_bytes blocks') ⊎ HeaderCollision blocks blocks'
  chain_bound H L blocks blocks' roots roots' v v' n e =
      headers_bound H L blocks blocks' n ((verify_block_integrity_iff P blocks roots).0 v).linked
        ((verify_block_integrity_iff P blocks' roots').0 v').linked e
