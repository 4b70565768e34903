-- ===== src/Molecule/Chunks.antt =====
-- The numbers that `chunks_exact` yields against the numbers read at their places.
use ckb_vote_poc.Base.{
  ℕ, zero, suc, ◌*◌, ◌≤◌, ◌<◌, ◌≡◌, refl, sym, ap, some, [], ◌∷◌, length, take, drop, get_elem?,
  arith,
}
use ckb_vote_poc.Chain.{Bytes, Packages, NumberLaws}
use ckb_vote_poc.Molecule.{chunk_numbers}

-- `4 * chunks`, by recursion.
abbrev pub quads : ℕ → ℕ
quads zero = 0
quads (suc chunks) = suc (suc (suc (suc (quads chunks))))

pub quads_lem : (chunks : ℕ) → quads chunks ≡ 4 * chunks
quads_lem zero = omega arith
quads_lem (suc chunks) = omega (arith, quads_lem chunks)

module _ (P : Packages) where
  pub length-chunk_numbers :
      (chunks : ℕ) (slice : Bytes)
      → quads chunks ≤ length slice
      → length (chunk_numbers P (take (quads chunks) slice)) ≡ chunks
  unfolding chunk_numbers
  length-chunk_numbers zero slice h = refl
  length-chunk_numbers (suc n) [] h = absurd (omega arith)
  length-chunk_numbers (suc n) (a ∷ []) h = absurd (omega arith)
  length-chunk_numbers (suc n) (a ∷ b ∷ []) h = absurd (omega arith)
  length-chunk_numbers (suc n) (a ∷ b ∷ c ∷ []) h = absurd (omega arith)
  length-chunk_numbers (suc n) (a ∷ b ∷ c ∷ d ∷ slice) h =
      ap suc (length-chunk_numbers n slice (omega arith))

  pub get-chunk_numbers :
      NumberLaws P
      → (chunks k : ℕ) (slice : Bytes) → quads chunks ≤ length slice
      → k < chunks
      → get_elem? (chunk_numbers P (take (quads chunks) slice)) k
        ≡ some (P.unpack_number (drop (quads k) slice))
  unfolding chunk_numbers
  get-chunk_numbers L zero k slice h p = absurd (omega arith)
  get-chunk_numbers L (suc n) k [] h p = absurd (omega arith)
  get-chunk_numbers L (suc n) k (a ∷ []) h p = absurd (omega arith)
  get-chunk_numbers L (suc n) k (a ∷ b ∷ []) h p = absurd (omega arith)
  get-chunk_numbers L (suc n) k (a ∷ b ∷ c ∷ []) h p = absurd (omega arith)
  get-chunk_numbers L (suc n) zero (a ∷ b ∷ c ∷ d ∷ slice) h p =
      ap some (sym (L.unpack_four a b c d slice))
  get-chunk_numbers L (suc n) (suc k) (a ∷ b ∷ c ∷ d ∷ slice) h p =
      get-chunk_numbers L n k slice (omega arith) (omega arith)
