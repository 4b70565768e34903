-- ===== src/Chain.antt =====
-- The chain data of crates/types/molecules/blockchain.mol that the program reads, and the packages
-- that the program only calls: their functions are the fields of a record that is a parameter.
use ckb_vote_poc.Base.{
  All, ok, NoPanic, [], ◌∷◌, ℕ, Bool, true, false, ◌<◌, ◌≤◌, ◌^◌, ◌≡◌, List, ◌++◌, Option, length,
  Result,
}

abbrev pub Bytes : Type 0
Bytes = List ℕ

pub record Script : Type 0 where
  pub code_hash : Bytes
  pub hash_type : Bytes
  pub args : Bytes

pub record OutPoint : Type 0 where
  pub tx_hash : Bytes
  pub index : ℕ

pub record CellInput : Type 0 where
  pub since : ℕ
  pub previous_output : OutPoint

pub record CellOutput : Type 0 where
  pub capacity : ℕ
  pub lock : Script
  pub type_ : Option Script

pub record CellDep : Type 0 where
  pub out_point : OutPoint
  pub dep_type : ℕ

pub record RawTransaction : Type 0 where
  pub version : ℕ
  pub cell_deps : List CellDep
  pub header_deps : List Bytes
  pub inputs : List CellInput
  pub outputs : List CellOutput
  pub outputs_data : List Bytes

pub record Transaction : Type 0 where
  pub raw : RawTransaction
  pub witnesses : List Bytes

pub record RawHeader : Type 0 where
  pub version : ℕ
  pub compact_target : ℕ
  pub timestamp : ℕ
  pub number : ℕ
  pub epoch : ℕ
  pub parent_hash : Bytes
  pub transactions_root : Bytes
  pub proposals_hash : Bytes
  pub extra_hash : Bytes
  pub dao : Bytes

pub record Header : Type 0 where
  pub raw : RawHeader
  pub nonce : ℕ

pub record Block : Type 0 where
  pub header : Header
  pub uncles : Bytes
  pub transactions : List Transaction
  pub proposals : Bytes

-- `molecule::error::VerificationError`, without the name of the reader that it carries.
pub data VerificationError : Type 0 where
  header_is_broken : ℕ → ℕ → VerificationError
  total_size_not_match : ℕ → ℕ → VerificationError
  field_count_not_match : ℕ → ℕ → VerificationError
  offsets_not_match : VerificationError

abbrev pub Verified : Type 0
Verified = Result VerificationError (Unit {0})

-- `Reader::verify(slice, compatible)`
abbrev pub Verify : Type 0
Verify = Bytes → Bool → Verified

-- The packages `molecule` (numbers of four bytes), `ckb_gen_types` (readers, and the encoding of the
-- chain data), and `blake2` with CKB's personalization.
pub record Packages : Type 0 where
  pub pack_number : ℕ → Bytes
  pub unpack_number : Bytes → ℕ
  pub verify_byte : Verify
  pub verify_uint32 : Verify
  pub verify_uint64 : Verify
  pub verify_byte32 : Verify
  pub verify_bytes : Verify
  pub verify_byte32_vec : Verify
  pub verify_script : Verify
  pub verify_block : Verify
  pub verify_proposal_short_ids : Verify
  pub script_slice : Script → Bytes
  pub out_point_slice : OutPoint → Bytes
  pub raw_transaction_slice : RawTransaction → Bytes
  pub transaction_slice : Transaction → Bytes
  pub header_slice : Header → Bytes
  pub read_script : Bytes → Script
  -- `none` if a reader that the program may call on the block would panic.
  pub read_block : Bytes → Option Block
  pub read_byte32_vec : Bytes → List Bytes
  pub bytes_raw_data : Bytes → Bytes
  pub build_bytes : Bytes → Bytes
  pub build_byte32_vec : List Bytes → Bytes
  pub block_slice : Block → Bytes
  pub default_script : Bytes
  pub default_bytes : Bytes
  pub default_byte : Bytes
  pub default_byte32 : Bytes
  pub default_byte32_vec : Bytes
  pub default_uint32 : Bytes
  pub default_uint64 : Bytes
  pub empty_script : Script
  pub empty_cell_output : CellOutput
  pub empty_raw_transaction : RawTransaction
  pub empty_transaction : Transaction
  pub blake2b : Bytes → Bytes

-- What the molecule format documents of its numbers.
pub record NumberLaws (P : Packages) : Type 0 where
  pub pack_length : (n : ℕ) → length (P.pack_number n) ≡ 4
  pub unpack_pack :
      (n : ℕ) (rest : Bytes) → n < 2 ^ 32 → P.unpack_number (P.pack_number n ++ rest) ≡ n
  pub unpack_bound : (slice : Bytes) → P.unpack_number slice < 2 ^ 32
  pub unpack_four :
      (a b c d : ℕ) (rest : Bytes)
      → P.unpack_number (a ∷ b ∷ c ∷ d ∷ rest) ≡ P.unpack_number (a ∷ b ∷ c ∷ d ∷ [])
  pub pack_unpack :
      (number : Bytes)
      → length number ≡ 4
      → All (λ byte. byte < 256) number
      → P.pack_number (P.unpack_number number) ≡ number

-- What the builders of `ckb_gen_types` document: the readers return what was built, and the bytes are
-- no longer than their encoding.
pub record BuilderLaws (P : Packages) : Type 0 where
  pub raw_data_of_built : (data_ : Bytes) → P.bytes_raw_data (P.build_bytes data_) ≡ data_
  pub built_size : (data_ : Bytes) → length data_ ≤ length (P.build_bytes data_)
  pub items_of_built : (items : List Bytes) → P.read_byte32_vec (P.build_byte32_vec items) ≡ items

-- What the verifiers of `ckb_gen_types` document: they return, and numbers have their sizes.
pub record VerifierLaws (P : Packages) : Type 0 where
  pub byte_returns : (slice : Bytes) (compatible : Bool) → NoPanic (P.verify_byte slice compatible)
  pub uint32_returns :
      (slice : Bytes) (compatible : Bool) → NoPanic (P.verify_uint32 slice compatible)
  pub uint64_returns :
      (slice : Bytes) (compatible : Bool) → NoPanic (P.verify_uint64 slice compatible)
  pub byte32_returns :
      (slice : Bytes) (compatible : Bool) → NoPanic (P.verify_byte32 slice compatible)
  pub bytes_returns :
      (slice : Bytes) (compatible : Bool) → NoPanic (P.verify_bytes slice compatible)
  pub byte32_vec_returns :
      (slice : Bytes) (compatible : Bool) → NoPanic (P.verify_byte32_vec slice compatible)
  pub script_returns :
      (slice : Bytes) (compatible : Bool) → NoPanic (P.verify_script slice compatible)
  pub block_returns :
      (slice : Bytes) (compatible : Bool) → NoPanic (P.verify_block slice compatible)
  pub proposal_short_ids_returns :
      (slice : Bytes) (compatible : Bool) → NoPanic (P.verify_proposal_short_ids slice compatible)
  pub byte_size :
      (slice : Bytes) (compatible : Bool)
      → P.verify_byte slice compatible ≡ ok tt
      → length slice ≡ 1
  pub uint32_size :
      (slice : Bytes) (compatible : Bool)
      → P.verify_uint32 slice compatible ≡ ok tt
      → length slice ≡ 4
  pub uint64_size :
      (slice : Bytes) (compatible : Bool)
      → P.verify_uint64 slice compatible ≡ ok tt
      → length slice ≡ 8

-- What the molecule schema documents of the two modes of verification: the compatible one accepts what
-- the strict one accepts.
pub record CompatibleLaws (P : Packages) : Type 0 where
  pub byte_compatible :
      (slice : Bytes) → P.verify_byte slice false ≡ ok tt → P.verify_byte slice true ≡ ok tt
  pub uint32_compatible :
      (slice : Bytes) → P.verify_uint32 slice false ≡ ok tt → P.verify_uint32 slice true ≡ ok tt
  pub uint64_compatible :
      (slice : Bytes) → P.verify_uint64 slice false ≡ ok tt → P.verify_uint64 slice true ≡ ok tt
  pub byte32_compatible :
      (slice : Bytes) → P.verify_byte32 slice false ≡ ok tt → P.verify_byte32 slice true ≡ ok tt
  pub bytes_compatible :
      (slice : Bytes) → P.verify_bytes slice false ≡ ok tt → P.verify_bytes slice true ≡ ok tt
  pub script_compatible :
      (slice : Bytes) → P.verify_script slice false ≡ ok tt → P.verify_script slice true ≡ ok tt

-- What the `blake2` package documents of the hash that the program asks for: 32 bytes.
pub record HashLaws (P : Packages) : Type 0 where
  pub hash_size : (data_ : Bytes) → length (P.blake2b data_) ≡ 32

-- What the molecule schema documents of a header: its parent hash, which is 32 bytes, stands at a
-- fixed place of its bytes.
pub record HeaderLaws (P : Packages) : Type 0 where
  pub parent_hash_placed :
      (h h' : Header)
      → length h.raw.parent_hash ≡ 32
      → length h'.raw.parent_hash ≡ 32
      → P.header_slice h ≡ P.header_slice h'
      → h.raw.parent_hash ≡ h'.raw.parent_hash
