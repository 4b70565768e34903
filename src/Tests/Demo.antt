-- ===== src/Tests/Demo.antt =====
-- Stand-ins for the packages, and the scripts and cell data of the runs.
use ckb_vote_poc.Base.{
  All, ◌<◌, suc, ◌≡◌, refl, ap, ◌∙◌, ℕ, ◌%◌, ◌^◌, arith, ◌/◌, List, [], ◌∷◌, ◌++◌, take, drop, ok,
  zero, some, err, length, ◌==◌, NoPanic, if◌then◌else◌, none, Bool, NoPanic-if,
}
use ckb_vote_poc.Chain.{
  Bytes, Packages, NumberLaws, VerifierLaws, total_size_not_match, BuilderLaws, CompatibleLaws,
  Verify, Script, CellOutput, CellInput, CellDep, Transaction, Header, Block,
}
use ckb_vote_poc.Count.Read.{little_endian}
use ckb_vote_poc.Integrity.{zeros}
use ckb_vote_poc.Molecule.Proposal
use ckb_vote_poc.Molecule.Vote

abbrev pub accept : Verify
accept slice compatible = ok tt

-- The verifier of an item of `size` bytes.
abbrev pub sized : ℕ → Verify
sized size slice compatible =
    if length slice == size then ok tt else err (total_size_not_match size (length slice))

abbrev pub script_of : Bytes → Script
script_of slice = record {
  code_hash = take 1 slice;
  hash_type = take 1 (drop 1 slice);
  args = drop 2 slice;
}

abbrev pub header : ℕ → Bytes → Bytes → Header
header number parent_hash transactions_root = record {
  raw = record {
    version = 0;
    compact_target = 0;
    timestamp = 0;
    number = number;
    epoch = 0;
    parent_hash = parent_hash;
    transactions_root = transactions_root;
    proposals_hash = [];
    extra_hash = [];
    dao = [];
  };
  nonce = 0;
}

abbrev pub block : ℕ → Bytes → Bytes → List Transaction → Block
block number parent_hash transactions_root transactions = record {
  header = header number parent_hash transactions_root;
  uncles = [];
  transactions = transactions;
  proposals = [];
}

abbrev pub transaction :
    ℕ → List CellDep → List CellInput → List CellOutput → List Bytes → Transaction
transaction version cell_deps inputs outputs outputs_data = record {
  raw = record {
    version = version;
    cell_deps = cell_deps;
    header_deps = [];
    inputs = inputs;
    outputs = outputs;
    outputs_data = outputs_data;
  };
  witnesses = [];
}

-- Items, each byte shifted by one and a 0 after each item.
abbrev pub encode_item : Bytes → Bytes → Bytes
encode_item [] rest = 0 ∷ rest
encode_item (byte ∷ item) rest = suc byte ∷ encode_item item rest

abbrev pub encode_items : List Bytes → Bytes
encode_items [] = []
encode_items (item ∷ items) = encode_item item (encode_items items)

abbrev pub push_byte : ℕ → List Bytes → List Bytes
push_byte byte [] = (byte ∷ []) ∷ []
push_byte byte (item ∷ items) = (byte ∷ item) ∷ items

abbrev pub decode_items : Bytes → List Bytes
decode_items [] = []
decode_items (zero ∷ slice) = [] ∷ decode_items slice
decode_items (suc byte ∷ slice) = push_byte byte (decode_items slice)

decode-encode_item :
    (item : Bytes) (rest : Bytes) → decode_items (encode_item item rest) ≡ item ∷ decode_items rest
decode-encode_item [] rest = refl
decode-encode_item (byte ∷ item) rest = ap (push_byte byte) (decode-encode_item item rest)

decode-encode_items : (items : List Bytes) → decode_items (encode_items items) ≡ items
decode-encode_items [] = refl
decode-encode_items (item ∷ items) =
    decode-encode_item item (encode_items items) ∙ ap (λ l. item ∷ l) (decode-encode_items items)

abbrev pack_le : ℕ → Bytes
pack_le n = (n % 256) ∷ (n / 256 % 256) ∷ (n / 65536 % 256) ∷ (n / 16777216 % 256) ∷ []

-- Numbers are little-endian, the verifiers of numbers check the size and the
-- others accept, and every block that is read is the given one.
abbrev pub packages_with : (Bytes → Bytes) → Block → Packages
packages_with hash only_block = record {
  pack_number = pack_le;
  unpack_number = λ slice. little_endian (take 4 slice) % 2 ^ 32;
  verify_byte = sized 1;
  verify_uint32 = sized 4;
  verify_uint64 = sized 8;
  verify_byte32 = accept;
  verify_bytes = accept;
  verify_byte32_vec = accept;
  verify_script = accept;
  verify_block = accept;
  verify_proposal_short_ids = accept;
  script_slice = λ script. script.code_hash ++ script.hash_type ++ script.args;
  out_point_slice = λ out_point. out_point.index ∷ out_point.tx_hash;
  raw_transaction_slice = λ raw. raw.version ∷ [];
  transaction_slice = λ tx. tx.raw.version ∷ [];
  header_slice =
      λ header. header.raw.number ∷ (header.raw.parent_hash ++ header.raw.transactions_root);
  read_script = script_of;
  read_block = λ slice. some only_block;
  read_byte32_vec = decode_items;
  bytes_raw_data = λ slice. drop 4 slice;
  build_bytes = λ data_. 0 ∷ 0 ∷ 0 ∷ 0 ∷ data_;
  build_byte32_vec = encode_items;
  block_slice = λ block. [];
  default_script = [];
  default_bytes = 0 ∷ 0 ∷ 0 ∷ 0 ∷ [];
  default_byte = 0 ∷ [];
  default_byte32 = zeros 32;
  default_byte32_vec = 0 ∷ 0 ∷ 0 ∷ 0 ∷ [];
  default_uint32 = 0 ∷ 0 ∷ 0 ∷ 0 ∷ [];
  default_uint64 = 0 ∷ 0 ∷ 0 ∷ 0 ∷ 0 ∷ 0 ∷ 0 ∷ 0 ∷ [];
  empty_script = script_of [];
  empty_cell_output = record { capacity = 0; lock = script_of []; type_ = none };
  empty_raw_transaction = (transaction 0 [] [] [] []).raw;
  empty_transaction = transaction 0 [] [] [] [];
  blake2b = hash;
}

-- The hash is the identity.
abbrev pub packages_for : Block → Packages
packages_for = packages_with (λ data_. data_)

-- The hash is the first 32 bytes, with zeros where there are fewer.
abbrev pub packages_padded : Block → Packages
packages_padded = packages_with (λ data_. take 32 (data_ ++ zeros 32))

abbrev pub packages : Packages
packages = packages_for (block 0 [] [] [])

-- The proposal's script, the vote script for it, and a voter's lock.
abbrev pub proposal_script : Script
proposal_script = script_of (7 ∷ 1 ∷ 42 ∷ [])

abbrev pub vote_script : Script
vote_script = script_of (9 ∷ 1 ∷ 7 ∷ 1 ∷ 42 ∷ [])

abbrev pub voter_lock : Script
voter_lock = script_of (5 ∷ 1 ∷ 66 ∷ [])

abbrev pub no_shannon : Bytes
no_shannon = 0 ∷ 0 ∷ 0 ∷ 0 ∷ 0 ∷ 0 ∷ 0 ∷ 0 ∷ []

-- A proposal with a duration of one block and no requirement.
abbrev pub proposal_bytes : Bytes
proposal_bytes =
    Proposal.build packages (1 ∷ 0 ∷ 0 ∷ 0 ∷ []) (9 ∷ []) (1 ∷ []) [] [] no_shannon
      (0 ∷ 0 ∷ 0 ∷ 0 ∷ 0 ∷ 0 ∷ 0 ∷ 0 ∷ [])

-- A YES of 500 shannon, for the deposit at cell dep 0.
abbrev pub vote_bytes : Bytes
vote_bytes =
    Vote.build packages (1 ∷ []) (244 ∷ 1 ∷ 0 ∷ 0 ∷ 0 ∷ 0 ∷ 0 ∷ 0 ∷ []) (1 ∷ 0 ∷ 0 ∷ 0 ∷ 0 ∷ 0 ∷ [])

pack-little_endian :
    (number : Bytes)
    → length number ≡ 4
    → All (λ byte. byte < 256) number
    → pack_le (little_endian (take 4 number) % 2 ^ 32) ≡ number
pack-little_endian (a ∷ b ∷ c ∷ d ∷ []) four (p, (q, (r, (s, t)))) =
    let n = little_endian (a ∷ b ∷ c ∷ d ∷ []) % 2 ^ 32 in
    let e₀ : n % 256 ≡ a = omega arith in
    let e₁ : n / 256 % 256 ≡ b = omega arith in
    let e₂ : n / 65536 % 256 ≡ c = omega arith in
    let e₃ : n / 16777216 % 256 ≡ d = omega arith in rw (e₀, e₁, e₂, e₃) refl
pack-little_endian [] four p = absurd (omega arith)
pack-little_endian (a ∷ []) four p = absurd (omega arith)
pack-little_endian (a ∷ b ∷ []) four p = absurd (omega arith)
pack-little_endian (a ∷ b ∷ c ∷ []) four p = absurd (omega arith)
pack-little_endian (a ∷ b ∷ c ∷ d ∷ e ∷ number) four p = absurd (omega arith)

pub number_laws :
    {hash : Bytes → Bytes} (only_block : Block) → NumberLaws (packages_with hash only_block)
number_laws only_block = record {
  pack_length = λ n. refl;
  unpack_pack = λ n rest h. omega arith;
  unpack_bound = λ slice. omega arith;
  unpack_four = λ a b c d rest. refl;
  pack_unpack = pack-little_endian;
}

pub builder_laws :
    {hash : Bytes → Bytes} (only_block : Block) → BuilderLaws (packages_with hash only_block)
builder_laws only_block = record {
  raw_data_of_built = λ data_. refl;
  built_size = λ data_. omega arith;
  items_of_built = decode-encode_items;
}

accept-NoPanic : (slice : Bytes) (compatible : Bool) → NoPanic (accept slice compatible)
accept-NoPanic slice compatible = tt

sized-NoPanic :
    (size : ℕ) (slice : Bytes) (compatible : Bool) → NoPanic (sized size slice compatible)
sized-NoPanic size slice compatible =
    NoPanic-if (length slice == size) (ok tt) (err (total_size_not_match size (length slice)))
      (λ h. tt) (λ h. tt)

pub sized_size :
    (size : ℕ) (slice : Bytes) (compatible : Bool)
    → sized size slice compatible ≡ ok tt
    → length slice ≡ size
sized_size size slice compatible h = ground arith

pub verifier_laws :
    {hash : Bytes → Bytes} (only_block : Block) → VerifierLaws (packages_with hash only_block)
verifier_laws only_block = record {
  byte_returns = sized-NoPanic 1;
  uint32_returns = sized-NoPanic 4;
  uint64_returns = sized-NoPanic 8;
  byte32_returns = accept-NoPanic;
  bytes_returns = accept-NoPanic;
  byte32_vec_returns = accept-NoPanic;
  script_returns = accept-NoPanic;
  block_returns = accept-NoPanic;
  proposal_short_ids_returns = accept-NoPanic;
  byte_size = sized_size 1;
  uint32_size = sized_size 4;
  uint64_size = sized_size 8;
}

pub compatible_laws :
    {hash : Bytes → Bytes} (only_block : Block) → CompatibleLaws (packages_with hash only_block)
compatible_laws only_block = record {
  byte_compatible = λ slice h. h;
  uint32_compatible = λ slice h. h;
  uint64_compatible = λ slice h. h;
  byte32_compatible = λ slice h. h;
  bytes_compatible = λ slice h. h;
  script_compatible = λ slice h. h;
}
