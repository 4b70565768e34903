-- ===== src/Lib.antt =====
-- CKB votes: holders of Nervos DAO deposits vote on a proposal, and a proof made off chain lets the
-- proposal's cell be consumed when the vote passed.
--
-- The parts. A proposal cell is guarded by the proposal type script, a vote cell by the vote type
-- script. After the voting window a guest program runs in a zero-knowledge virtual machine: it
-- checks that the blocks of the window are linked and hold their transactions
-- (verify_block_integrity), counts the votes in them (count_vote), and commits the result as public
-- values. The proposal type script accepts a proof of such a run, with public values that fit the
-- cell, the header deps and the script. Data is exchanged in the molecule format.
--
-- The files, with the code that each models:
--   Base       byte strings, lists, and `Result`: a value, an error, or a panic
--   Chain      the tables of crates/types/molecules/blockchain.mol, and the packages as parameters
--   Syscalls   what the contracts read through ckb_std
--   Molecule   the readers, verifiers and builders of crates/types/src/molecules/types.rs: what the
--              code repeats for each type once, and a module for each type (Vote, Proposal,
--              PublicValues, ProposalWitness, GuestProgramArguments, BlockVec, Uint16, Uint16Vec),
--              with its builder in a child Builder; Iteration is the iterator of the vectors; Shallow
--              is verify_block_vec and its helpers in crates/types/src/molecules/mod.rs; Layout,
--              RoundTrip, Fields, Vectors and Accepted are about what the builders write, Chunks,
--              Offsets, Access, Typed, Blocks, Sizes, Compatible and Schema about what was verified,
--              Pieces, Canonical, CanonicalVec, Rebuild and Lengths about both, NoPanic and Safety about
--              verifying
--   Merkle     merkle_root of crates/verification/src/lib.rs, for any type of nodes
--   Integrity  the hashes and verify_block_integrity of the same file
--   Count      find_proposal and count_vote of the same file: Dict the maps, Read the fields, Find
--              the proposal; History the specification, as a list of events; Ballots is about vote
--              cells that were written with to_le_bytes, Meaning and Total about count_vote as a whole
--   VoteScript, ProposalScript
--              run and program_entry of contracts/vote-type-script/src/main.rs and of
--              contracts/proposal-type-script/src/main.rs; VoteScript/Counted is about its votes in
--              count_vote, VoteScript/Repeated about a deposit that is listed several times
--   Guest      main of sp1/ckb-vote-verification/program/src/main.rs
--   Prepare    prepare_guest_program_arguments of crates/verification/src/lib.rs
--   TestTool   crates/testtool/src/lib.rs, which makes blocks with a proposal and votes
--   Host       sp1/ckb-vote-verification/script/src/main.rs, which runs the guest or proves its run;
--              Outputs and Search are about the proposal that it finds and the one that count_vote finds
--   Sp1Test    contracts/sp1-test/src: main.rs, entry.rs and error.rs
--   Settlement the proposal type script and the guest program together
--   Tests      runs of all of these on small inputs
--
-- How the code is modelled. A reader is the byte string that it reads, and its accessors return a
-- panic where the code's slice is out of range. A `?` is the bind of `Result`, an `unwrap` or
-- `expect` that fails is a panic. A loop over an index is a recursion on what is left, which
-- carries the index where the code uses it. `BTreeMap` is an association list with one entry for a
-- key; the order of its entries differs, and nothing depends on it. A node of the Merkle tree
-- is a list of bytes, of 32 bytes in the program. `usize` has 64 bits.
-- The product in `min_shannon` wraps, as the guest is built without overflow checks; the contracts
-- are built with them. The rounds of the Merkle queue are one fewer than the leaves, and each
-- round takes one node off the queue. An iterator that the code reads lazily is read at once, and
-- printing is left out. A block is read at once too: verify_block_vec does not look inside a
-- transaction, whose readers panic on bytes of another shape, so `read_block` of the packages returns
-- `none` where a reader that the program may call on the block would panic, and that is a panic when
-- the blocks are read. The program comes to it later, or not at all if it first fails on the integrity
-- of the blocks, or returns early, where the proposal is not found or the window has another length.
-- An error of verification leaves out the name of the reader.
-- The `- 1` of item_count and field_count at a first offset of 0 is a panic, also in the guest, where
-- it wraps; a verified table has no such offset.
--
-- The packages that the code calls (blake2, the molecule numbers, the readers of ckb_gen_types, hex,
-- sp1_verifier, sp1_sdk, ckb_std) are fields of the records `Packages`, `Sp1`, `Sdk`, `Binary` and
-- `Context`, on which every definition that uses them depends. What is assumed of them is named
-- where it is assumed: the record `NumberLaws` (a number takes four bytes, is read back, is below 2^32,
-- and four bytes are the encoding of their number), `VerifierLaws` (the verifiers of ckb_gen_types
-- return, and those of numbers accept one size only), `BuilderLaws` (the readers of ckb_gen_types
-- return what its builders wrote), `CompatibleLaws` (its compatible verification accepts what its
-- strict one accepts), `BlockSchema` (its verifier of blocks
-- follows blockchain.mol), `HashLaws` (a hash has 32 bytes), `HeaderLaws` (the parent hash has a fixed
-- place in a header), `Resolves`, that the vote type script sees each cell dep as the live cell at its
-- out point, which is so without dep groups, `Sound`, that the
-- verifier of proofs accepts only what the guest program commits, `RunsGuest`, that the prover runs the
-- guest program, and `HasHashTypes`, that the hash type of a script on chain is one byte.
--
-- A loop over a vector calls `next` at most once more than the iterator has items.
--
-- Not modelled: the generated Display, Debug and entity wrappers of types.rs, which repeat the readers,
-- the tests and benches, the TypeScript SDK, and the deployment. In TestTool and Host a
-- subtraction that overflows is a panic, as in a build that checks overflow; printing, logging and the
-- measurement of cycles are left out.
pub mod Base
pub mod Merkle
pub mod Chain
pub mod Molecule
pub mod Count
pub mod Integrity
pub mod Syscalls
pub mod VoteScript
pub mod ProposalScript
pub mod Guest
pub mod TestTool
pub mod Host
pub mod Sp1Test
pub mod Settlement
pub mod Prepare
pub mod Tests
