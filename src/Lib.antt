-- ===== src/Lib.antt =====
-- A model of the rekor server: a transparency log over shards, each a tree of a log server.
--
-- The parts, and how they interact:
-- - Base: what the modules share. A Go string is the list of its bytes, an int64 an integer whose
--   operations wrap, and a call that returns a value and an error a Result.
-- - Golib: the functions of Go's standard library that the code calls: hexadecimal, base64, numbers,
--   runes and lines.
-- - Sharding.EntryId: pkg/sharding/sharding.go. An entry id is a tree id of 16 hexadecimal bytes and a
--   UUID of 64. CreateEntryIDFromParts is create_entry_id_from_parts, TreeID is tree_id_of.
-- - Sharding.Ranges: pkg/sharding/ranges.go and log_index.go. Virtual indexes count through the
--   inactive shards and then the active one. Building: NewLogRanges and CompleteInitialization.
-- - Signer: pkg/signer/signer.go. The signers of a shard, from its configuration; the loop of
--   NewMultipleFromConfig is rounds, over a record of its variables.
-- - Trillian.Client: pkg/trillianclient/trillian_client.go. Each call takes the state of the world to a
--   Response and the state after it. Calls has the reading calls, Adding has AddLeaf.
-- - Trillian.Manager: pkg/trillianclient/manager.go. One function for each section that holds a lock,
--   so that the sections of several callers can be put in any order.
-- - Types: pkg/types/entries.go, types.go and versionmap.go. Which entries may be submitted, and the
--   factories of the versions of a kind.
-- - Util: pkg/util/checkpoint.go, signed_note.go and sha.go. NoteText has UnmarshalText of notes and of
--   signed checkpoints.
-- - Api: pkg/api/entries.go, tlog.go, index.go, error.go and public_key.go. Leaf: logEntryFromLeaf,
--   Retrieve: the retrieval of entries, Search: SearchLogQueryHandler, Create: createLogEntry from its
--   call of AddLeaf on, Create.Proposed: what it does before, Tlog: the handlers of tlog.go, Index:
--   SearchIndexHandler, Errors: handleRekorAPIError, PublicKeys: the handlers of public keys. The
--   record Api has the shards of Sharding.Ranges, and gives a server of Trillian.Client for a tree id.
-- - Verify: pkg/verify/verify.go, the checks of a client. Verify.Created states what the server of Api
--   and a client have in common: received is a new entry as the client gets it.
-- - Cli: cmd/rekor-cli/app. LogInfo: log_info.go, which checks tree heads as Verify does against those
--   that State, state/state.go, keeps in a file.
--
-- Parameters: gRPC and the log server, the verifiers of Merkle proofs, keys and signatures, JSON and
-- YAML, files, semantic versions, and the storage of attestations and of the index are records of
-- functions, with the laws that a theorem uses as fields of a record (Merges, Pair, IsClientOf) or
-- as hypotheses.
--
-- Fuel: only the wait loop of AddLeaf runs on fuel, one unit for a round. A wait ends with an update of
-- the log root, and so `n` + 2 rounds are enough where the log server merges the leaf within `n`
-- updates (the record Merges of Trillian.Client.Adding.Waiting). Parsing and printing of numbers have
-- 64 digits, which is enough for 64 bits in every base.
--
-- Order: a Go map is a list of its keys with their values. Go may go through it in any order, so what
-- depends on the order is stated for the order of the list only.
--
-- Not modelled: the tasks that createLogEntry starts, the start of the server (NewAPI), the packages of
-- the types of entries and of the formats of keys, storage, events, the other commands and generated
-- code. Logging and metrics are left out of what is modelled.
pub mod Base
pub mod Golib
pub mod Sharding
pub mod Signer
pub mod Trillian
pub mod Types
pub mod Util
pub mod Api
pub mod Verify
pub mod Cli
