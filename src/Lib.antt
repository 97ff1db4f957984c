-- ===== src/Lib.antt =====
-- The block oracle, its message encoding and the Epoch Subgraph that reads the messages.
--
-- The oracle polls the Epoch Subgraph and the Epoch Manager contract. When the manager is at a new epoch
-- and the subgraph has caught up, it asks every indexed chain for its latest block, compresses the blocks
-- against what the subgraph knows of each network, and submits the encoded message to the DataEdge
-- contract, from where the subgraph reads it and updates the networks in its store.
--
-- Parts and files:
--   Encoding/Messages     crates/encoding/src/messages.rs: messages, and permissions' names.
--   Encoding/Serialize    crates/encoding/src/serialize.rs: from messages to bytes. Varint describes the
--                         encoding of numbers in plain arithmetic, Serialize/Totality says when a batch
--                         can be serialised.
--   Encoding/Merkle       crates/encoding/src/merkle.rs: the in-place Merkle loop, with Merkle/Level on
--                         one round and Merkle/Root on the whole.
--   Encoding/Encoder      crates/encoding/src/lib.rs: `Encoder` as explicit state passing: each method
--                         takes the encoder and gives an outcome and the encoder it leaves, also on an
--                         error. Its children treat the order of networks (Alignment, Indexed), the
--                         filling in of missing blocks (Fill), sets of block numbers (Blocks), batches
--                         (Batch) and the registry (Registry).
--   Subgraph/Decoding     packages/subgraph/src/decoding.ts: the reader and its decoders.
--   Subgraph/Tags         `decodeTags` of decoding.ts and `MessageTag` of helpers.ts.
--   Subgraph/Networks     what `createOrUpdateNetworkEpochBlockNumber` of packages/subgraph/src/helpers.ts
--                         computes.
--   Subgraph/Store        packages/subgraph/src/store-cache.ts and schema.graphql: the entities, as a value
--                         that maps identifiers to them; Subgraph/Constants is constants.ts.
--   Subgraph/Active       the active networks, the next epoch and the block numbers of helpers.ts.
--   Subgraph/Chain        the linked list of networks, and the walk along it.
--   Subgraph/Linked       when the subgraph's linked list stands for the networks of an encoder.
--   Subgraph/Mapping      packages/subgraph/src/mapping.ts: `processPayload` over blocks and messages.
--                         Mapping/Epochs, Mapping/Registry and Mapping/Permissions are the handlers of the
--                         messages, each a function from the cache and the reader to both, or to one of
--                         the other ends of `Run`: a trap of AssemblyScript, or a walk without end. Under Epochs, Accepted and Payload treat sets of
--                         block numbers that are taken, EmptySet and GoesBack those that are not. Progress
--                         follows the reader through every handler, Listed the linked list of networks
--                         that Mapping/Links writes, Payloads the loop over the blocks, Forbidden a
--                         submitter without permissions, and Names the names of permissions against
--                         those of the encoder.
--   Subgraph/Events       the handlers of calls and logs in mapping.ts, with `parseCalldata` (Events/Calldata)
--                         and `getEventFromReceipt` (Events/Multisig) of helpers.ts.
--   Subgraph/Reached      the stores that any sequence of payloads comes to.
--   Oracle/ChainId        `Caip2ChainId` of crates/oracle/src/models.rs.
--   Oracle/Control        the errors, `oracle_task` and `handle_error` of crates/oracle/src/runner/mod.rs,
--                         ctrlc.rs and error_handling.rs; Control/Schedule describes the main loop by the
--                         turns that it goes through.
--   Oracle/Freshness      `subgraph_is_fresh` of runner/oracle.rs, `calls_in_block_range` of jrpc_utils.rs.
--   Oracle/State          crates/oracle/src/subgraph.rs: `query_subgraph` and the conversions.
--   Oracle/Payload        `set_block_numbers_for_next_epoch` of runner/oracle.rs; Payload/Equality is the
--                         derived `==` on encoders that its last test uses.
--   Oracle/Epoch          `Oracle::run`, `detect_new_epoch` and `handle_new_epoch` of runner/oracle.rs,
--                         `query_current_epoch` of contracts.rs, and the two functions that collect the
--                         chains' latest blocks.
--   Oracle/Monitor        crates/oracle/src/runner/transaction_monitor.rs, with Monitor/Bumps on prices,
--                         Monitor/Attempts on what is sent and Monitor/Confirms on the receipt.
--   Oracle/Config         crates/oracle/src/config.rs: from a TOML table (Config/Table) to the
--                         configuration (Config/Load); Config/Environment is about its variables.
--   Oracle/Contracts      `submit_call` of crates/oracle/src/contracts.rs.
--   Json                  crates/json-oracle-encoder/src/lib.rs.
--   Delivery              from the oracle's payload to the subgraph's store.
--   Prelude               shared: outcomes (a value, an error or a panic), text as bytes, ordered maps,
--                         lists, bits and integers.
--   Tests                 vectors of the repository's tests, and instances of the theorems.
--
-- Conventions. A `u64` is a number below 2^64 where a theorem says so, and bits that a shift or a cast
-- drops are dropped by `% 2 ^ w`. An `i64` is an integer; subtraction on it panics on overflow, as in the
-- release profile of Cargo.toml. A panic is an outcome of its own. Keccak-256, the ABI's encoding and the
-- parsing of hexadecimal hashes are arguments of the functions that use them. What the network answers is
-- an argument too: a function from block numbers or attempts, or a record of answers. Where requests run
-- at the same time, their answers are listed in the order in which they arrive; receipts of earlier
-- transactions are looked at in the order of a list.
--
-- Fuel. `bit_length` and `trailing_zeros` look at 64 digits, which is every digit of a `u64`. The Merkle
-- loops are given the length of what they work on as fuel; each round shortens it, and `length-level_loop`
-- says that at most one hash is left. The loop of `serialize_u64` recurs on the accessibility of `<`, and
-- the retry loop on the number of retries. The search in a receipt recurs on the index that it looks at.
-- The subgraph's walk along its list of networks has no bound in the code. Here it follows as many links
-- as the state counts active networks, one for each; where it is not at the end of the list then, it is
-- `endless`, and not a trap. The loop over a payload's blocks is given the payload's length, since a
-- block takes a byte at least. A payload that runs out of either ends in `out_of_fuel`.
--
-- Bounds. The number of an epoch has no bound here. The code casts it with `toI32`, which is negative
-- from 2^31 on and traps from 2^32 on, far above what the Epoch Manager answers. Neither do the numbers
-- of networks wrap around at 32 bits. The version of an encoding is kept as the pattern of its 32 bits,
-- which the code reads as an `i32`.
--
-- Not modelled: metrics, logging, the command line, the parsing of TOML, the JSON-RPC transport with its
-- back-off, the generated gRPC client, xtask and the web binding, which only copy values or call outside;
-- of the subgraph, the entities that only record which messages were seen.
pub mod Prelude
pub mod Encoding
pub mod Subgraph
pub mod Oracle
pub mod Json
pub mod Delivery
mod Tests
