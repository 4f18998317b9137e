-- ===== src/Lib.antt =====
-- The replication, trust and resilience core of cyberfly-rust-node, a peer-to-peer database node.
--
-- A node keeps signed operations and replicates them. src/crypto.rs checks who may write to which
-- database; src/sync.rs verifies every operation that arrives, keeps for each CRDT key the last write,
-- answers the sync requests of other nodes in chunks and transfers the operations into the key-value
-- storage; src/network_resilience.rs decides per peer whether to send at all (circuit breaker) and how
-- fast (token buckets); src/retry.rs repeats operations that fail. src/storage.rs keeps the values under
-- their keys, in blobs behind an index and a cache; src/inference.rs hands out jobs to nodes;
-- src/peer_registry.rs keeps what is known of the other nodes; src/indexing.rs finds keys by the values
-- of a field; src/resource_manager.rs limits the connections.
-- src/gossip_discovery.rs learns of other nodes from their signed announcements; src/filters.rs queries
-- the storage; src/state_manager.rs keeps the state of the node that the others report.
--
-- Common/          Boolean tests, lists, signed integers, texts, association lists, results, decimals
--                  and sorting, over the native natural numbers. A text is the list of its Unicode
--                  scalar values; a map is an association list.
-- Crypto.antt      src/crypto.rs, one definition per function, named after it; Crypto/ has its
--                  theorems. `CryptoLib` stands for ed25519_dalek, hex and char::is_alphanumeric.
-- Sync/Operation   src/sync.rs: SignedOperation, SyncMessage, verify, crdt_key.
-- Sync/Store       SyncStore: is_applied, mark_applied, add_operation with its parts, merge_operations.
-- Sync/Query       the reading operations of SyncStore.
-- Sync/Blobs       the saving to and loading from blobs.
-- Sync/Manager     SyncManager: handle_sync_message, and apply_operation_to_storage with its cases.
-- Sync/Startup     SyncManager: saving at intervals and loading at the start.
-- Sync/Lww         the order of operations and the map of winners, on which Sync/Merge, Sync/Remerge
--                  and Sync/Monotone stand; Sync/Invariant, Sync/Paging, Sync/Ascending, Sync/Ties,
--                  Sync/Transfer and Sync/Persist are about messages, chunks and blobs.
-- Resilience/Breaker    CircuitBreaker of src/network_resilience.rs, one peer's state at a time and
--                       over the map of peers.
-- Resilience/Bandwidth  TokenBucket and BandwidthThrottle of the same file.
-- Retry/Executor   src/retry.rs, RetryExecutor, and is_recoverable of src/error.rs.
-- Retry/Breaker    CircuitBreaker of src/retry.rs, around one operation.
-- Storage/Value    src/storage.rs: the stored values and their time to live.
-- Storage/Core     TieredCache, the index, store_value, get_value and delete. `Backend` is what moka,
--                  bincode, iroh_blobs and serde_json do. The index is in the order of its keys.
-- Storage/Typed    the common form of typed reads and writes; Storage/Ops, Storage/Series,
--                  Storage/Documents and Storage/Keys have the operations by their names.
-- Storage/Sound    the storage as a map from keys to values, whatever the cache holds or drops, on
--                  which Storage/Read, Storage/Writes and Storage/Expiry stand. bincode does not decode
--                  serde_json::Value, so a sound storage holds no JSON documents; Storage/Lost is about
--                  those. Storage/Slices is about the indexes of lists and sorted sets.
-- Inference/Job, Inference/Scheduler   src/inference.rs: InferenceJob and InferenceScheduler; Best,
--                  Pull, Steps and Timeouts have their theorems. `Floats` is the arithmetic of f64.
-- Peers/Meta, Peers/Registry, Peers/Diverse   src/peer_registry.rs; Invariant, Turns and Chosen have
--                  the theorems.
-- Indexing/Index   src/indexing.rs, SecondaryIndex; Indexing/Relation has its theorems. `Platform` is
--                  what the language gives: f64, lower case and sizes.
-- Resources/Connections   src/resource_manager.rs: limits, counters and register_connection, access by
--                  access; Resources/Limit is about every interleaving of them.
-- Resilience/Reputation, Resilience/Ranking, Resilience/Combined   ReputationManager and
--                  NetworkResilience of src/network_resilience.rs; Resilience/Scores and
--                  Resilience/Standing have their theorems. `Float` is the arithmetic of f64.
-- Gossip/Message, Gossip/Sender, Gossip/Receiver   src/gossip_discovery.rs; Authentic and Expired have
--                  the theorems. `Wire` is postcard, ed25519_dalek and the keys of iroh.
-- Storage/Listings, Storage/Entries   the listings of src/storage.rs over all keys, on which
--                  Storage/Listed is; Storage/Geo the queries by radius, with Storage/Near.
-- Filters/Json, Filters/Series, Filters/Plain   src/filters.rs; Pages, Ordered, Hits, Rows and Buckets
--                  have the theorems. `JsonView` is what serde_json tells of a document.
-- Indexing/Manager IndexManager of src/indexing.rs, with Indexing/Apart.
-- State/App        src/state_manager.rs, with State/Counts.
--
-- State is passed explicitly: an operation takes the store and returns its result with the store that
-- it leaves, also where it fails. `Externals` is what automerge, serde_json and iroh_blobs do, with
-- `none` for an error; `StorageOps` the writes of the key-value storage. A reading of the clock is an
-- argument, numbered where a call of the sync store reads it more than once; elsewhere one reading
-- stands for all of an operation. Calls follow one another without overlap, except in
-- Resources, where they interleave access by access, and in `snapshot` of src/state_manager.rs, whose
-- reads see different states. The source holds a lock for a whole call in most operations; it does not
-- in the token buckets (a `try_consume` can come between the load and the store of a `refill`) and in
-- the scheduler (`add_job`, `pull_next_job` and `mark_claimed` touch two maps), and calls that overlap
-- there are not modelled. The multiplication of a rate by an interval in floating point is a
-- parameter (`per_refill`). Where unsigned arithmetic can overflow, the wrap-around of release builds
-- is written out (`% 2 ^ 64`).
--
-- `exchange` in Sync/Paging follows the continuation of a sync with fuel, one unit for each request;
-- for a store of n operations fuel f with n < 128 * f is enough. `parse_i64` and `show_ℤ` need no
-- fuel from outside: 20 digits hold every i64. The loops of src/retry.rs recurse on the attempts or
-- the delays that are left.
--
-- `take_turns` in Peers/Diverse has fuel, one unit for each turn. A turn takes a peer, and
-- `get_diverse_peers` gives one unit more than there are peers.
--
-- Not modelled: logging, and metrics other than the gauges of the scheduler and the registry and the
-- counters of the gossip discovery; the batch writer of the storage, and its queries by JSONPath; the
-- running of models; the subscription to gossip topics and the tasks that only call an operation at
-- intervals; the network, the GraphQL interface and the bridges to other services, which call the
-- parts above.
pub mod Common
pub mod Crypto
pub mod Sync
pub mod Resilience
pub mod Retry
pub mod Storage
pub mod Inference
pub mod Peers
pub mod Resources
pub mod Gossip
pub mod Filters
pub mod State
pub mod Indexing
