-- ===== src/Lib.antt =====
-- Verification of 0x Mesh, a peer-to-peer node that stores and relays signed 0x orders.
--
-- The model covers the part of the node that follows the Ethereum chain, the database, and of what
-- happens to orders: the checks before a request to the chain, the batches of requests, and how the
-- order watcher turns block events and validation results into updates of orders and events. The
-- requests themselves, the decoding of contract events, the order-sync protocol, the peer-to-peer
-- node, the JSON-RPC server and the generated contract bindings are not modelled: they call these
-- parts, or are glue over libraries.
--
-- * ethereum/miniheader/miniheader.go (MiniHeader): block headers with their logs.
-- * ethereum/simplestack/simple_stack.go (SimpleStack): the in-memory stack of the latest headers, as
--   a record with the functions `new`, `peek`, `pop_header`, `push_header`, `peek_all`, `clear`,
--   `checkpoint`, `reset` and `get_updates` for its methods. Its children prove what holds of it:
--   Bounds (the limit and the block numbers), Undo and Reset (the loop of `Reset`), Runs (sequences of
--   calls between `Checkpoint` and `Reset`).
-- * ethereum/blockwatch/block_watcher.go (BlockWatch): the watcher that keeps the stack in step with
--   an Ethereum node and sends block events. Types has the `Stack` and `Client` interfaces, the
--   configuration and the state; Laws says what the watcher relies on of a stack, and Simple proves it
--   of the stack that core/core.go hands to the watcher. Chain is `buildCanonicalChain`, Sync is
--   `SyncToLatestBlock`, Ranges is `getSubBlockRanges`, Logs is `filterLogsRecurisively` and
--   `getLogsInBlockRange`, FastSync is `FastSyncToLatestBlock` and `getMissedEventsToBackfill`. Replay,
--   Follows, Linked, Depth, Synced and the children of Logs and FastSync hold the proofs.
-- * db (Db): collections of models with indexes over the key-value store goleveldb. Escape is
--   escape.go; Keys is the keys of col_info.go and index.go; Ldb states what is expected of the
--   store, of JSON and of decimal numbers; Operations is operations.go on the batch of batch.go;
--   Transaction is transaction.go and the methods of collection.go; Global is global_transaction.go;
--   Query is query.go. Their children hold the proofs. The block watcher and the database do not meet
--   in the modelled code: core/core.go subscribes to block events and stores what it derives of them.
-- * expirationwatch/expiration_watcher.go (ExpirationWatch): the watcher of expiration times, over a
--   tree that is a parameter. Watched has the proofs.
-- * StringSet has the sets of strings that both use, which are Go maps, as lists.
-- * zeroex/orderwatch/slowcounter/slow_counter.go (SlowCounter): a counter that grows with time, over
--   floating-point numbers that are a parameter. Growth has the proofs.
--
-- * zeroex/order.go (Orders), ethereum/contract_addresses.go (ContractAddresses) and
--   zeroex/asset_data_decoder.go (AssetData): the records of orders and their events, the addresses of
--   contracts, and `GetName` and `Decode` over an ABI library that is a parameter.
-- * zeroex/ordervalidator/order_validator.go (OrderValidator): the results of validations and
--   `ConvertRejectOrderCodeToOrderEventEndState`. Offchain is `BatchOffchainValidation`, and Chunks is
--   `computeOptimalChunkSizes` with the chunks that `BatchValidate` makes of the sizes. Their children
--   Sorted and Fit hold the proofs.
-- * zeroex/orderwatch/order_watcher.go (OrderWatch): `rewatchOrder`, `unwatchOrder` and
--   `updateOrderDBEntry` on the `Order` of meshdb/meshdb.go, on an open transaction of Db and on the
--   tree of ExpirationWatch. Known has the maps from hashes; Results is
--   `convertValidationResultsIntoOrderEvents`; Expirations is `handleOrderExpirations`; Headers is
--   `updateBlockHeadersStoredInDB`, which takes the events of BlockWatch; Specific is
--   `meshSpecificOrderValidation`; Contracts is
--   `addAssetDataAddressToEventDecoder` and `removeAssetDataAddressFromEventDecoder` with the sets of
--   decoder/event_decoder.go; Trim is `TrimOrdersByExpirationTime` of meshdb/meshdb.go on Db, with the
--   time that it lowers in place, and its child Forget `trimOrdersAndGenerateEvents`; and Raise
--   `increaseMaxExpirationTimeIfPossible`; Add is `add`, Changed `generateOrderEventsIfChanged` with the
--   permanent deletion. Watching and the other children of these hold the proofs.
--
-- Prelude has the shared helpers, Errors the Go errors, Tests runs at fixed inputs.
--
-- How the code corresponds to the model. A method of a mutable object returns its results beside the
-- new object; a mutex makes it one step, and for `Prune`, which gives its mutex back in between, the
-- one of the order watcher does. An error is a value of `Error`. The Ethereum node is a
-- parameter: `Client` answers from a state that any request may change, so that nothing is assumed of
-- its answers but what a theorem names. A hash is a number. Block numbers and timestamps are natural
-- numbers, as they are below 2^63 on every chain; the count of elapsed blocks, which can be negative,
-- is an integer. Logging has no counterpart.
--
-- In the database a byte is a number, and an `int` is its 64 bits as a number, added modulo 2^64. The
-- locks are values: a method that waits for a lock that nobody gives back `blocks`. A mutex is
-- taken by one caller at a time, so that between two calls it is free. A model's Go type is
-- compared as the reflect package does. An iterator is the list of its keys. Offsets and maxima of
-- queries are not negative.
--
-- The slow counter takes the time from its caller, and it does not run backwards; the numbers in its
-- configuration are not negative. A time of the watcher of expiration times is in nanoseconds since
-- the epoch.
--
-- An order of the order watcher is a value, and the maps hold the current one: in the code they hold
-- pointers, of which none is shared between two hashes; the expiration time that trimming lowers in place
-- is written into the order (`lower_last`). The amounts and times of an order are natural
-- numbers. Updates of the database whose errors the code only logs go into the transaction, and
-- the readings of the clock are a parameter. Expiration times are those of orders that passed the
-- checks off the chain, so that they fit into 63 bits.
--
-- Fuel: `build_chain` calls itself only after a pop, and `chain_fuel` is one more than the number of
-- stored headers. `filter_logs_recursively` halves a range, and one more than its length is enough.
-- `prune` deletes a key in each round, and one more than the number of keys is enough.
-- `add_asset_data` takes one for each level of nested asset data, and the length of the data is enough.
-- The requests of one chunk in `run_chunk`, which the code makes at the same time, reach the node in
-- the order of the chunk; Go's random order over a map is the parameter `map_order`.
pub mod Prelude
pub mod Errors
pub mod MiniHeader
pub mod SimpleStack
pub mod BlockWatch
pub mod StringSet
pub mod Db
pub mod ExpirationWatch
pub mod Orders
pub mod ContractAddresses
pub mod AssetData
pub mod OrderValidator
pub mod OrderWatch
pub mod SlowCounter
mod Tests
