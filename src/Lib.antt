-- ===== src/Lib.antt =====
-- Valyrian Stock Exchange: the way of an order, from the message of a client to the books.
--
-- The server makes orders of the messages of its clients and gives each the next number of its
-- symbol. An ingress worker has the order checked and puts it into the ring of the symbol, or marks
-- its number as rejected. A dispatcher takes the orders in the sequence of their numbers to the
-- engine of the symbol. A matching engine keeps the order book of one symbol. It takes new orders, cancellations and
-- modifications, matches by price and then by time, writes a log from which a restart rebuilds the
-- book, and offers what happened to four output queues.
--
-- The program's parts and the files that model them:
-- - CoreTypes: shared/types/CoreTypes.h, ems/types/Common.h and MatchingEngine/include/Order.h.
-- - Events: shared/types/Events.h, the records offered to the output queues.
-- - Pool: MatchingEngine/include/Pools.h. A slot number stands for the address of an order or of a
--   level; the field `slot` of an order is its address.
-- - PriceLevel: MatchingEngine/include/PriceLevel.h. The intrusive list of a level is the list of
--   its orders from head to tail.
-- - Containers: the interface of the two containers of the book that are not part of the
--   repository: the tree of levels by price (MatchingEngine/include/AdaptiveRadixTree.h over libart,
--   a git submodule) and absl::flat_hash_map. Its laws say what the book relies on, and
--   Containers/Sample fills them with association lists.
-- - OrderBook: MatchingEngine/include/OrderBook.h, one function per member function: insert_at is
--   insertOrder, remove_at removeOrder, consume_at consumeOrder, write_at a store through an
--   `Order *`. OrderBook/Valid states the invariant; Removal, Refresh, Removed, Keeps, Settles and
--   Remove are about removeOrder, Fill, Drop and First about what `match` does to a level, Insert,
--   Rest and Place about insertOrder, Views and Find about what is read.
-- - Wal: MatchingEngine/wal/WAL.h and WAL.cpp. The files are lists of whole records, and lists of
--   outcomes say which of the coming writes, and openings of the trades file, succeed.
-- - Engine: MatchingEngine/include/MatchingEngine.h. Engine/State is the class's state, Engine/Emit
--   the functions that offer events, Engine/Match the function `match` (its rounds in Match/Rounds
--   and Match/Progress, its loop in Match/Loop, its trades in Match/Trades), Engine/NewOrder and
--   Engine/Change the handlers onNewOrder, onCancelOrder and onModifyOrder, Engine/Recovery the
--   constructor's replay of the log.
-- - RadixTree: MatchingEngine/include/AdaptiveRadixTree.h, over an interface for libart.
--   RadixTree/Keys is about the keys of prices, RadixTree/Prices and RadixTree/Built about the
--   operations, and RadixTree/Sample is an instance of the interface for the examples.
-- - Ems: what is in front of the engines. Ems/ValidationPipeline, Ems/BalanceCache, Ems/RateLimiter
--   and Ems/MarketState of ems/pipeline, Ems/SymbolCache of db, and Ems/Types for
--   ems/config/EMSConfig.h and ems/types are the checks. Ems/MpscRingBuffer, Ems/OrderQueue and
--   Ems/RejectionBitset of ems/queues are the ways between the threads, Ems/IngressWorker and
--   Ems/Dispatcher the threads of ems/core, with ems/routing/SymbolRouter.h. All run one thread at a
--   time: a loop of compare-exchanges is the update that succeeds, and an iteration of a thread's
--   loop is one step. The clock's values are arguments.
-- - Ems/Disruptor and Ems/Spsc: the interfaces of disruptorplus and rigtorp::SPSCQueue, which are
--   third-party, with instances for the examples. Engine/Handlers is the engine as a dispatcher calls
--   it, and Engine/Handlers/Accepted is about the orders that the checks let through to it.
-- - TradeServer: trade_server/network. TradeServer/ConnTable is ConnTable.h, and
--   TradeServer/WebSocketServer the handling of requests in WebSocketServer.cpp, with
--   ems/utils/IdGenerator.h; TradeServer/Bearer is its resolveUserFromBearer, with Redis and strtoull
--   as parameters. The generated decoder of messages is a parameter.
-- - Db: db/DBWriter.cpp and db/BatchBuffer.h. MarketData: market_data/CandleBuilder.cpp.
-- - Examples: the theorems at concrete inputs.
-- - Prelude, Outcome: shared names, lists, association lists, integers, and calls that may throw.
--
-- A call that may throw returns ok, threw or aborted (an exception left a noexcept function); a
-- handler ends as done, escaped (an exception leaves it), terminated (std::terminate) or out_of_fuel.
-- The loop of `match` runs on fuel, one unit a round. A round takes an order from the other side or
-- uses up the incoming order, so that the fuel asked for is the resting orders of that side plus two.
--
-- Prices and quantities of the engine are the non-negative values of int64_t; a modification with a
-- negative price or quantity, which nothing in front of the engine refuses, is not modelled. A
-- price is below 2^63. Quantities are not bounded, and sums of them do not wrap around.
-- `aggregated_qty` stops at zero where the source would go below.
--
-- In the theorems on rings and dispatchers the sequence numbers are below 2^62, so that the 64-bit
-- counters do not wrap around. A worker's claim of a slot, its stores and its publication are one step
-- there: what other threads see while a slot is claimed and not yet published is not modelled.
--
-- Not modelled: printing, the file name of the log, the bytes of its records, the text made of
-- candles, and whether an output queue has room (the engine ignores it). Sockets, Redis, SQL, threads
-- and the HTTP server of the repository are input and output around this core, and are not modelled
-- either.
pub mod Prelude
pub mod CoreTypes
pub mod Outcome
pub mod Pool
pub mod PriceLevel
pub mod Containers
pub mod OrderBook
pub mod Events
pub mod Wal
pub mod Engine
pub mod Examples
pub mod Ems
pub mod TradeServer
pub mod Db
pub mod MarketData
pub mod RadixTree
