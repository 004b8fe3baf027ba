-- ===== src/Ems.antt =====
-- The checks in front of the engines: ems/pipeline, ems/config, ems/types, ems/queues and db/SymbolCache.
pub mod Types
pub mod BalanceCache
pub mod MarketState
pub mod RateLimiter
pub mod SymbolCache
pub mod ValidationPipeline
pub mod RejectionBitset
pub mod Disruptor
pub mod Spsc
pub mod OrderQueue
pub mod IngressWorker
pub mod MpscRingBuffer
pub mod Dispatcher
