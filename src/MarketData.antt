-- ===== src/MarketData.antt =====
-- What the market data publisher makes of the trades: market_data.
pub mod CandleBuilder
