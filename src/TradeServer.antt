-- ===== src/TradeServer.antt =====
-- The server that talks to the clients: trade_server/network.
pub mod Bearer
pub mod ConnTable
pub mod WebSocketServer
