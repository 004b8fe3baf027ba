-- ===== src/Events.antt =====
-- shared/types/Events.h: what the engine offers to its output queues. Padding is left out.
use valyrian_stock_exchange.Prelude.{ℕ}
use valyrian_stock_exchange.Prelude.Int.{ℤ}
use valyrian_stock_exchange.CoreTypes.{Side, OrderType, OrderState, RejectReason}

pub data OrderEventType : Type 0 where
  fill reject cancel_ack modify_ack : OrderEventType

pub record OrderEvent : Type 0 where
  pub type : OrderEventType
  pub order_id : ℕ
  pub user_id : ℕ
  pub symbol_id : ℕ
  pub fill_price : ℕ
  pub fill_qty : ℕ
  pub remaining : ℕ
  pub state : OrderState
  pub reject_reason : RejectReason
  pub sequence : ℕ
  pub timestamp : ℕ

pub record TradeEvent : Type 0 where
  pub symbol_id : ℕ
  pub aggressor_side : Side
  pub price : ℕ
  pub qty : ℕ
  pub best_bid : ℕ
  pub best_ask : ℕ
  pub timestamp : ℕ

pub record BookUpdateEvent : Type 0 where
  pub symbol_id : ℕ
  pub best_bid : ℕ
  pub best_ask : ℕ
  pub timestamp : ℕ

pub data DbEventType : Type 0 where
  order_accepted order_filled order_cancelled order_modified : DbEventType

-- `fill_qty` is negative in an ORDER_MODIFIED event that reports a reduction.
pub record DbEvent : Type 0 where
  pub wal_sequence : ℕ
  pub type : DbEventType
  pub side : Side
  pub order_type : OrderType
  pub state : OrderState
  pub order_id : ℕ
  pub user_id : ℕ
  pub symbol_id : ℕ
  pub price : ℕ
  pub qty : ℕ
  pub remaining : ℕ
  pub fill_price : ℕ
  pub fill_qty : ℤ
  pub timestamp : ℕ
  pub peer_order_id : ℕ
  pub peer_user_id : ℕ
