-- ===== src/CoreTypes.antt =====
-- shared/types/CoreTypes.h and ems/types/Common.h: the enumerations, and MatchingEngine/include/
-- Order.h. `Price` and `Qty` are int64_t in the source and stand for their non-negative values here.
use valyrian_stock_exchange.Prelude.{ℕ, Bool, true, false}

pub data Side : Type 0 where
  buy sell : Side

pub data OrderType : Type 0 where
  limit market : OrderType

pub data OrderState : Type 0 where
  new partially_filled filled cancelled : OrderState

pub data Decision : Type 0 where
  accept reject : Decision

pub data RejectReason : Type 0 where
  invalid_range fat_finger market_closed rate_limit invalid_tick invalid_lot : RejectReason
  insufficient_funds : RejectReason

-- `order->type == OrderType::MARKET`, and so for the other enumerations.
abbrev pub is_market : OrderType → Bool
is_market market = true
is_market limit = false

abbrev pub is_buy : Side → Bool
is_buy buy = true
is_buy sell = false

abbrev pub is_filled : OrderState → Bool
is_filled filled = true
is_filled _ = false

abbrev pub is_cancelled : OrderState → Bool
is_cancelled cancelled = true
is_cancelled _ = false

abbrev pub opposite : Side → Side
opposite buy = sell
opposite sell = buy

-- `slot` is the address of the order in the pool: what an `Order *` holds.
pub record Order : Type 0 where
  pub slot : ℕ
  pub order_id : ℕ
  pub user_id : ℕ
  pub side : Side
  pub type : OrderType
  pub price : ℕ
  pub quantity : ℕ
  pub remaining : ℕ
  pub timestamp : ℕ
  pub state : OrderState
