-- ===== src/Engine/State.antt =====
-- The members of class MatchingEngine (MatchingEngine/include/MatchingEngine.h), and how its
-- handlers end. The four output queues are set together by setOutputQueues; `connected` says that
-- they are. Each list of events holds what was offered to its queue, newest first: the engine
-- ignores whether a queue had room.
use valyrian_stock_exchange.Prelude.{ℕ, Bool, true, false, List, [], ◌||◌, not, ◌==◌, if◌then◌else◌}
use valyrian_stock_exchange.CoreTypes.{Order, OrderState, new, filled, partially_filled}
use valyrian_stock_exchange.Events.{OrderEvent, TradeEvent, BookUpdateEvent, DbEvent}
use valyrian_stock_exchange.Containers.{Containers}
use valyrian_stock_exchange.OrderBook.{OrderBook, new_book}
use valyrian_stock_exchange.Wal.{Wal}

pub record Engine (C : Containers) : Type 0 where
  pub book : OrderBook C
  pub wal : Wal
  pub is_recovering : Bool
  pub in_modify : Bool
  pub connected : Bool
  pub symbol_id : ℕ
  pub order_events : List OrderEvent
  pub trade_events : List TradeEvent
  pub db_events : List DbEvent
  pub book_updates : List BookUpdateEvent

-- How a handler ends: it returns, an exception leaves it, std::terminate is called, or the bound
-- on the rounds of its loop is reached.
pub data Run (S R : Type 0) : Type 0 where
  done : S → R → Run S R
  escaped : S → Run S R
  terminated : Run S R
  out_of_fuel : Run S R

-- What a test of the queue pointers and of `isRecovering_` amounts to.
abbrev pub silent : {C : Containers} → Engine C → Bool
silent e = not e.connected || e.is_recovering

-- The engine as its constructor has it before the log is replayed.
pub fresh_engine : (C : Containers) → ℕ → ℕ → Wal → Engine C
fresh_engine C orders levels wal = record {
  book = new_book C orders levels;
  wal = wal;
  is_recovering = false;
  in_modify = false;
  connected = false;
  symbol_id = 0;
  order_events = [];
  trade_events = [];
  db_events = [];
  book_updates = [];
}

pub set_output_queues : {C : Containers} → Engine C → ℕ → Engine C
set_output_queues e id = record e { symbol_id = id; connected = true }

-- An order with nothing left of nothing counts as new.
unfoldable pub state_after : ℕ → ℕ → OrderState
state_after remaining quantity =
    if remaining == quantity then new else if remaining == 0 then filled else partially_filled

abbrev pub update_order_state : Order → Order
update_order_state o = record o { state = state_after o.remaining o.quantity }
