-- ===== src/Wal.antt =====
-- MatchingEngine/wal/WAL.h and WAL.cpp: the write-ahead log of one engine. `disk` holds the outcomes
-- of the coming writes, chosen by the environment (true, or an empty list: the entry is written and
-- flushed; false: the stream refuses, no complete record is left and an exception is thrown), and
-- `openings` those of opening the trades file, in the same way (false: the line is lost).
pub mod Writes
use valyrian_stock_exchange.Prelude.{ℕ, suc, Bool, true, false, List, [], ◌∷◌, ◌++◌}
use valyrian_stock_exchange.CoreTypes.{Side, OrderType, OrderState, new, Order}
use valyrian_stock_exchange.Outcome.{Outcome, ok, threw}

pub data WalAction : Type 0 where
  add cancel modify trade : WalAction

pub record OrderData : Type 0 where
  pub order_id : ℕ
  pub user_id : ℕ
  pub side : Side
  pub type : OrderType
  pub price : ℕ
  pub quantity : ℕ
  pub remaining : ℕ
  pub timestamp : ℕ
  pub state : OrderState
  pub peer_order_id : ℕ

pub record LogEntry : Type 0 where
  pub action : WalAction
  pub fields : OrderData

-- A line of the `.trades` file.
pub record TradeLine : Type 0 where
  pub aggressor_id : ℕ
  pub resting_id : ℕ
  pub price : ℕ
  pub qty : ℕ

-- `entries` is the log file and `trades` the trades file, oldest first.
pub record Wal : Type 0 where
  pub entries : List LogEntry
  pub trades : List TradeLine
  pub reusable_entry : LogEntry
  pub last_seq : ℕ
  pub disk : List Bool
  pub openings : List Bool

appended : Wal → Wal
appended w = record w { entries = w.entries ++ (w.reusable_entry ∷ []); last_seq = suc w.last_seq }

write_entry : Wal → Outcome Wal
unfolding appended
write_entry w = elim w.disk [
  | [] ↦ ok (appended w)
  | true ∷ rest ↦ ok (appended (record w { disk = rest }))
  | false ∷ rest ↦ threw (record w { disk = rest })
]

-- The source calls it with the action ADD only.
unfoldable pub log_input : Wal → WalAction → Order → Outcome Wal
unfolding write_entry
log_input w action order = write_entry (record w { reusable_entry = entry })
  where
    entry : LogEntry
    entry = record {
      action = action;
      fields = record {
        order_id = order.order_id;
        user_id = order.user_id;
        side = order.side;
        type = order.type;
        price = order.price;
        quantity = order.quantity;
        remaining = order.remaining;
        timestamp = order.timestamp;
        state = order.state;
        peer_order_id = 0;
      };
    }

-- The fields that are not assigned keep what an earlier call left in the entry.
unfoldable pub log_modify : Wal → ℕ → ℕ → ℕ → Outcome Wal
unfolding write_entry
log_modify w id new_price new_qty = write_entry (record w { reusable_entry = entry })
  where
    old : OrderData
    old = w.reusable_entry.fields

    entry : LogEntry
    entry = record {
      action = modify;
      fields = record old {
        order_id = id;
        peer_order_id = 0;
        price = new_price;
        quantity = new_qty;
        remaining = 0;
        timestamp = 0;
      };
    }

unfoldable pub log_cancel : Wal → ℕ → Outcome Wal
unfolding write_entry
log_cancel w id = write_entry (record w { reusable_entry = entry })
  where
    old : OrderData
    old = w.reusable_entry.fields

    entry : LogEntry
    entry = record {
      action = cancel;
      fields = record old {
        order_id = id;
        peer_order_id = 0;
        price = 0;
        quantity = 0;
        remaining = 0;
        timestamp = 0;
      };
    }

-- Trades go to their own file and take no sequence number.
unfoldable pub log_trade : Wal → ℕ → ℕ → ℕ → ℕ → Wal
log_trade w agg_id rest_id price qty = elim w.openings [
  | [] ↦ record filled_in { trades = with_line }
  | true ∷ rest ↦ record filled_in { trades = with_line; openings = rest }
  | false ∷ rest ↦ record filled_in { openings = rest }
]
  where
    with_line : List TradeLine
    with_line =
        w.trades
        ++ (record { aggressor_id = agg_id; resting_id = rest_id; price = price; qty = qty } ∷ [])

    old : OrderData
    old = w.reusable_entry.fields

    entry : LogEntry
    entry = record {
      action = trade;
      fields = record old {
        order_id = agg_id;
        peer_order_id = rest_id;
        price = price;
        quantity = qty;
        remaining = 0;
        timestamp = 0;
        state = new;
      };
    }

    filled_in : Wal
    filled_in = record w { reusable_entry = entry }
