-- ===== src/Examples.antt =====
-- The theorems at a small book: four slots for orders, two for levels, and one sell order of five
-- at the price 100.
mod Checks
mod Handover
mod Levels
mod Sessions
use valyrian_stock_exchange.Prelude.{
  ℕ, ◌≡◌, refl, false, true, none, some, List, [], ◌∷◌, arith, inr,
}
use valyrian_stock_exchange.CoreTypes.{buy, sell, limit, new, Order}
use valyrian_stock_exchange.Outcome.{ok}
use valyrian_stock_exchange.PriceLevel.{PriceLevel, fifo_remove}
use valyrian_stock_exchange.PriceLevel.Laws.{OrderOk}
use valyrian_stock_exchange.Containers.Sample.{sample}
use valyrian_stock_exchange.OrderBook.{OrderBook, insert_at, remove_order, get_order_at_best_price}
use valyrian_stock_exchange.OrderBook.Valid.{Valid, SideValid, HeadOk}
use valyrian_stock_exchange.OrderBook.Views.{get_order_at_best_price-HeadOk}
use valyrian_stock_exchange.OrderBook.Settles.{Settles}
use valyrian_stock_exchange.OrderBook.Remove.{remove_order-Settles}
use valyrian_stock_exchange.OrderBook.Place.{Placed, insert_at-Placed}
use valyrian_stock_exchange.OrderBook.Find.{PointsTo}
use valyrian_stock_exchange.Wal.{LogEntry, add}
use valyrian_stock_exchange.Engine.State.{Engine}
use valyrian_stock_exchange.Engine.Match.{match_round, match_loop}
use valyrian_stock_exchange.Engine.Match.Progress.{RoundOk, match_round-RoundOk}
use valyrian_stock_exchange.Engine.Match.Loop.{Returns, match_loop-Returns}
use valyrian_stock_exchange.Engine.Match.Trades.{Trading}
use valyrian_stock_exchange.Engine.Match.Trades.Loop.{match_loop-Trading}
use valyrian_stock_exchange.Engine.Change.{on_cancel_order}
use valyrian_stock_exchange.Engine.Change.Cancel.{Cancelled, on_cancel_order-Cancelled}
use valyrian_stock_exchange.Engine.NewOrder.{on_new_order, settle}
use valyrian_stock_exchange.Engine.NewOrder.Settle.{Gone}
use valyrian_stock_exchange.Engine.NewOrder.Refused.{settle-Refused}
use valyrian_stock_exchange.Engine.NewOrder.Returns.{Handled, on_new_order-Handled}

abbrev resting : Order
resting = record {
  slot = 3;
  order_id = 7;
  user_id = 2;
  side = sell;
  type = limit;
  price = 100;
  quantity = 5;
  remaining = 5;
  timestamp = 1;
  state = new;
}

abbrev arriving : Order
arriving = record {
  slot = 0;
  order_id = 8;
  user_id = 1;
  side = buy;
  type = limit;
  price = 101;
  quantity = 8;
  remaining = 8;
  timestamp = 2;
  state = new;
}

abbrev level_100 : PriceLevel
level_100 = record { slot = 1; price = 100; aggregated_qty = 5; orders = resting ∷ [] }

unfoldable pub book_with : List ℕ → OrderBook sample
unfolding sample
book_with free = record {
  order_pool = record { capacity = 4; free_list = free };
  price_level_pool = record { capacity = 2; free_list = 0 ∷ [] };
  order_index = (7, record { side = sell; price = 100; slot = 3 }) ∷ [];
  buy_book = [];
  sell_book = (100, level_100) ∷ [];
  best_bid = none;
  best_ask = some 100;
}

abbrev blank : LogEntry
blank = record {
  action = add;
  fields = record {
    order_id = 0;
    user_id = 0;
    side = buy;
    type = limit;
    price = 0;
    quantity = 0;
    remaining = 0;
    timestamp = 0;
    state = new;
    peer_order_id = 0;
  };
}

abbrev pub engine_with : OrderBook sample → Engine sample
engine_with b = record {
  book = b;
  wal = record {
    entries = [];
    trades = [];
    reusable_entry = blank;
    last_seq = 0;
    disk = [];
    openings = [];
  };
  is_recovering = false;
  in_modify = false;
  connected = true;
  symbol_id = 1;
  order_events = [];
  trade_events = [];
  db_events = [];
  book_updates = [];
}

resting-OrderOk : OrderOk sell 100 resting
resting-OrderOk = record {
  on_side = refl;
  at_price = refl;
  open_quantity = omega arith;
  within = omega arith;
  is_limit = refl;
}

arriving-OrderOk : OrderOk buy 101 arriving
arriving-OrderOk = record {
  on_side = refl;
  at_price = refl;
  open_quantity = omega arith;
  within = omega arith;
  is_limit = refl;
}

asks-SideValid : SideValid sell (some 100) ((100, level_100) ∷ [])
asks-SideValid = record {
  levels = (
    record {
      priced = refl;
      in_range = omega arith;
      occupied = λ h. cc;
      covered = omega arith;
      all_ok = (resting-OrderOk, tt);
    },
    tt,
  );
  best_ok = ((level_100, refl), (omega arith, tt));
}

-- One order is allocated and does not rest.
abbrev book_1 : OrderBook sample
book_1 = book_with (1 ∷ 2 ∷ [])

abbrev pub book_0 : OrderBook sample
book_0 = book_with (0 ∷ 1 ∷ 2 ∷ [])

book_1-Valid : Valid sample 1 book_1
unfolding book_with sample
book_1-Valid = record {
  bids = record { levels = tt; best_ok = refl };
  asks = asks-SideValid;
  orders_kept = refl;
  levels_kept = refl;
}

pub book_0-Valid : Valid sample 0 book_0
unfolding book_with sample
book_0-Valid = record {
  bids = record { levels = tt; best_ok = refl };
  asks = asks-SideValid;
  orders_kept = refl;
  levels_kept = refl;
}

on_new_order-Handled_example :
    Handled
      (engine_with book_0)
      8
      1
      buy
      limit
      101
      8
      2
      (on_new_order 3 (engine_with book_0) 8 1 buy limit 101 8 2 9)
unfolding book_with sample
on_new_order-Handled_example =
    on_new_order-Handled 3 (engine_with book_0) 8 1 buy limit 101 8 2 9 book_0-Valid refl
      (omega arith) (omega arith) (omega arith)

-- The next write fails.
abbrev failing : Engine sample
failing = record (engine_with book_1) {
  wal = record ((engine_with book_1).wal) { disk = false ∷ [] };
}

abbrev filled_order : Order
filled_order = record arriving { remaining = 0 }

settle-Refused_example : Gone failing 0 false (settle failing filled_order 2)
settle-Refused_example =
    settle-Refused failing filled_order 2 [] book_1-Valid refl refl (omega arith) (inr refl)

match_loop-Returns_example :
    Returns (engine_with book_1) arriving (match_loop 3 (engine_with book_1) arriving 2)
unfolding book_with sample
match_loop-Returns_example =
    match_loop-Returns 3 (engine_with book_1) arriving 2 book_1-Valid (omega arith)

-- The run whose trades are looked at.
crossing : Returns (engine_with book_1) arriving (match_loop 3 (engine_with book_1) arriving 2)
unfolding book_with sample
crossing = match_loop-Returns 3 (engine_with book_1) arriving 2 book_1-Valid (omega arith)

match_loop-Trading_example : Trading (engine_with book_1) arriving crossing.engine crossing.order
match_loop-Trading_example =
    match_loop-Trading 3 (engine_with book_1) arriving 2
      (record { connected = refl; running = refl }) crossing.returned

match_round-RoundOk_example :
    RoundOk (engine_with book_1) arriving (match_round (engine_with book_1) arriving 2)
match_round-RoundOk_example = match_round-RoundOk (engine_with book_1) arriving 2 book_1-Valid

insert_at-Placed_example :
    Placed sample 0 book_1 buy arriving (insert_at sample book_1 buy arriving)
insert_at-Placed_example =
    insert_at-Placed sample book_1 buy arriving book_1-Valid arriving-OrderOk (omega arith)

remove_order-Settles_example :
    (b' : OrderBook sample) × (remove_order sample book_0 resting ≡ ok b')
    × Valid sample 0 b'
    × Settles sample book_0 sell 100 3 (fifo_remove level_100 resting) b'
    × (b'.order_index ≡ sample.erase_id book_0.order_index 7)
unfolding book_with sample
remove_order-Settles_example = remove_order-Settles sample resting level_100 book_0-Valid refl refl

get_order_at_best_price-HeadOk_example :
    HeadOk sell (some 100) ((100, level_100) ∷ []) (get_order_at_best_price sample book_0 sell)
unfolding book_with sample
get_order_at_best_price-HeadOk_example =
    get_order_at_best_price-HeadOk sample book_0 sell asks-SideValid

resting-PointsTo : PointsTo sample book_0 7 resting level_100
unfolding book_with sample
resting-PointsTo = record {
  ptr = record { side = sell; price = 100; slot = 3 };
  indexed = refl;
  in_range = omega arith;
  found = refl;
  standing = refl;
}

on_cancel_order-Cancelled_example :
    Cancelled 0 (engine_with book_0) resting level_100 (on_cancel_order (engine_with book_0) 7 9)
on_cancel_order-Cancelled_example =
    on_cancel_order-Cancelled (engine_with book_0) 7 9 resting level_100 book_0-Valid refl
      resting-PointsTo refl
