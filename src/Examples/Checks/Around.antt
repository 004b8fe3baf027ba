-- ===== src/Examples/Checks/Around.antt =====
-- The theorems on the server, the database writer, the candles and the keys of the tree.
use valyrian_stock_exchange.Prelude.{
  none, ℕ, ◌≤◌, ◌≡◌, refl, false, ◌==◌, ◌⊎◌, inl, inr, Option, some, List, [], ◌∷◌, All, arith,
}
use valyrian_stock_exchange.Prelude.Int.{pos}
use valyrian_stock_exchange.Ems.Types.{RawOrder}
use valyrian_stock_exchange.Ems.Spsc.Sample.{sample_queue}
use valyrian_stock_exchange.TradeServer.ConnTable.{ConnTable, new_table, assign, release}
use valyrian_stock_exchange.TradeServer.ConnTable.FreeList.{FreeList, new_table-FreeList}
use valyrian_stock_exchange.TradeServer.ConnTable.Assign.{
  Assigned, assign-Assigned, release-FreeList,
}
use valyrian_stock_exchange.TradeServer.WebSocketServer.{
  Body, new_order, Server, handle_flat_buffer_message,
}
use valyrian_stock_exchange.TradeServer.WebSocketServer.Submit.{Submitted}
use valyrian_stock_exchange.TradeServer.WebSocketServer.Sequence.{
  handle_flat_buffer_message-Submitted,
}
use valyrian_stock_exchange.TradeServer.WebSocketServer.Replay.{
  Event, message, cancellation, on_events, handle_flat_buffer_message-replayed,
}
use valyrian_stock_exchange.Events.{DbEvent, order_filled, order_cancelled}
use valyrian_stock_exchange.CoreTypes.{buy, limit, filled}
use valyrian_stock_exchange.Db.DbWriter.{DbWriter, run}
use valyrian_stock_exchange.Db.DbWriter.Batches.{all_rounds}
use valyrian_stock_exchange.Db.DbWriter.Stopped.{Stopped, Small, run-Stopped, run-Small}
use valyrian_stock_exchange.MarketData.CandleBuilder.{
  Trade, Candle, CandleBuilder, blank_candle, new_builder, on_trade,
}
use valyrian_stock_exchange.MarketData.CandleBuilder.Good.{Good, AllGood, on_trade-Good}
use valyrian_stock_exchange.MarketData.CandleBuilder.Volume.{Volumes, on_trade-Volumes}
use valyrian_stock_exchange.RadixTree.{make_key, price_from}
use valyrian_stock_exchange.RadixTree.Keys.{price_from-make_key, make_key-KeyLe}
use valyrian_stock_exchange.Examples.Checks.{pipeline}

-- A table of four slots: 1, 2 and 3 are free.
abbrev table : ConnTable
table = new_table 4

assign-Assigned_example :
    ((assign table 5).0 ≡ 1)
    × Assigned table (assign table 5).1 1 5
    × FreeList 4 (assign table 5).1 (2 ∷ 3 ∷ [])
assign-Assigned_example =
    assign-Assigned 4 table 5 1 (2 ∷ 3 ∷ []) (new_table-FreeList 4 (omega arith)) (omega arith)

-- The user 5 at the slot 1.
abbrev joined_table : ConnTable
joined_table = (assign table 5).1

joined_table-FreeList : FreeList 4 joined_table (2 ∷ 3 ∷ [])
joined_table-FreeList =
    (assign-Assigned 4 table 5 1 (2 ∷ 3 ∷ []) (new_table-FreeList 4 (omega arith)) (omega arith)).2

release-FreeList_example :
    FreeList 4 (release 4 joined_table 1) (1 ∷ 2 ∷ 3 ∷ [])
    × ((j : ℕ) → (j == 1) ≡ false → (release 4 joined_table 1).slots j ≡ joined_table.slots j)
unfolding assign new_table
release-FreeList_example =
    release-FreeList 4 joined_table 1 (2 ∷ 3 ∷ []) joined_table-FreeList (omega arith) (omega arith)
      refl (omega arith)

-- Every message is an order for three at 100, the seventh of its client.
abbrev any_order : List ℕ → Option Body
any_order bytes = some (new_order 1 7 (pos 100) 3 0 0)

abbrev server : Server (sample_queue RawOrder)
server = record {
  conns = joined_table;
  order_ids = 40;
  num_symbols = 2;
  server_seq = λ i. 1;
  num_workers = 2;
  queues = λ i. (sample_queue RawOrder).new_queue 1;
}

abbrev served : Server (sample_queue RawOrder)
served = handle_flat_buffer_message any_order server 5 1 (9 ∷ []) 20

handle_flat_buffer_message-Submitted_example : (served ≡ server) ⊎ Submitted server served 5
handle_flat_buffer_message-Submitted_example =
    handle_flat_buffer_message-Submitted any_order server 5 1 (9 ∷ []) 20

-- The first byte is the client's number.
abbrev numbered_order : List ℕ → Option Body
numbered_order [] = none
numbered_order (n ∷ rest) = some (new_order 1 n (pos 100) 3 0 0)

-- After the message 7, one with the number 8, one of another connection and a cancellation.
abbrev between : List Event
between = message 5 1 (8 ∷ []) 21 ∷ message 6 2 (7 ∷ []) 22 ∷ cancellation 5 1 40 23 ∷ []

abbrev busy_server : Server (sample_queue RawOrder)
busy_server =
    on_events numbered_order (handle_flat_buffer_message numbered_order server 5 1 (7 ∷ []) 20)
      between

handle_flat_buffer_message-replayed_example :
    handle_flat_buffer_message numbered_order busy_server 5 1 (7 ∷ []) 25 ≡ busy_server
handle_flat_buffer_message-replayed_example =
    handle_flat_buffer_message-replayed numbered_order server 5 1 (7 ∷ [])
      (new_order 1 7 (pos 100) 3 0 0) between 20 25 refl refl

abbrev fill_event : DbEvent
fill_event = record {
  wal_sequence = 1;
  type = order_filled;
  side = buy;
  order_type = limit;
  state = filled;
  order_id = 8;
  user_id = 5;
  symbol_id = 1;
  price = 100;
  qty = 3;
  remaining = 0;
  fill_price = 100;
  fill_qty = pos 3;
  timestamp = 4;
  peer_order_id = 7;
  peer_user_id = 2;
}

abbrev writer : DbWriter
writer = record { balance_cache = pipeline.balance_cache; batch = []; written = [] }

-- The first round comes before the time to flush.
abbrev rounds : List (List (List DbEvent) × ℕ)
rounds =
    ((fill_event ∷ []) ∷ [], 2)
    ∷ ([] ∷ (record fill_event { type = order_cancelled; remaining = 2 } ∷ []) ∷ [], 7)
    ∷ []

run-Stopped_example : Stopped writer (run writer rounds) (all_rounds rounds)
run-Stopped_example = run-Stopped writer rounds

run-Small_example : Small (run writer rounds)
run-Small_example = run-Small writer rounds (tt, omega arith)

abbrev a_trade : Trade
a_trade = record { symbol_id = 1; price = 100; qty = 3; ts = 7 }

on_trade-Good_example :
    (closed : List Candle) × (b' : CandleBuilder) × (on_trade (new_builder 2) a_trade
      ≡ some (closed, b'))
    × (b'.size ≡ (new_builder 2).size)
    × All Good closed
    × AllGood b'
unfolding new_builder
on_trade-Good_example = on_trade-Good (new_builder 2) a_trade (omega arith) (λ i. inl refl)

-- The candles of two symbols, all open since the time 1.
abbrev running : CandleBuilder
running = record { size = 6; candles = λ i. record blank_candle { open_ns = 1; volume = 7 } }

-- 100 seconds later the candle of a minute is closed, and the others go on.
abbrev later_trade : Trade
later_trade = record a_trade { ts = 100000000000 }

on_trade-Volumes_example : Volumes running later_trade
on_trade-Volumes_example = on_trade-Volumes running later_trade (omega arith) (omega arith)

price_from-make_key_example : price_from 0 (make_key 258) ≡ 258
price_from-make_key_example = price_from-make_key 258 (omega arith)

make_key-KeyLe_example : 257 ≤ 258
unfolding make_key
make_key-KeyLe_example = make_key-KeyLe 257 258 (omega arith) (omega arith) (
    inr (
      refl,
      inr (refl, inr (refl, inr (refl, inr (refl, inr (refl, inr (refl, inl (omega arith))))))),
    ))
