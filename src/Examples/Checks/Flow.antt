-- ===== src/Examples/Checks/Flow.antt =====
-- The theorems on the way from a worker to an engine, with an engine that lists the orders it gets.
use valyrian_stock_exchange.Prelude.{ℕ, ◌≡◌, refl, true, some, List, [], ◌∷◌, ◌++◌, arith}
use valyrian_stock_exchange.Prelude.Int.{pos}
use valyrian_stock_exchange.Ems.Types.{RawOrder, OrderSlot}
use valyrian_stock_exchange.Ems.Disruptor.Sample.{sample_ring}
use valyrian_stock_exchange.Ems.MpscRingBuffer.{
  normalize_size, claim_slot, publish, fill, is_available, get, release_slot,
}
use valyrian_stock_exchange.Ems.MpscRingBuffer.Moves.{put_order}
use valyrian_stock_exchange.Ems.MpscRingBuffer.Size.{Normalized, normalize_size-Normalized}
use valyrian_stock_exchange.Ems.Dispatcher.{
  Handlers, Lane, new_lane, deliver, turn, take_slot, finish_turn, paused,
}
use valyrian_stock_exchange.Ems.Dispatcher.Fresh.{nothing_yet, new_lane-Backlog, new_lane-InOrder}
use valyrian_stock_exchange.Ems.Dispatcher.Order.{
  InOrder, Step, accepts, delivers, here, next, Reach-InOrder,
}
use valyrian_stock_exchange.Ems.Dispatcher.Stuck.{
  Stuck, marks, puts, arrive, arrive_all, arrive_all-Stuck,
}
use valyrian_stock_exchange.Ems.Dispatcher.Drain.{deliver_all}
use valyrian_stock_exchange.Ems.IngressWorker.{Ingress, new_router, route, slot_of}
use valyrian_stock_exchange.Ems.IngressWorker.Judge.{judge}
use valyrian_stock_exchange.Ems.IngressWorker.Ready.{Ready}
use valyrian_stock_exchange.Ems.IngressWorker.FromQueue.{orders_of}
use valyrian_stock_exchange.Ems.Spsc.Sample.{sample_queue}
use valyrian_stock_exchange.Ems.OrderQueue.{enqueue}
use valyrian_stock_exchange.Ems.IngressWorker.EndToEnd.{Served, work_all-Served}
use valyrian_stock_exchange.Ems.ValidationPipeline.{
  process, check_basic_validity, check_fat_finger_notional, check_market_state, check_rate_limit,
  check_tick_size, check_lot_size, check_balance,
}
use valyrian_stock_exchange.Ems.MarketState.{is_symbol_open, new_market}
use valyrian_stock_exchange.Ems.RateLimiter.{check_and_increment, maybe_advance_epoch}
use valyrian_stock_exchange.Ems.SymbolCache.{
  is_valid_tick, is_valid_lot, find_by_id, load_from_list,
}
use valyrian_stock_exchange.Ems.BalanceCache.{try_block_funds}
use valyrian_stock_exchange.Ems.Types.{wrap_at}
use valyrian_stock_exchange.Prelude.Int.{◌*ℤ◌}
use valyrian_stock_exchange.Ems.RejectionBitset.{no_rejections, try_consume_rejected}
use valyrian_stock_exchange.Examples.Checks.{pipeline, limit_buy}

-- An engine that never ends the process.
abbrev listing : Handlers
listing = record {
  State = List ℕ;
  on_cancel_order = λ ids order_id now. some (order_id ∷ ids);
  on_modify_order = λ ids order_id price qty now. some (order_id ∷ ids);
  on_new_order = λ ids order_id user_id side type price qty timestamp now. some (order_id ∷ ids);
}

abbrev fresh_lane : Lane sample_ring listing
fresh_lane = new_lane 4096 []

abbrev worker : Ingress sample_ring listing
worker = record {
  pipeline = pipeline;
  router = new_router 2;
  callback = true;
  rejects = [];
  lanes = λ i. fresh_lane;
}

-- The second one has a price off the tick and is rejected.
abbrev orders : List (RawOrder × ℕ)
orders =
    (record limit_buy { sequence = 1 }, 20)
    ∷ (record limit_buy { sequence = 2; order_id = 12; price = pos 101 }, 20)
    ∷ []

normalize_size-Normalized_example : Normalized (normalize_size 4096) 4096
normalize_size-Normalized_example = normalize_size-Normalized 4096 (omega arith)

worker-Ready : Ready worker 1 1 [] 2
unfolding new_lane route new_router normalize_size sample_ring
worker-Ready = record {
  routed = refl;
  backlog = new_lane-Backlog 4096 [];
  room = omega arith;
  ring_room = omega arith;
  small = omega arith;
  ring_small = omega arith;
}

abbrev listed : List ℕ
listed = 8 ∷ []

-- An order of another symbol stands behind them.
abbrev last_order : RawOrder
last_order = record limit_buy { sequence = 1; symbol_id = 0 }

abbrev queued : (sample_queue RawOrder).Queue
queued = enqueue_all ((sample_queue RawOrder).new_queue 4)
  where
    put : RawOrder → (sample_queue RawOrder).Queue → (sample_queue RawOrder).Queue
    put o q = (enqueue (sample_queue RawOrder) q o).1

    enqueue_all : (sample_queue RawOrder).Queue → (sample_queue RawOrder).Queue
    enqueue_all q = put last_order (
        put (record limit_buy { sequence = 2; order_id = 12; price = pos 101 })
          (put (record limit_buy { sequence = 1 }) q))

queued-contents : (sample_queue RawOrder).contents queued ≡ orders_of orders ++ (last_order ∷ [])
unfolding enqueue sample_queue
queued-contents = refl

work_all-Served_example :
    Served (sample_queue RawOrder) worker queued 1 orders (last_order ∷ []) (30 ∷ 31 ∷ []) listed
unfolding new_lane deliver_all judge process check_basic_validity check_fat_finger_notional
    check_market_state check_rate_limit check_tick_size check_lot_size check_balance is_symbol_open
    check_and_increment maybe_advance_epoch is_valid_tick is_valid_lot find_by_id try_block_funds
    load_from_list deliver new_market wrap_at ◌*ℤ◌
work_all-Served_example =
    work_all-Served (sample_queue RawOrder) worker queued 1 1 orders (last_order ∷ [])
      (30 ∷ 31 ∷ []) listed queued-contents worker-Ready (refl, refl, (refl, refl, tt)) refl refl

abbrev first : OrderSlot
first = slot_of limit_buy

-- The lane with the order, and after it is delivered.
abbrev loaded : Lane sample_ring listing
loaded = arrive fresh_lane (puts first)

abbrev worked_off : Lane sample_ring listing
worked_off = record loaded {
  engine = 8 ∷ [];
  ring = release_slot sample_ring loaded.ring 1;
  next_ring_sequence = 2;
  next_server_sequence = 2;
}

loaded-Step : Step fresh_lane loaded nothing_yet (record { accepted = first ∷ []; handed = [] })
unfolding new_lane arrive normalize_size sample_ring put_order claim_slot publish fill
loaded-Step = accepts first loaded.ring refl (omega arith) refl refl

worked_off-Step :
    Step loaded worked_off
      (record { accepted = first ∷ []; handed = [] })
      (record { accepted = first ∷ []; handed = first ∷ [] })
unfolding new_lane arrive normalize_size sample_ring put_order claim_slot publish fill turn
    try_consume_rejected no_rejections is_available take_slot get finish_turn deliver release_slot
worked_off-Step = delivers 20 first refl (omega arith) refl

Reach-InOrder_example :
    InOrder [] worked_off (record { accepted = first ∷ []; handed = first ∷ [] })
Reach-InOrder_example =
    Reach-InOrder (new_lane-InOrder 4096 []) (next (next here loaded-Step) worked_off-Step)

-- The order with the number 2 came to the ring first, from another worker.
abbrev overtaken : Lane sample_ring listing
overtaken = arrive fresh_lane (puts (record first { sequence = 2 }))

overtaken-Stuck : Stuck overtaken 2
unfolding new_lane arrive normalize_size sample_ring put_order claim_slot publish fill no_rejections
overtaken-Stuck = record {
  front = record first { sequence = 2 };
  behind = [];
  ring = record {
    starts = omega arith;
    released = omega arith;
    fits = omega arith;
    from = (refl, refl, refl);
    fresh = λ i le. ground arith;
  };
  other = refl;
  unmarked = refl;
  small = omega arith;
}

arrive_all-Stuck_example : turn (arrive_all overtaken (puts first ∷ marks 3 ∷ [])) 20 ≡ paused
unfolding new_lane arrive normalize_size sample_ring put_order claim_slot publish fill no_rejections
arrive_all-Stuck_example =
    arrive_all-Stuck overtaken (puts first ∷ marks 3 ∷ []) 20 overtaken-Stuck (tt, (refl, tt))
