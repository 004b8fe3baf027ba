-- ===== src/Examples/Handover.antt =====
-- The theorem on an order between the checks and the engine, at the small book.
use valyrian_stock_exchange.Prelude.{◌≡◌, ◌+◌, ◌<◌, refl, arith}
use valyrian_stock_exchange.CoreTypes.{Side, buy, sell}
use valyrian_stock_exchange.Containers.Sample.{sample}
use valyrian_stock_exchange.OrderBook.Valid.{side_of, order_count}
use valyrian_stock_exchange.Engine.Handlers.{hand_over}
use valyrian_stock_exchange.Engine.Handlers.Accepted.{Survives, hand_over-Survives}
use valyrian_stock_exchange.Ems.IngressWorker.{slot_of}
use valyrian_stock_exchange.Ems.ValidationPipeline.{
  process, accepted, check_basic_validity, check_fat_finger_notional, check_market_state,
  check_rate_limit, check_tick_size, check_lot_size, check_balance,
}
use valyrian_stock_exchange.Ems.MarketState.{is_symbol_open, new_market}
use valyrian_stock_exchange.Ems.RateLimiter.{check_and_increment, maybe_advance_epoch}
use valyrian_stock_exchange.Ems.SymbolCache.{
  is_valid_tick, is_valid_lot, find_by_id, load_from_list,
}
use valyrian_stock_exchange.Ems.BalanceCache.{try_block_funds}
use valyrian_stock_exchange.Ems.Types.{wrap_at}
use valyrian_stock_exchange.Prelude.Int.{◌*ℤ◌}
use valyrian_stock_exchange.Examples.{engine_with, book_0, book_with, book_0-Valid}
use valyrian_stock_exchange.Examples.Checks.{pipeline, limit_buy}

limit_buy-accepted : (process pipeline limit_buy 20).0 ≡ accepted
unfolding process check_basic_validity check_fat_finger_notional check_market_state check_rate_limit
    check_tick_size check_lot_size check_balance is_symbol_open check_and_increment
    maybe_advance_epoch is_valid_tick is_valid_lot find_by_id try_block_funds load_from_list
    new_market wrap_at ◌*ℤ◌
limit_buy-accepted = refl

few_orders : (s : Side) → order_count (side_of sample book_0 s) + 1 < 3
unfolding book_with sample
few_orders buy = omega arith
few_orders sell = omega arith

hand_over-Survives_example :
    Survives (hand_over sample 3 (engine_with book_0) (slot_of limit_buy) 30)
hand_over-Survives_example =
    hand_over-Survives 3 pipeline limit_buy 20 30 (engine_with book_0) limit_buy-accepted refl
      book_0-Valid refl few_orders
