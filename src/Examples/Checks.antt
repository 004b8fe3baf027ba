-- ===== src/Examples/Checks.antt =====
-- The theorems on the checks in front of the engines, at a market of two symbols in which the user 5
-- has 1000 units of money.
mod Flow
mod Around
use valyrian_stock_exchange.Prelude.{
  ℕ, ◌≡◌, refl, true, false, ◌%◌, arith, ◌==◌, if◌then◌else◌, [], ◌∷◌,
}
use valyrian_stock_exchange.Prelude.Int.{pos}
use valyrian_stock_exchange.Ems.Types.{RawOrder}
use valyrian_stock_exchange.Ems.BalanceCache.{BalanceCache, try_block_funds, holdings_slot}
use valyrian_stock_exchange.Ems.BalanceCache.Funds.{Funded, try_block_funds-Funded}
use valyrian_stock_exchange.Ems.BalanceCache.Slots.{holdings_slot-distinct}
use valyrian_stock_exchange.Ems.RejectionBitset.{
  no_rejections, mark_rejected, try_consume_rejected, zero_based,
}
use valyrian_stock_exchange.Ems.RejectionBitset.Window.{
  try_consume_rejected-mark_rejected, try_consume_rejected-twice,
}
use valyrian_stock_exchange.Ems.MarketState.{new_market}
use valyrian_stock_exchange.Ems.RateLimiter.{RateLimiter, check_and_increment}
use valyrian_stock_exchange.Ems.RateLimiter.Bounded.{Bounded, check_and_increment-Bounded}
use valyrian_stock_exchange.Ems.SymbolCache.{load_from_list}
use valyrian_stock_exchange.Ems.ValidationPipeline.{ValidationPipeline, process}
use valyrian_stock_exchange.Ems.ValidationPipeline.Sound.{Sound, process-Sound}
use valyrian_stock_exchange.Ems.ValidationPipeline.MarketBuy.{process-market_buy}

abbrev limiter : RateLimiter
limiter = record {
  max_in_window = 2;
  slots = λ u. record { count = 1; epoch = 0 };
  current_epoch = 0;
  epoch_start_ms = 10;
  global_ops = 3;
}

abbrev funds : BalanceCache
funds = record {
  num_symbols = 2;
  balances = λ u. record { available = pos (if u == 5 then 1000 else 0); blocked = pos 0 };
  holdings = λ g i. record { available_qty = pos 0; blocked_qty = pos 0 };
}

abbrev totals : ℕ → ℕ
totals u = if u == 5 then 1000 else 0

abbrev pub pipeline : ValidationPipeline
pipeline = record {
  rate_limiter = limiter;
  market_state = new_market 2 true;
  balance_cache = funds;
  symbol_cache =
      load_from_list
        (record { symbol_id = 1; ticker = 9; tick_size = 5; lot_size = 1; is_active = true } ∷ []);
}

abbrev pub limit_buy : RawOrder
limit_buy = record {
  sequence = 1;
  order_id = 8;
  user_id = 5;
  symbol_id = 1;
  price = pos 100;
  qty = 3;
  side = 0;
  type = 0;
  cancel_flag = 0;
  modify_flag = 0;
  timestamp = 4;
}

abbrev pub market_buy : RawOrder
market_buy = record limit_buy { price = pos 0; type = 1 }

check_and_increment-Bounded_example : Bounded (check_and_increment limiter 5 20).1
check_and_increment-Bounded_example = check_and_increment-Bounded limiter 5 20 (λ u. omega arith)

funds-Funded : Funded funds totals
funds-Funded u = (totals u, 0, refl, omega arith)

try_block_funds-Funded_example : Funded (try_block_funds funds 5 (pos 300)).1 totals
try_block_funds-Funded_example =
    try_block_funds-Funded funds 5 (pos 300) totals funds-Funded (λ u. ground arith)

process-Sound_example :
    Sound pipeline limit_buy 20
      (process pipeline limit_buy 20).0
      (process pipeline limit_buy 20).1.balance_cache
process-Sound_example = process-Sound pipeline limit_buy 20

process-market_buy_example :
    (process pipeline market_buy 20).1.balance_cache ≡ pipeline.balance_cache
process-market_buy_example = process-market_buy pipeline market_buy 20 refl refl refl refl

abbrev last_symbol : ℕ
last_symbol = 1

-- The users 5 and 131077 share their slots.
holdings_slot-distinct_example : (5 % 131072 ≡ 131077 % 131072) × (last_symbol ≡ last_symbol)
unfolding holdings_slot
holdings_slot-distinct_example =
    holdings_slot-distinct funds 5 131077 last_symbol last_symbol (omega arith) (omega arith) refl

try_consume_rejected-mark_rejected_example :
    (try_consume_rejected (mark_rejected no_rejections 7) 4103).0 ≡ (
      if zero_based 4103 % 4096 == zero_based 7 % 4096
      then true
      else (try_consume_rejected no_rejections 4103).0)
try_consume_rejected-mark_rejected_example = try_consume_rejected-mark_rejected no_rejections 7 4103

try_consume_rejected-twice_example :
    (try_consume_rejected (try_consume_rejected (mark_rejected no_rejections 7) 7).1 7).0 ≡ false
try_consume_rejected-twice_example = try_consume_rejected-twice (mark_rejected no_rejections 7) 7
