-- ===== src/Ems/ValidationPipeline/MarketBuy.antt =====
-- Market orders to buy in ems/pipeline/ValidationPipeline.h.
use valyrian_stock_exchange.Prelude.{ℕ, ◌≡◌, refl, ◌∙◌, true, arith}
use valyrian_stock_exchange.Prelude.Int.{pos, ◌*ℤ◌}
use valyrian_stock_exchange.Ems.Types.{RawOrder, int64, wrap_at}
use valyrian_stock_exchange.Ems.BalanceCache.{BalanceCache, try_block_funds}
use valyrian_stock_exchange.Ems.ValidationPipeline.{
  ValidationPipeline, Verdict, accepted, rejected, price_fits, check_basic_validity, check_balance,
  process,
}
use valyrian_stock_exchange.Ems.ValidationPipeline.Sound.{Sound, process-Sound}

no_price : (qty : ℕ) → int64 (pos 0 *ℤ pos qty) ≡ pos 0
unfolding wrap_at ◌*ℤ◌
no_price qty = ground arith

blocks_nothing : (c : BalanceCache) (user_id : ℕ) → try_block_funds c user_id (pos 0) ≡ (true, c)
unfolding try_block_funds
blocks_nothing c user_id = refl

market_price :
    (p : ValidationPipeline) (o : RawOrder)
    → o.cancel_flag ≡ 0
    → o.modify_flag ≡ 0
    → o.type ≡ 1
    → check_basic_validity p o ≡ true
    → o.price ≡ pos 0
unfolding check_basic_validity price_fits
market_price p o no_cancel no_modify market valid =
    ground (arith, no_cancel, no_modify, market, valid)

market_buy-check_balance :
    (p : ValidationPipeline) (o : RawOrder)
    → o.cancel_flag ≡ 0
    → o.modify_flag ≡ 0
    → o.side ≡ 0
    → o.price ≡ pos 0
    → (check_balance p o).1 ≡ p.balance_cache
unfolding check_balance
market_buy-check_balance p o no_cancel no_modify bought free = rw (
  no_cancel,
  no_modify,
  bought,
  free,
  no_price o.qty,
  blocks_nothing p.balance_cache o.user_id,
  check_balance,
)

-- A new market order to buy leaves all balances as they were, accepted or not: no funds are blocked
-- for it.
pub process-market_buy :
    (p : ValidationPipeline) (o : RawOrder) (now : ℕ)
    → o.cancel_flag ≡ 0
    → o.modify_flag ≡ 0
    → o.side ≡ 0
    → o.type ≡ 1
    → (process p o now).1.balance_cache ≡ p.balance_cache
process-market_buy p o now no_cancel no_modify bought market =
    go (process p o now).0 (process p o now).1.balance_cache (process-Sound p o now)
  where
    go : (v : Verdict) (after : BalanceCache) → Sound p o now v after → after ≡ p.balance_cache
    go accepted after h =
        h.blocked
        ∙ market_buy-check_balance p o no_cancel no_modify bought
            (market_price p o no_cancel no_modify market h.valid)
    go (rejected r) after h = h
