-- ===== src/Ems/ValidationPipeline.antt =====
-- ems/pipeline/ValidationPipeline.h. The order is not null.
pub mod Limits
pub mod Sound
pub mod MarketBuy
use valyrian_stock_exchange.Prelude.{
  ℕ, Bool, true, false, ◌==◌, ltb, leb, ◌&&◌, ◌||◌, not, if◌then◌else◌,
}
use valyrian_stock_exchange.Prelude.Int.{ℤ, pos, ◌*ℤ◌, ltb_ℤ, leb_ℤ}
use valyrian_stock_exchange.CoreTypes.{
  RejectReason, invalid_range, fat_finger, market_closed, rate_limit, invalid_tick, invalid_lot,
  insufficient_funds,
}
use valyrian_stock_exchange.Ems.Types.{
  RawOrder, int64, int32, min_price, max_price, min_qty, max_qty, fat_finger_limit,
}
use valyrian_stock_exchange.Ems.BalanceCache.{BalanceCache, try_block_funds, try_block_holdings}
use valyrian_stock_exchange.Ems.MarketState.{MarketState, is_symbol_open}
use valyrian_stock_exchange.Ems.RateLimiter.{RateLimiter, check_and_increment}
use valyrian_stock_exchange.Ems.SymbolCache.{SymbolCache, is_valid_tick, is_valid_lot}

pub record ValidationPipeline : Type 0 where
  pub rate_limiter : RateLimiter
  pub market_state : MarketState
  pub balance_cache : BalanceCache
  pub symbol_cache : SymbolCache

-- ACCEPT, or REJECT with its reason.
pub data Verdict : Type 0 where
  accepted : Verdict
  rejected : RejectReason → Verdict

-- A cancellation or a modification.
abbrev pub is_change : RawOrder → Bool
is_change o = not (o.cancel_flag == 0) || not (o.modify_flag == 0)

-- The raw codes 0 and 1 of the enumerations.
price_fits : RawOrder → Bool
price_fits o =
    if o.type == 0
    then not (ltb_ℤ o.price (pos min_price)) && not (ltb_ℤ (pos max_price) o.price)
    else if o.type == 1
    then leb_ℤ o.price (pos 0) && leb_ℤ (pos 0) o.price
    else false

unfoldable pub check_basic_validity : ValidationPipeline → RawOrder → Bool
unfolding price_fits
check_basic_validity p o =
    if is_change o
    then true
    else ltb o.symbol_id p.market_state.symbol_count
      && price_fits o
      && leb min_qty o.qty
      && leb o.qty max_qty
      && leb o.side 1

unfoldable pub check_fat_finger_notional : RawOrder → Bool
check_fat_finger_notional o =
    if is_change o || (o.type == 1)
    then true
    else leb_ℤ (int64 (o.price *ℤ pos o.qty)) (pos fat_finger_limit)

unfoldable pub check_market_state : ValidationPipeline → RawOrder → Bool
check_market_state p o = is_symbol_open p.market_state o.symbol_id

unfoldable pub check_rate_limit : ValidationPipeline → RawOrder → ℕ → Bool × RateLimiter
check_rate_limit p o now = check_and_increment p.rate_limiter o.user_id now

unfoldable pub check_tick_size : ValidationPipeline → RawOrder → Bool
check_tick_size p o =
    if is_change o || (o.type == 1) then true else is_valid_tick p.symbol_cache o.symbol_id o.price

unfoldable pub check_lot_size : ValidationPipeline → RawOrder → Bool
check_lot_size p o = is_valid_lot p.symbol_cache o.symbol_id o.qty

unfoldable pub check_balance : ValidationPipeline → RawOrder → Bool × BalanceCache
check_balance p o =
    if is_change o
    then (true, p.balance_cache)
    else if o.side == 0
    then try_block_funds p.balance_cache o.user_id (int64 (o.price *ℤ pos o.qty))
    else if o.side == 1
    then try_block_holdings p.balance_cache o.user_id o.symbol_id (int32 (pos o.qty))
    else (false, p.balance_cache)

-- The last three checks.
check_size_and_balance : ValidationPipeline → RawOrder → Verdict × ValidationPipeline
check_size_and_balance p o =
    if check_tick_size p o
    then (if check_lot_size p o
        then (let (funded, balances) = check_balance p o in
            (
              if funded then accepted else rejected insufficient_funds,
              record p { balance_cache = balances },
            ))
        else (rejected invalid_lot, p))
    else (rejected invalid_tick, p)

unfoldable pub process : ValidationPipeline → RawOrder → ℕ → Verdict × ValidationPipeline
unfolding check_size_and_balance
process p o now =
    if check_basic_validity p o
    then (if check_fat_finger_notional o
        then (if check_market_state p o
            then (let (within, limiter) = check_rate_limit p o now in
                let p1 = record p { rate_limiter = limiter } in
                if within then check_size_and_balance p1 o else (rejected rate_limit, p1))
            else (rejected market_closed, p))
        else (rejected fat_finger, p))
    else (rejected invalid_range, p)
