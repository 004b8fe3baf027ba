-- ===== src/Ems/ValidationPipeline/Limits.antt =====
-- The numbers of an order that the checks let pass.
use valyrian_stock_exchange.Prelude.{ℕ, ◌≤◌, ◌≡◌, true, false, arith}
use valyrian_stock_exchange.Prelude.Int.{pos_part}
use valyrian_stock_exchange.Ems.Types.{RawOrder, max_price}
use valyrian_stock_exchange.Ems.ValidationPipeline.{
  ValidationPipeline, accepted, is_change, price_fits, check_basic_validity, process,
}
use valyrian_stock_exchange.Ems.ValidationPipeline.Sound.{Passed, process-Sound}

price_fits-limit : (o : RawOrder) → price_fits o ≡ true → pos_part o.price ≤ max_price
unfolding price_fits
price_fits-limit o h = ground (arith, h)

pub record InLimits (o : RawOrder) : Type 0 where
  pub quantity : 1 ≤ o.qty
  pub price : pos_part o.price ≤ max_price

check_basic_validity-InLimits :
    (p : ValidationPipeline) (o : RawOrder)
    → check_basic_validity p o ≡ true
    → is_change o ≡ false
    → InLimits o
unfolding check_basic_validity
check_basic_validity-InLimits p o h new = record {
  quantity = ground (arith, h, new);
  price = price_fits-limit o (ground (arith, h, new));
}

-- A new order that the checks accept has a positive quantity and a price up to the highest one.
pub process-InLimits :
    (p : ValidationPipeline) (o : RawOrder) (now : ℕ)
    → (process p o now).0 ≡ accepted
    → is_change o ≡ false
    → InLimits o
process-InLimits p o now e new =
    let s : Passed p o now (process p o now).1.balance_cache = rw e at (process-Sound p o now) in
    check_basic_validity-InLimits p o s.valid new
