-- ===== src/Ems/ValidationPipeline/Sound.antt =====
-- What the verdict of ems/pipeline/ValidationPipeline.h means.
use valyrian_stock_exchange.Prelude.{ℕ, ◌≡◌, refl, true, false, Bool-cases, inl, inr, arith, ◌==◌}
use valyrian_stock_exchange.Prelude.Int.{ℤ, pos, ◌*ℤ◌}
use valyrian_stock_exchange.Ems.Types.{RawOrder, int64, int32}
use valyrian_stock_exchange.Ems.BalanceCache.{BalanceCache, try_block_funds, try_block_holdings}
use valyrian_stock_exchange.Ems.RateLimiter.{RateLimiter}
use valyrian_stock_exchange.Ems.ValidationPipeline.{
  ValidationPipeline, Verdict, accepted, rejected, is_change, check_basic_validity,
  check_fat_finger_notional, check_market_state, check_rate_limit, check_tick_size, check_lot_size,
  check_balance, check_size_and_balance, process,
}

-- Every check lets the order pass, and the balances are those after the last one.
pub record Passed (p : ValidationPipeline) (o : RawOrder) (now : ℕ) (after : BalanceCache)
    : Type 0 where
  pub valid : check_basic_validity p o ≡ true
  pub sane : check_fat_finger_notional o ≡ true
  pub open_market : check_market_state p o ≡ true
  pub within_rate : (check_rate_limit p o now).0 ≡ true
  pub on_tick : check_tick_size p o ≡ true
  pub whole_lots : check_lot_size p o ≡ true
  pub funded : (check_balance p o).0 ≡ true
  pub blocked : after ≡ (check_balance p o).1

-- A rejected order has blocked nothing.
abbrev pub Sound : ValidationPipeline → RawOrder → ℕ → Verdict → BalanceCache → Type 0
Sound p o now accepted after = Passed p o now after
Sound p o now (rejected r) after = after ≡ p.balance_cache

try_block_funds-refused :
    (c : BalanceCache) (user_id : ℕ) (amount : ℤ)
    → (try_block_funds c user_id amount).0 ≡ false
    → (try_block_funds c user_id amount).1 ≡ c
unfolding try_block_funds
try_block_funds-refused c user_id amount h = ground arith

try_block_holdings-refused :
    (c : BalanceCache) (user_id symbol_id : ℕ) (qty : ℤ)
    → (try_block_holdings c user_id symbol_id qty).0 ≡ false
    → (try_block_holdings c user_id symbol_id qty).1 ≡ c
unfolding try_block_holdings
try_block_holdings-refused c user_id symbol_id qty h = ground arith

check_balance-refused :
    (p : ValidationPipeline) (o : RawOrder)
    → (check_balance p o).0 ≡ false
    → (check_balance p o).1 ≡ p.balance_cache
unfolding check_balance
check_balance-refused p o h = elim (Bool-cases (is_change o)) [
  | inl change ↦ rw (check_balance, change)
  | inr fresh ↦ elim (Bool-cases (o.side == 0)) [
    | inl bought ↦
        rw (check_balance, fresh, bought)
          (try_block_funds-refused p.balance_cache o.user_id (int64 (o.price *ℤ pos o.qty))
            (rw (check_balance, fresh, bought) at h))
    | inr other ↦ elim (Bool-cases (o.side == 1)) [
      | inl sold ↦
          rw (check_balance, fresh, other, sold)
            (try_block_holdings-refused p.balance_cache o.user_id o.symbol_id (int32 (pos o.qty))
              (rw (check_balance, fresh, other, sold) at h))
      | inr neither ↦ rw (check_balance, fresh, other, neither)
    ]
  ]
]

-- The checks after the one of the rate do not look at the limiter.
abbrev limited : ValidationPipeline → RateLimiter → ValidationPipeline
limited p r = record p { rate_limiter = r }

check_tick_size-limited :
    (p : ValidationPipeline) (r : RateLimiter) (o : RawOrder)
    → check_tick_size (limited p r) o ≡ check_tick_size p o
unfolding check_tick_size
check_tick_size-limited p r o = refl

check_lot_size-limited :
    (p : ValidationPipeline) (r : RateLimiter) (o : RawOrder)
    → check_lot_size (limited p r) o ≡ check_lot_size p o
unfolding check_lot_size
check_lot_size-limited p r o = refl

check_balance-limited :
    (p : ValidationPipeline) (r : RateLimiter) (o : RawOrder)
    → check_balance (limited p r) o ≡ check_balance p o
unfolding check_balance
check_balance-limited p r o = refl

last_checks-Sound :
    (p : ValidationPipeline) (o : RawOrder) (now : ℕ) (r : RateLimiter)
    → check_basic_validity p o ≡ true
    → check_fat_finger_notional o ≡ true
    → check_market_state p o ≡ true
    → (check_rate_limit p o now).0 ≡ true
    → Sound p o now
        (check_size_and_balance (limited p r) o).0
        (check_size_and_balance (limited p r) o).1.balance_cache
unfolding check_size_and_balance
last_checks-Sound p o now r valid sane opened within = elim (Bool-cases (check_tick_size p o)) [
  | inr off ↦ rw (check_tick_size-limited p r o, off)
  | inl tick ↦ elim (Bool-cases (check_lot_size p o)) [
    | inr odd ↦ rw (check_tick_size-limited p r o, tick, check_lot_size-limited p r o, odd)
    | inl lots ↦ elim (Bool-cases (check_balance p o).0) [
      | inr poor ↦
          rw
            (
              check_tick_size-limited p r o,
              tick,
              check_lot_size-limited p r o,
              lots,
              check_balance-limited p r o,
              poor,
            )
            (check_balance-refused p o poor)
      | inl rich ↦
          rw
            (
              check_tick_size-limited p r o,
              tick,
              check_lot_size-limited p r o,
              lots,
              check_balance-limited p r o,
              rich,
            )
            (record {
              valid = valid;
              sane = sane;
              open_market = opened;
              within_rate = within;
              on_tick = tick;
              whole_lots = lots;
              funded = rich;
              blocked = refl;
            })
    ]
  ]
]

-- An order is accepted only if all seven checks let it pass, and the balances are then those that
-- the check of the balance leaves; a rejected order, whatever the reason, leaves all balances as
-- they were.
pub process-Sound :
    (p : ValidationPipeline) (o : RawOrder) (now : ℕ)
    → Sound p o now (process p o now).0 (process p o now).1.balance_cache
unfolding process
process-Sound p o now = elim (Bool-cases (check_basic_validity p o)) [
  | inr no_range ↦ rw (process, no_range)
  | inl range ↦ elim (Bool-cases (check_fat_finger_notional o)) [
    | inr fat ↦ rw (process, range, fat)
    | inl sane ↦ elim (Bool-cases (check_market_state p o)) [
      | inr closed ↦ rw (process, range, sane, closed)
      | inl opened ↦ elim (Bool-cases (check_rate_limit p o now).0) [
        | inr fast ↦ rw (process, range, sane, opened, fast)
        | inl within ↦
            rw (process, range, sane, opened, within)
              (last_checks-Sound p o now (check_rate_limit p o now).1 range sane opened within)
      ]
    ]
  ]
]
