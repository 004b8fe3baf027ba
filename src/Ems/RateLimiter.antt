-- ===== src/Ems/RateLimiter.antt =====
-- ems/pipeline/RateLimiter.h, one thread at a time. `now` is what coarseTimeMs would return.
pub mod Bounded
use valyrian_stock_exchange.Prelude.{
  ℕ, ◌+◌, ◌-◌, ◌%◌, ◌^◌, ◌≤◌, ◌≡◌, Bool, true, false, ◌==◌, ltb, leb, if◌then◌else◌, arith,
}
use valyrian_stock_exchange.Ems.Types.{max_users}

pub record RateSlot : Type 0 where
  pub count : ℕ
  pub epoch : ℕ

pub record RateLimiter : Type 0 where
  pub max_in_window : ℕ
  pub slots : ℕ → RateSlot
  pub current_epoch : ℕ
  pub epoch_start_ms : ℕ
  pub global_ops : ℕ

pub new_limiter : ℕ → ℕ → RateLimiter
new_limiter max_in_window now = record {
  max_in_window = max_in_window;
  slots = λ u. record { count = 0; epoch = 0 };
  current_epoch = 0;
  epoch_start_ms = now;
  global_ops = 0;
}

-- Only every 1024th call looks at the clock.
unfoldable pub maybe_advance_epoch : RateLimiter → ℕ → RateLimiter
maybe_advance_epoch r now =
    let counted = record r { global_ops = (r.global_ops + 1) % 2 ^ 64 } in
    if r.global_ops % 1024 == 0
    then (if ltb ((now + 2 ^ 64 - r.epoch_start_ms) % 2 ^ 64) 1000
        then counted
        else record counted {
          current_epoch = (r.current_epoch + 1) % 2 ^ 64;
          epoch_start_ms = now;
        })
    else counted

-- The slot as it is once its epoch is the current one.
abbrev pub in_epoch : ℕ → RateSlot → RateSlot
in_epoch epoch slot =
    if slot.epoch == epoch % 2 ^ 32 then slot else record { count = 0; epoch = epoch % 2 ^ 32 }

abbrev pub put_slot : RateLimiter → ℕ → RateSlot → RateLimiter
put_slot r user_id slot = record r {
  slots = λ u. if u == user_id % max_users then slot else r.slots u;
}

take_token : RateLimiter → ℕ → RateSlot → Bool × RateLimiter
take_token r user_id slot =
    if leb r.max_in_window slot.count
    then (false, put_slot r user_id slot)
    else (true, put_slot r user_id (record slot { count = slot.count + 1 }))

unfoldable pub check_and_increment : RateLimiter → ℕ → ℕ → Bool × RateLimiter
unfolding maybe_advance_epoch take_token
check_and_increment r user_id now =
    let r1 = maybe_advance_epoch r now in
    take_token r1 user_id (in_epoch r1.current_epoch (r1.slots (user_id % max_users)))
