-- ===== src/Ems/Types.antt =====
-- ems/config/EMSConfig.h, ems/types/RawOrder.h, ems/types/OrderSlot.h, and the signed words that the checks compute with.
use valyrian_stock_exchange.Prelude.{ℕ, ◌+◌, ◌-◌, ◌%◌, ◌^◌, ltb, if◌then◌else◌}
use valyrian_stock_exchange.Prelude.Int.{ℤ, pos, pos_part, neg_part, sub_ℕ}

abbrev pub max_users : ℕ
max_users = 2 ^ 17

abbrev pub fat_finger_limit : ℕ
fat_finger_limit = 1000000000000

abbrev pub max_orders_per_sec : ℕ
max_orders_per_sec = 100000

abbrev pub min_price : ℕ
min_price = 1

abbrev pub max_price : ℕ
max_price = 1000000000

abbrev pub min_qty : ℕ
min_qty = 1

abbrev pub max_qty : ℕ
max_qty = 1000000000

-- The numbers of an order as the network left them: nothing of it has been checked.
pub record RawOrder : Type 0 where
  pub sequence : ℕ
  pub order_id : ℕ
  pub user_id : ℕ
  pub symbol_id : ℕ
  pub price : ℤ
  pub qty : ℕ
  pub side : ℕ
  pub type : ℕ
  pub cancel_flag : ℕ
  pub modify_flag : ℕ
  pub timestamp : ℕ

-- ems/types/OrderSlot.h: an order that passed the checks, in the ring of its symbol.
pub record OrderSlot : Type 0 where
  pub sequence : ℕ
  pub order_id : ℕ
  pub timestamp : ℕ
  pub user_id : ℕ
  pub symbol_id : ℕ
  pub price : ℤ
  pub qty : ℕ
  pub side : ℕ
  pub type : ℕ
  pub cancel_flag : ℕ
  pub modify_flag : ℕ

-- The signed word of `2 * half` values that a number wraps around to.
unfoldable pub wrap_at : ℕ → ℤ → ℤ
wrap_at half n =
    let word = (pos_part n + (half + half - neg_part n % (half + half))) % (half + half) in
    if ltb word half then pos word else sub_ℕ word (half + half)

abbrev pub int64 : ℤ → ℤ
int64 n = wrap_at (2 ^ 63) n

abbrev pub int32 : ℤ → ℤ
int32 n = wrap_at (2 ^ 31) n
