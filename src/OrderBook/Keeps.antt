-- ===== src/OrderBook/Keeps.antt =====
-- The invariant of the book, by the two sides and the counts of orders and levels.
use valyrian_stock_exchange.Prelude.{
  ℕ, ◌+◌, ◌≤◌, ◌<◌, ◌≡◌, ◌≢◌, ap, true, false, Bool-cases, inl, inr, some, List, [], All, length,
  arith,
}
use valyrian_stock_exchange.Prelude.Assoc.{
  lookup, write, All-write, All-delete, delete-write, sum_by-write, sum_by-delete,
}
use valyrian_stock_exchange.CoreTypes.{Side, buy, sell, opposite}
use valyrian_stock_exchange.PriceLevel.{PriceLevel, empty}
use valyrian_stock_exchange.PriceLevel.Laws.{sum_remaining, OrderOk}
use valyrian_stock_exchange.Containers.{Containers, price_limit}
use valyrian_stock_exchange.OrderBook.{OrderBook, best_of}
use valyrian_stock_exchange.OrderBook.Valid.{
  LevelOk, SideValid, Valid, order_count, level_count, side_of,
}
use valyrian_stock_exchange.OrderBook.Removal.{trimmed_entries, freed}

-- What has to hold of a level for it to stay, unless it is empty.
pub record LevelBody (s : Side) (p : ℕ) (level : PriceLevel) : Type 0 where
  pub priced : level.price ≡ p
  pub in_range : p < price_limit
  pub covered : sum_remaining level.orders ≤ level.aggregated_qty
  pub all_ok : All (OrderOk s p) level.orders

pub not_empty : (level : PriceLevel) → empty level ≡ false → level.orders ≢ []
unfolding empty
not_empty level h e = ground arith

pub is_empty : (level : PriceLevel) → empty level ≡ true → level.orders ≡ []
unfolding empty
is_empty level h = ground arith

pub LevelBody-LevelOk :
    {s : Side} {p : ℕ} {level : PriceLevel}
    → LevelBody s p level
    → level.orders ≢ []
    → LevelOk s (p, level)
LevelBody-LevelOk body h = record {
  priced = body.priced;
  in_range = body.in_range;
  occupied = h;
  covered = body.covered;
  all_ok = body.all_ok;
}

module _ (C : Containers) where
  abbrev pub Entries : Type 0
  Entries = List (ℕ × PriceLevel)

  -- `level` takes the place of what was at `p`, and goes if it is empty.
  abbrev pub settled : ℕ → PriceLevel → Entries → Entries
  settled p level m = trimmed_entries C p level (write p level m)

  pub settled-LevelOk :
      {s : Side} {p : ℕ} {level : PriceLevel} (m : Entries)
      → LevelBody s p level
      → All (LevelOk s) m
      → All (LevelOk s) (settled p level m)
  settled-LevelOk {s} {p} {level} m body h = elim (Bool-cases (empty level)) [
    | inl e ↦ rw (e, delete-write p level m) (All-delete (LevelOk s) p m h)
    | inr e ↦ rw e (All-write (LevelOk s) p level m (LevelBody-LevelOk body (not_empty level e)) h)
  ]

  pub order_count-settled :
      (p : ℕ) (level old : PriceLevel) (m : Entries)
      → lookup p m ≡ some old
      → order_count (settled p level m) + length old.orders ≡ order_count m + length level.orders
  order_count-settled p level old m f = elim (Bool-cases (empty level)) [
    | inl e ↦
        rw (e, delete-write p level m)
          (omega (
            arith,
            sum_by-delete (λ (l : PriceLevel). length l.orders) p old m f,
            ap length (is_empty level e),
          ))
    | inr e ↦ rw e (sum_by-write (λ (l : PriceLevel). length l.orders) p level old m f)
  ]

  pub level_count-settled :
      (p : ℕ) (level old : PriceLevel) (m : Entries)
      → lookup p m ≡ some old
      → level_count (settled p level m) + freed C level ≡ level_count m
  level_count-settled p level old m f = elim (Bool-cases (empty level)) [
    | inl e ↦ rw (e, delete-write p level m) (sum_by-delete (λ (l : PriceLevel). 1) p old m f)
    | inr e ↦ rw e (omega (arith, sum_by-write (λ (l : PriceLevel). 1) p level old m f))
  ]

  -- The two sides, named from one of them.
  pub Valid-from_side :
      {held : ℕ} {b : OrderBook C} (s : Side)
      → SideValid s (best_of C b s) (side_of C b s)
      → SideValid (opposite s) (best_of C b (opposite s)) (side_of C b (opposite s))
      → length b.order_pool.free_list
          + order_count (side_of C b s)
          + order_count (side_of C b (opposite s))
          + held
        ≡ b.order_pool.capacity
      → length b.price_level_pool.free_list
          + level_count (side_of C b s)
          + level_count (side_of C b (opposite s))
        ≡ b.price_level_pool.capacity
      → Valid C held b
  Valid-from_side buy this other orders levels = record {
    bids = this;
    asks = other;
    orders_kept = orders;
    levels_kept = levels;
  }
  Valid-from_side sell this other orders levels = record {
    bids = other;
    asks = this;
    orders_kept = omega arith;
    levels_kept = omega arith;
  }

  pub Valid-orders :
      {held : ℕ} {b : OrderBook C}
      → Valid C held b
      → (s : Side)
      → length b.order_pool.free_list
          + order_count (side_of C b s)
          + order_count (side_of C b (opposite s))
          + held
        ≡ b.order_pool.capacity
  Valid-orders v buy = v.orders_kept
  Valid-orders v sell = omega (arith, v.orders_kept)

  pub Valid-levels :
      {held : ℕ} {b : OrderBook C}
      → Valid C held b
      → (s : Side)
      → length b.price_level_pool.free_list
          + level_count (side_of C b s)
          + level_count (side_of C b (opposite s))
        ≡ b.price_level_pool.capacity
  Valid-levels v buy = v.levels_kept
  Valid-levels v sell = omega (arith, v.levels_kept)
