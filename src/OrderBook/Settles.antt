-- ===== src/OrderBook/Settles.antt =====
-- What removing an order from a level makes of a valid book.
use valyrian_stock_exchange.Prelude.{ℕ, ◌+◌, ◌<◌, ◌≡◌, ap, ◌∙◌, some, ◌∷◌, length, arith}
use valyrian_stock_exchange.Prelude.Assoc.{lookup, write-write, le-sum_by}
use valyrian_stock_exchange.CoreTypes.{Side, opposite, Order}
use valyrian_stock_exchange.Pool.{Pool}
use valyrian_stock_exchange.PriceLevel.{PriceLevel, fifo_remove}
use valyrian_stock_exchange.Containers.{Containers}
use valyrian_stock_exchange.OrderBook.{OrderBook, best_of}
use valyrian_stock_exchange.OrderBook.Valid.{BestOk, Valid, order_count, side_of, Valid-side}
use valyrian_stock_exchange.OrderBook.Views.{Rewritten}
use valyrian_stock_exchange.OrderBook.Removal.{freed_slots, length-freed_slots}
use valyrian_stock_exchange.OrderBook.Removed.{Removed}
use valyrian_stock_exchange.OrderBook.Keeps.{
  LevelBody, settled, settled-LevelOk, order_count-settled, level_count-settled, Valid-from_side,
  Valid-orders, Valid-levels,
}

module _ (C : Containers) where
  -- `b'` is the book `b` without the order in `slot` of the level at `p`, of which `level` is left.
  -- The slot, and that of the level if nothing is left of it, are the first of the free ones.
  pub record Settles (b : OrderBook C) (s : Side) (p slot : ℕ) (level : PriceLevel)
      (b' : OrderBook C) : Type 0 where
    pub settled_side : side_of C b' s ≡ settled C p level (side_of C b s)
    pub other_side : side_of C b' (opposite s) ≡ side_of C b (opposite s)
    pub best_ok : BestOk s (best_of C b' s) (side_of C b' s)
    pub other_best : best_of C b' (opposite s) ≡ best_of C b (opposite s)
    pub freed_order : b'.order_pool.free_list ≡ slot ∷ b.order_pool.free_list
    pub order_capacity : b'.order_pool.capacity ≡ b.order_pool.capacity
    pub freed_level :
        b'.price_level_pool.free_list ≡ freed_slots C level b.price_level_pool.free_list
    pub level_capacity : b'.price_level_pool.capacity ≡ b.price_level_pool.capacity

  pub Removed-Settles :
      {b b' : OrderBook C} {s : Side} {o : Order} {level : PriceLevel}
      → Removed C b s o level b'
      → Settles b s o.price o.slot (fifo_remove level o) b'
  Removed-Settles r = record {
    settled_side = r.removed;
    other_side = r.other_side;
    best_ok = r.best_ok;
    other_best = r.other_best;
    freed_order = r.freed_order;
    order_capacity = r.order_capacity;
    freed_level = r.freed_level;
    level_capacity = r.level_capacity;
  }

  pub Rewritten-Removed-Settles :
      {b b1 b' : OrderBook C} {s : Side} {o : Order} {level : PriceLevel}
      → Rewritten C b s o.price level b1
      → Removed C b1 s o level b'
      → ((t : Side) → best_of C b1 t ≡ best_of C b t)
      → Settles b s o.price o.slot (fifo_remove level o) b'
  Rewritten-Removed-Settles {b} {s} {o} {level} w r best = record {
    settled_side =
        rw (r.removed, w.replaced, write-write o.price (fifo_remove level o) level (side_of C b s));
    other_side = r.other_side ∙ w.untouched;
    best_ok = r.best_ok;
    other_best = r.other_best ∙ best (opposite s);
    freed_order = r.freed_order ∙ ap (λ (q : Pool). o.slot ∷ q.free_list) w.same_orders;
    order_capacity = r.order_capacity ∙ ap (λ (q : Pool). q.capacity) w.same_orders;
    freed_level =
        r.freed_level
        ∙ ap (λ (q : Pool). freed_slots C (fifo_remove level o) q.free_list) w.same_levels;
    level_capacity = r.level_capacity ∙ ap (λ (q : Pool). q.capacity) w.same_levels;
  }

  pub Settles-Valid :
      {held : ℕ} {b b' : OrderBook C} {s : Side} {p slot : ℕ} {level : PriceLevel}
      (old : PriceLevel)
      → Valid C held b
      → lookup p (side_of C b s) ≡ some old
      → LevelBody s p level
      → length level.orders + 1 ≡ length old.orders
      → Settles b s p slot level b'
      → Valid C held b'
  Settles-Valid {b} {s} {p} {level} old v f body shorter t =
      Valid-from_side C s
        (record {
          levels =
              rw t.settled_side (settled-LevelOk C (side_of C b s) body (Valid-side C v s).levels);
          best_ok = t.best_ok;
        })
        (rw (t.other_side, t.other_best) (Valid-side C v (opposite s)))
        (rw (t.freed_order, t.settled_side, t.other_side, t.order_capacity)
          (omega (arith, Valid-orders C v s, order_count-settled C p level old (side_of C b s) f)))
        (rw (t.freed_level, t.settled_side, t.other_side, t.level_capacity)
          (omega (
            arith,
            Valid-levels C v s,
            level_count-settled C p level old (side_of C b s) f,
            length-freed_slots C level b.price_level_pool.free_list,
          )))

  -- A side that has a level leaves room in both pools.
  pub order_room :
      {held : ℕ} {b : OrderBook C} (s : Side) (p : ℕ) (old : PriceLevel)
      → Valid C held b
      → lookup p (side_of C b s) ≡ some old
      → 0 < length old.orders
      → length b.order_pool.free_list < b.order_pool.capacity
  order_room {b} s p old v f h = omega (
    arith,
    Valid-orders C v s,
    le-sum_by (λ (l : PriceLevel). length l.orders) p old (side_of C b s) f,
  )

  pub level_room :
      {held : ℕ} {b : OrderBook C} (s : Side) (p : ℕ) (old : PriceLevel)
      → Valid C held b
      → lookup p (side_of C b s) ≡ some old
      → length b.price_level_pool.free_list < b.price_level_pool.capacity
  level_room {b} s p old v f =
      omega (arith, Valid-levels C v s, le-sum_by (λ (l : PriceLevel). 1) p old (side_of C b s) f)

  -- One order fewer on one side; the other side is as it was.
  pub record Shrinks (b : OrderBook C) (s : Side) (b' : OrderBook C) : Type 0 where
    pub one_fewer : order_count (side_of C b' s) + 1 ≡ order_count (side_of C b s)
    pub other_side : side_of C b' (opposite s) ≡ side_of C b (opposite s)
    pub other_best : best_of C b' (opposite s) ≡ best_of C b (opposite s)

  pub Settles-Shrinks :
      {b b' : OrderBook C} {s : Side} {p slot : ℕ} {level : PriceLevel} (old : PriceLevel)
      → lookup p (side_of C b s) ≡ some old
      → length level.orders + 1 ≡ length old.orders
      → Settles b s p slot level b'
      → Shrinks b s b'
  Settles-Shrinks {b} {s} {p} {level} old f shorter t = record {
    one_fewer =
        rw t.settled_side (omega (arith, order_count-settled C p level old (side_of C b s) f));
    other_side = t.other_side;
    other_best = t.other_best;
  }
