-- ===== src/OrderBook/Rest.antt =====
-- insertOrder at a price that has a level.
use valyrian_stock_exchange.Prelude.{
  ℕ, suc, ◌+◌, ◌≤◌, ◌<◌, ◌≡◌, ◌≢◌, refl, ap, ◌∙◌, ◌⊎◌, inl, none, some, List, [], ◌∷◌, ◌++◌, All,
  length, arith,
}
use valyrian_stock_exchange.Prelude.Assoc.{
  lookup, insert, write, All-write, All-lookup, sum_by-write,
}
use valyrian_stock_exchange.CoreTypes.{Side, opposite, Order}
use valyrian_stock_exchange.Outcome.{ok}
use valyrian_stock_exchange.PriceLevel.{PriceLevel, fresh, fifo_push}
use valyrian_stock_exchange.PriceLevel.Laws.{
  OrderOk, sum_remaining, sum_remaining-push, length-push, All-push,
}
use valyrian_stock_exchange.Containers.{Containers, price_limit}
use valyrian_stock_exchange.OrderBook.{OrderBook, best_of, push_order}
use valyrian_stock_exchange.OrderBook.Valid.{LevelOk, Valid, side_of, Valid-side, order_count}
use valyrian_stock_exchange.OrderBook.Keeps.{Valid-from_side, Valid-orders, Valid-levels}
use valyrian_stock_exchange.OrderBook.Remove.{LevelOk-InRange}
use valyrian_stock_exchange.OrderBook.Insert.{push_order-Pushed}

push-not-nil : (os : List Order) (o : Order) → os ++ (o ∷ []) ≢ []
push-not-nil [] o h = cc
push-not-nil (x ∷ os) o h = cc

-- A level that is in order, but for being empty, is in order with one more order.
pub fifo_push-LevelOk :
    (s : Side) (level : PriceLevel) (o : Order)
    → level.price ≡ o.price
    → o.price < price_limit
    → sum_remaining level.orders ≤ level.aggregated_qty
    → All (OrderOk s o.price) level.orders
    → OrderOk s o.price o
    → LevelOk s (o.price, fifo_push level o)
unfolding fifo_push
fifo_push-LevelOk s level o priced range covered all fits = record {
  priced = priced;
  in_range = range;
  occupied = push-not-nil level.orders o;
  covered = omega (arith, sum_remaining-push level.orders o);
  all_ok = All-push (OrderOk s o.price) level.orders o all fits;
}

pub length-fifo_push :
    (level : PriceLevel) (o : Order) → length (fifo_push level o).orders ≡ length level.orders + 1
unfolding fifo_push
length-fifo_push level o = length-push level.orders o

-- The level that getOrCreatePriceLevel makes.
abbrev pub new_level : ℕ → ℕ → PriceLevel
new_level slot p = record (fresh slot) { price = p }

-- The order stands behind the others of the level.
abbrev pub behind : PriceLevel → Order → PriceLevel
behind level o = record level {
  orders = level.orders ++ (o ∷ []);
  aggregated_qty = level.aggregated_qty + o.remaining;
}

pub fifo_push-behind : (level : PriceLevel) (o : Order) → fifo_push level o ≡ behind level o
unfolding fifo_push
fifo_push-behind level o = refl

module _ (C : Containers) where
  -- The order rests last in the level of its price, which may have had to be made for it.
  abbrev pub RestsIn : List (ℕ × PriceLevel) → Order → List (ℕ × PriceLevel) → Type 0
  RestsIn m o m' =
      ((level : PriceLevel) × (lookup o.price m ≡ some level)
        × (m' ≡ write o.price (behind level o) m))
      ⊎ ((slot : ℕ) × (lookup o.price m ≡ none)
          × (m' ≡ insert o.price (behind (new_level slot o.price) o) m))

  -- The side `s` has the order, too.
  pub record Rested (b : OrderBook C) (s : Side) (o : Order) (b' : OrderBook C) : Type 0 where
    pub rests : RestsIn (side_of C b s) o (side_of C b' s)
    pub one_more : order_count (side_of C b' s) ≡ order_count (side_of C b s) + 1
    pub other_side : side_of C b' (opposite s) ≡ side_of C b (opposite s)
    pub other_best : best_of C b' (opposite s) ≡ best_of C b (opposite s)

  pub push_to_old :
      {held : ℕ} {b : OrderBook C} (s : Side) (o : Order) (l0 : PriceLevel)
      → Valid C (suc held) b
      → OrderOk s o.price o
      → o.price < price_limit
      → lookup o.price (side_of C b s) ≡ some l0
      → (b' : OrderBook C) × (push_order C b s o ≡ ok b') × Valid C held b' × Rested b s o b'
  push_to_old {b} s o l0 v fits range f =
      let m = side_of C b s in
      let side = Valid-side C v s in
      let old : LevelOk s (o.price, l0) = All-lookup (LevelOk s) o.price l0 m f side.levels in
      let l1 = fifo_push l0 o in
      let l1_ok = fifo_push-LevelOk s l0 o old.priced range old.covered old.all_ok fits in
      let (b', e, r) = push_order-Pushed C b s o l0 range f (LevelOk-InRange C s m side.levels) in
      let count : order_count (write o.price l1 m) ≡ order_count m + 1 = omega (
        arith,
        sum_by-write (λ (x : PriceLevel). length x.orders) o.price l1 l0 m f,
        length-fifo_push l0 o,
      ) in
      (
        b',
        e,
        Valid-from_side C s
            (record {
              levels = rw r.pushed (All-write (LevelOk s) o.price l1 m l1_ok side.levels);
              best_ok = r.best_ok;
            })
            (rw (r.other_side, r.other_best) (Valid-side C v (opposite s)))
            (rw (r.same_orders, r.pushed, r.other_side) (omega (arith, Valid-orders C v s, count)))
            (rw (r.same_levels, r.pushed, r.other_side)
              (omega (
                arith,
                Valid-levels C v s,
                sum_by-write (λ (x : PriceLevel). 1) o.price l1 l0 m f,
              ))),
        record {
          rests = inl (l0, f, r.pushed ∙ ap (λ x. write o.price x m) (fifo_push-behind l0 o));
          one_more = rw r.pushed count;
          other_side = r.other_side;
          other_best = r.other_best;
        },
      )
