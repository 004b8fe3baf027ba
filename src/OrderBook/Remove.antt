-- ===== src/OrderBook/Remove.antt =====
-- removeOrder of an order that rests in a valid book.
use valyrian_stock_exchange.Prelude.{ℕ, ◌+◌, ◌<◌, ◌≡◌, some, List, [], ◌∷◌, All, length, arith}
use valyrian_stock_exchange.Prelude.Assoc.{lookup, All-lookup}
use valyrian_stock_exchange.CoreTypes.{Side, Order}
use valyrian_stock_exchange.Outcome.{ok}
use valyrian_stock_exchange.PriceLevel.{PriceLevel, find_slot, fifo_remove}
use valyrian_stock_exchange.PriceLevel.Laws.{
  OrderOk, sum_remaining-remove, length-remove, All-remove,
}
use valyrian_stock_exchange.Containers.{Containers, price_limit}
use valyrian_stock_exchange.OrderBook.{OrderBook, remove_order}
use valyrian_stock_exchange.OrderBook.Valid.{LevelOk, Valid, side_of, Valid-side}
use valyrian_stock_exchange.OrderBook.Removed.{remove_at-Removed}
use valyrian_stock_exchange.OrderBook.Keeps.{LevelBody}
use valyrian_stock_exchange.OrderBook.Settles.{
  Settles, Removed-Settles, Settles-Valid, order_room, level_room,
}

fifo_remove-LevelBody :
    (s : Side) (p : ℕ) (level : PriceLevel) (o : Order)
    → LevelOk s (p, level)
    → find_slot o.slot level.orders ≡ some o
    → LevelBody s p (fifo_remove level o)
unfolding fifo_remove
fifo_remove-LevelBody s p level o fits f = record {
  priced = fits.priced;
  in_range = fits.in_range;
  covered = omega (arith, sum_remaining-remove o.slot o level.orders f, fits.covered);
  all_ok = All-remove (OrderOk s p) o.slot level.orders fits.all_ok;
}

pub length-fifo_remove :
    (level : PriceLevel) (o : Order)
    → find_slot o.slot level.orders ≡ some o
    → length (fifo_remove level o).orders + 1 ≡ length level.orders
unfolding fifo_remove
length-fifo_remove level o f = length-remove o.slot o level.orders f

find_slot-length : (s : ℕ) (o : Order) (os : List Order) → find_slot s os ≡ some o → 0 < length os
find_slot-length s o [] h = absurd (cc)
find_slot-length s o (x ∷ os) h = omega arith

module _ (C : Containers) where
  -- Every entry of a valid side has a price in range.
  pub LevelOk-InRange :
      (s : Side) (m : List (ℕ × PriceLevel)) → All (LevelOk s) m → All (λ e. e.0 < price_limit) m
  LevelOk-InRange s [] h = tt
  LevelOk-InRange s (e ∷ m) h = (h.0.in_range, LevelOk-InRange s m h.1)

  -- In a valid book, removeOrder of an order that is found at its address in the level of its price
  -- succeeds: the book is valid again, the level is without the order (and gone, if it was the only
  -- one), the best price is the best of what is left, the other side is untouched, the order's slot
  -- is the first of the free ones, and so is that of a level that has gone, the other free slots are
  -- the ones from before, and the id is erased from the index.
  pub remove_order-Settles :
      {held : ℕ} {b : OrderBook C} (o : Order) (level : PriceLevel)
      → Valid C held b
      → lookup o.price (side_of C b o.side) ≡ some level
      → find_slot o.slot level.orders ≡ some o
      → (b' : OrderBook C) × (remove_order C b o ≡ ok b')
        × Valid C held b'
        × Settles C b o.side o.price o.slot (fifo_remove level o) b'
        × (b'.order_index ≡ C.erase_id b.order_index o.order_id)
  remove_order-Settles {b} o level v f found =
      let entries = side_of C b o.side in
      let side = Valid-side C v o.side in
      let fits : LevelOk o.side (o.price, level) =
        All-lookup (LevelOk o.side) o.price level entries f side.levels in
      let (b', e, removed) =
        remove_at-Removed C b o.side o level fits.in_range f fits.priced
          (LevelOk-InRange o.side entries side.levels)
          (order_room C o.side o.price level v f (find_slot-length o.slot o level.orders found))
          (level_room C o.side o.price level v f) in
      let settles = Removed-Settles C removed in
      (
        b',
        e,
        Settles-Valid C level v f (fifo_remove-LevelBody o.side o.price level o fits found)
            (length-fifo_remove level o found) settles,
        settles,
        removed.erased_id,
      )
