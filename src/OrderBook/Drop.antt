-- ===== src/OrderBook/Drop.antt =====
-- The first order of a level is consumed whole, and leaves the book.
use valyrian_stock_exchange.Prelude.{
  ℕ, ◌+◌, ◌<◌, ◌≡◌, ap, ◌∙◌, some, List, ◌∷◌, All, length, arith, ==_self,
}
use mathlib.Core.Path.{subst}
use valyrian_stock_exchange.Prelude.Assoc.{lookup, lookup-write, All-write}
use valyrian_stock_exchange.CoreTypes.{Order, OrderState}
use valyrian_stock_exchange.Outcome.{ok}
use valyrian_stock_exchange.PriceLevel.{PriceLevel, fifo_remove, remove_slot}
use valyrian_stock_exchange.PriceLevel.Laws.{OrderOk, sum_remaining}
use valyrian_stock_exchange.Containers.{Containers, price_limit}
use valyrian_stock_exchange.OrderBook.{OrderBook, remove_order}
use valyrian_stock_exchange.OrderBook.Valid.{Valid, side_of, Valid-side}
use valyrian_stock_exchange.OrderBook.Removed.{remove_at-Removed}
use valyrian_stock_exchange.OrderBook.Keeps.{LevelBody}
use valyrian_stock_exchange.OrderBook.Settles.{
  Shrinks, Settles-Valid, Settles-Shrinks, Rewritten-Removed-Settles, order_room, level_room,
}
use valyrian_stock_exchange.OrderBook.Remove.{LevelOk-InRange}
use valyrian_stock_exchange.OrderBook.Fill.{
  after_fill, filled_level, Stands, fill_book, fill_book-Rewritten, same_best,
}

remove_slot_first : (o : Order) (os : List Order) → remove_slot o.slot (o ∷ os) ≡ os
remove_slot_first o os = ground arith

module _ (C : Containers) {held : ℕ} (b : OrderBook C) (o : Order) (q : ℕ) (st : OrderState)
    (v : Valid C held b) (at : Stands C b o) (whole : q ≡ o.remaining) where
  left_level : PriceLevel
  left_level = fifo_remove (filled_level at.level q (after_fill o q st) at.rest) (after_fill o q st)

  left_level-orders : left_level.orders ≡ at.rest
  unfolding left_level fifo_remove
  left_level-orders = remove_slot_first (after_fill o q st) at.rest

  left_level-LevelBody : LevelBody o.side o.price left_level
  unfolding left_level fifo_remove
  left_level-LevelBody = record {
    priced = at.level_ok.priced;
    in_range = at.level_ok.in_range;
    covered =
        rw (remove_slot_first (after_fill o q st) at.rest) (
          omega (arith, at.level_ok.covered, ap sum_remaining at.first, at.order_ok.open_quantity));
    all_ok = rw (remove_slot_first (after_fill o q st) at.rest) all.1;
  }
    where
      all : All (OrderOk o.side o.price) (o ∷ at.rest)
      all = subst (All (OrderOk o.side o.price)) at.first at.level_ok.all_ok

  shorter : length left_level.orders + 1 ≡ length at.level.orders
  shorter = rw left_level-orders (omega (arith, ap length at.first))

  pub drop_filled-Shrinks :
      (b' : OrderBook C) × (remove_order C (fill_book C b o q st) (after_fill o q st) ≡ ok b')
      × Valid C held b'
      × Shrinks C b o.side b'
  unfolding left_level
  drop_filled-Shrinks =
      let r = fill_book-Rewritten C b o q st at in
      let l = filled_level at.level q (after_fill o q st) at.rest in
      let b1 = fill_book C b o q st in
      let m = side_of C b o.side in
      let range = LevelOk-InRange C o.side m (Valid-side C v o.side).levels in
      let f1 : lookup o.price (side_of C b1 o.side) ≡ some l =
        rw r.replaced
          (lookup-write o.price o.price l at.level m at.found ∙ (rw (==_self o.price))) in
      let range1 : All (λ e. e.0 < price_limit) (side_of C b1 o.side) = rw r.replaced (
        All-write (λ (e : ℕ × PriceLevel). e.0 < price_limit) o.price l m at.level_ok.in_range
          range) in
      let first_in : 0 < length at.level.orders = omega (arith, ap length at.first) in
      let (b', e, removed) =
        remove_at-Removed C b1 o.side (after_fill o q st) l at.level_ok.in_range f1
          at.level_ok.priced range1
          (rw r.same_orders (order_room C o.side o.price at.level v at.found first_in))
          (rw r.same_levels (level_room C o.side o.price at.level v at.found)) in
      let settles = Rewritten-Removed-Settles C r removed (same_best C r) in
      (
        b',
        e,
        Settles-Valid C at.level v at.found left_level-LevelBody shorter settles,
        Settles-Shrinks C at.level at.found shorter settles,
      )
