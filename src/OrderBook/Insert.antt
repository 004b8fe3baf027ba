-- ===== src/OrderBook/Insert.antt =====
-- The part of insertOrder from fifoPush on.
use valyrian_stock_exchange.Prelude.{ℕ, ◌<◌, ◌≡◌, refl, ◌∙◌, Bool, true, false, none, some, ==_self}
use valyrian_stock_exchange.Prelude.Assoc.{lookup, write, lookup-write}
use valyrian_stock_exchange.CoreTypes.{Side, buy, sell, opposite, Order}
use valyrian_stock_exchange.Outcome.{ok}
use valyrian_stock_exchange.PriceLevel.{PriceLevel, fifo_push}
use valyrian_stock_exchange.Containers.{Containers, price_limit}
use valyrian_stock_exchange.OrderBook.{
  OrderBook, best_of, best_price, level_ptr, write_price_level, link, push_order,
}
use valyrian_stock_exchange.OrderBook.Valid.{BestOk, side_of}
use valyrian_stock_exchange.OrderBook.Views.{get_price_level-lookup}
use valyrian_stock_exchange.OrderBook.Refresh.{
  InRange, lookup-InRange, best_price_lem, refresh_tree,
}
use valyrian_stock_exchange.OrderBook.Removed.{written-InRange}

module _ (C : Containers) where
  -- The order stands at the end of the level `l0`, and the best price is read again.
  pub record Pushed (b : OrderBook C) (s : Side) (o : Order) (l0 : PriceLevel) (b' : OrderBook C)
      : Type 0 where
    pub pushed : side_of C b' s ≡ write o.price (fifo_push l0 o) (side_of C b s)
    pub other_side : side_of C b' (opposite s) ≡ side_of C b (opposite s)
    pub best_ok : BestOk s (best_of C b' s) (side_of C b' s)
    pub other_best : best_of C b' (opposite s) ≡ best_of C b (opposite s)
    pub same_orders : b'.order_pool ≡ b.order_pool
    pub same_levels : b'.price_level_pool ≡ b.price_level_pool

  -- A tree that holds a price is not empty, and its best price is found.
  best_after :
      (s : Side) (t : C.Tree) (p : ℕ) (l : PriceLevel) (has_none : Bool)
      → C.is_empty t ≡ has_none
      → lookup p (C.entries t) ≡ some l
      → InRange C (C.entries t)
      → BestOk s (level_ptr C t (best_price C s t)) (C.entries t)
  best_after s t p l true e f h =
      let empty : lookup p (C.entries t) ≡ none = rw (C.is_empty_lem t e) in absurd (cc)
  best_after s t p l false e f h =
      let ((level, g), best) = best_price_lem C s t e in
      refresh_tree C s t (best_price C s t) (level, g) best
        (lookup-InRange C (best_price C s t) (C.entries t) level g h)

  link-Pushed :
      (b : OrderBook C) (s : Side) (o : Order) (l0 : PriceLevel)
      → o.price < price_limit
      → lookup o.price (side_of C b s) ≡ some l0
      → InRange C (side_of C b s)
      → Pushed b s o l0 (link C b s l0 o)
  unfolding link write_price_level
  link-Pushed b buy o l0 h f range =
      let t = C.write_level b.buy_book o.price (fifo_push l0 o) in
      let e = C.write_level_lem b.buy_book o.price (fifo_push l0 o) h in
      let m = side_of C b buy in
      let g : lookup o.price (C.entries t) ≡ some (fifo_push l0 o) =
        rw e (lookup-write o.price o.price (fifo_push l0 o) l0 m f ∙ (rw (==_self o.price))) in
      record {
        pushed = e;
        other_side = refl;
        best_ok =
            best_after buy t o.price (fifo_push l0 o) (C.is_empty t) refl g
              (rw e (written-InRange C o.price (fifo_push l0 o) m h range));
        other_best = refl;
        same_orders = refl;
        same_levels = refl;
      }
  link-Pushed b sell o l0 h f range =
      let t = C.write_level b.sell_book o.price (fifo_push l0 o) in
      let e = C.write_level_lem b.sell_book o.price (fifo_push l0 o) h in
      let m = side_of C b sell in
      let g : lookup o.price (C.entries t) ≡ some (fifo_push l0 o) =
        rw e (lookup-write o.price o.price (fifo_push l0 o) l0 m f ∙ (rw (==_self o.price))) in
      record {
        pushed = e;
        other_side = refl;
        best_ok =
            best_after sell t o.price (fifo_push l0 o) (C.is_empty t) refl g
              (rw e (written-InRange C o.price (fifo_push l0 o) m h range));
        other_best = refl;
        same_orders = refl;
        same_levels = refl;
      }

  pub push_order-Pushed :
      (b : OrderBook C) (s : Side) (o : Order) (l0 : PriceLevel)
      → o.price < price_limit
      → lookup o.price (side_of C b s) ≡ some l0
      → InRange C (side_of C b s)
      → (b' : OrderBook C) × (push_order C b s o ≡ ok b') × Pushed b s o l0 b'
  unfolding push_order
  push_order-Pushed b s o l0 h f range = (
    link C b s l0 o,
    rw (get_price_level-lookup C b s o.price h ∙ f, push_order),
    link-Pushed b s o l0 h f range,
  )
