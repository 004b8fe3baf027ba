-- ===== src/OrderBook/Views.antt =====
-- What the operations of the book do to the entries of its trees.
use valyrian_stock_exchange.Prelude.{
  ℕ, ◌-◌, ◌<◌, ◌≡◌, refl, ◌∙◌, Option, none, some, List, [], ◌∷◌, All,
}
use valyrian_stock_exchange.Prelude.Assoc.{lookup, write, All-lookup, write-write}
use valyrian_stock_exchange.CoreTypes.{Side, buy, sell, opposite, Order}
use valyrian_stock_exchange.PriceLevel.{PriceLevel, front, write_slot}
use valyrian_stock_exchange.PriceLevel.Laws.{OrderOk}
use valyrian_stock_exchange.Containers.{Containers, price_limit}
use valyrian_stock_exchange.OrderBook.{
  OrderBook, book_of, best_of, get_price_level, write_price_level, head_at, get_order_at_best_price,
  write_at, consume_at,
}
use valyrian_stock_exchange.OrderBook.Valid.{LevelOk, NoBetter, SideValid, HeadOk, side_of}

module _ (C : Containers) where
  head_level :
      (s : Side) (t : C.Tree) (p : ℕ) (level : PriceLevel) (os : List Order)
      → C.find_level t p ≡ some level
      → lookup p (C.entries t) ≡ some level
      → level.orders ≡ os
      → LevelOk s (p, level)
      → All (OrderOk s p) os
      → All (λ e. NoBetter s p e.0) (C.entries t)
      → HeadOk s (some p) (C.entries t) (front level.orders)
  head_level s t p level [] f e d fits each best = absurd (fits.occupied d)
  head_level s t p level (o ∷ rest) f e d fits each best = rw d (record {
    p = p;
    level = level;
    rest = rest;
    best_at = refl;
    found = e;
    first = d;
    level_ok = fits;
    order_ok = each.0;
    no_better = best;
  })

  head_at-HeadOk :
      (s : Side) (t : C.Tree) (best : Option ℕ)
      → SideValid s best (C.entries t)
      → HeadOk s best (C.entries t) (head_at C t best)
  unfolding head_at
  head_at-HeadOk s t none v = (refl, v.best_ok)
  head_at-HeadOk s t (some p) v =
      let ((level, e), best) = v.best_ok in
      let fits : LevelOk s (p, level) = All-lookup (LevelOk s) p level (C.entries t) e v.levels in
      let f = C.find_level_lem t p fits.in_range ∙ e in
      rw (f, head_at) (head_level s t p level level.orders f e refl fits fits.all_ok best)

  -- `b'` is `b` with another level at the price `p` of one side.
  pub record Rewritten (b : OrderBook C) (s : Side) (p : ℕ) (level : PriceLevel) (b' : OrderBook C)
      : Type 0 where
    pub replaced : side_of C b' s ≡ write p level (side_of C b s)
    pub untouched : side_of C b' (opposite s) ≡ side_of C b (opposite s)
    pub same_bid : b'.best_bid ≡ b.best_bid
    pub same_ask : b'.best_ask ≡ b.best_ask
    pub same_orders : b'.order_pool ≡ b.order_pool
    pub same_levels : b'.price_level_pool ≡ b.price_level_pool
    pub same_index : b'.order_index ≡ b.order_index

  pub write_price_level-Rewritten :
      (b : OrderBook C) (s : Side) (p : ℕ) (level : PriceLevel)
      → p < price_limit
      → Rewritten b s p level (write_price_level C b s p level)
  unfolding write_price_level
  write_price_level-Rewritten b buy p level h = record {
    replaced = C.write_level_lem b.buy_book p level h;
    untouched = refl;
    same_bid = refl;
    same_ask = refl;
    same_orders = refl;
    same_levels = refl;
    same_index = refl;
  }
  write_price_level-Rewritten b sell p level h = record {
    replaced = C.write_level_lem b.sell_book p level h;
    untouched = refl;
    same_bid = refl;
    same_ask = refl;
    same_orders = refl;
    same_levels = refl;
    same_index = refl;
  }

  pub Rewritten-trans :
      {b b1 b2 : OrderBook C} {s : Side} {p : ℕ} {l1 l2 : PriceLevel}
      → Rewritten b s p l1 b1
      → Rewritten b1 s p l2 b2
      → Rewritten b s p l2 b2
  Rewritten-trans {b} {s} {p} {l1} {l2} q r = record {
    replaced = rw (r.replaced, q.replaced) (write-write p l2 l1 (side_of C b s));
    untouched = r.untouched ∙ q.untouched;
    same_bid = r.same_bid ∙ q.same_bid;
    same_ask = r.same_ask ∙ q.same_ask;
    same_orders = r.same_orders ∙ q.same_orders;
    same_levels = r.same_levels ∙ q.same_levels;
    same_index = r.same_index ∙ q.same_index;
  }

  -- The level that `getPriceLevel` finds.
  pub get_price_level-lookup :
      (b : OrderBook C) (s : Side) (p : ℕ)
      → p < price_limit
      → get_price_level C b s p ≡ lookup p (side_of C b s)
  unfolding get_price_level
  get_price_level-lookup b s p h = C.find_level_lem (book_of C b s) p h

  pub write_at-Rewritten :
      (b : OrderBook C) (s : Side) (o : Order) (level : PriceLevel)
      → o.price < price_limit
      → lookup o.price (side_of C b s) ≡ some level
      → Rewritten b s o.price
          (record level { orders = write_slot o level.orders })
          (write_at C b s o)
  unfolding write_at
  write_at-Rewritten b s o level h e =
      rw (get_price_level-lookup b s o.price h ∙ e, write_at)
        (write_price_level-Rewritten b s o.price _ h)

  pub consume_at-Rewritten :
      (b : OrderBook C) (s : Side) (o : Order) (q : ℕ) (level : PriceLevel)
      → o.price < price_limit
      → lookup o.price (side_of C b s) ≡ some level
      → Rewritten b s o.price
          (record level {
            aggregated_qty = level.aggregated_qty - q;
            orders = write_slot (record o { remaining = o.remaining - q }) level.orders;
          })
          (consume_at C b s o q)
  unfolding consume_at
  consume_at-Rewritten b s o q level h e =
      rw (get_price_level-lookup b s o.price h ∙ e, consume_at)
        (write_price_level-Rewritten b s o.price _ h)

  -- On a side in order, getOrderAtBestPrice finds nothing exactly when the side is empty; otherwise
  -- it finds the first order of a level than which no level of the side has a better price.
  pub get_order_at_best_price-HeadOk :
      (b : OrderBook C) (s : Side)
      → SideValid s (best_of C b s) (side_of C b s)
      → HeadOk s (best_of C b s) (side_of C b s) (get_order_at_best_price C b s)
  unfolding get_order_at_best_price
  get_order_at_best_price-HeadOk b s v = head_at-HeadOk s (book_of C b s) (best_of C b s) v
