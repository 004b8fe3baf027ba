-- ===== src/OrderBook/Refresh.antt =====
-- The best price of a side, read again after a change.
use valyrian_stock_exchange.Prelude.{
  ℕ, ◌<◌, ◌≡◌, refl, ◌∙◌, Bool, true, false, none, some, List, All, if◌then◌else◌,
}
use valyrian_stock_exchange.Prelude.Assoc.{lookup, All-lookup}
use valyrian_stock_exchange.CoreTypes.{Side, buy, sell, opposite}
use valyrian_stock_exchange.PriceLevel.{PriceLevel}
use valyrian_stock_exchange.Containers.{Containers, price_limit}
use valyrian_stock_exchange.OrderBook.{OrderBook, best_of, best_price, level_ptr, refresh_best}
use valyrian_stock_exchange.OrderBook.Valid.{NoBetter, BestOk, side_of}

module _ (C : Containers) where
  pub refresh_tree :
      (s : Side) (t : C.Tree) (p : ℕ)
      → ((level : PriceLevel) × (lookup p (C.entries t) ≡ some level))
      → All (λ e. NoBetter s p e.0) (C.entries t)
      → p < price_limit
      → BestOk s (level_ptr C t p) (C.entries t)
  unfolding level_ptr
  refresh_tree s t p (level, f) best h =
      rw (C.find_level_lem t p h ∙ f, level_ptr) ((level, f), best)

  abbrev pub InRange : List (ℕ × PriceLevel) → Type 0
  InRange = All (λ e. e.0 < price_limit)

  -- The best price is read from the tree again, and nothing else changes.
  pub record Refreshed (b : OrderBook C) (s : Side) (b' : OrderBook C) : Type 0 where
    pub best_ok : BestOk s (best_of C b' s) (side_of C b s)
    pub other_best : best_of C b' (opposite s) ≡ best_of C b (opposite s)
    pub same_side : side_of C b' s ≡ side_of C b s
    pub other_side : side_of C b' (opposite s) ≡ side_of C b (opposite s)
    pub same_orders : b'.order_pool ≡ b.order_pool
    pub same_levels : b'.price_level_pool ≡ b.price_level_pool
    pub same_index : b'.order_index ≡ b.order_index

  pub lookup-InRange :
      (p : ℕ) (m : List (ℕ × PriceLevel)) (level : PriceLevel)
      → lookup p m ≡ some level
      → InRange m
      → p < price_limit
  lookup-InRange p m level f h =
      All-lookup (λ (e : ℕ × PriceLevel). e.0 < price_limit) p level m f h

  pub best_price_lem :
      (s : Side) (t : C.Tree)
      → C.is_empty t ≡ false
      → ((level : PriceLevel) × (lookup (best_price C s t) (C.entries t) ≡ some level))
        × All (λ e. NoBetter s (best_price C s t) e.0) (C.entries t)
  best_price_lem buy t h = C.max_price_lem t h
  best_price_lem sell t h = C.min_price_lem t h

  pub found_best :
      (s : Side) (t : C.Tree) (has_none : Bool)
      → C.is_empty t ≡ has_none
      → InRange (C.entries t)
      → BestOk s (if has_none then none else level_ptr C t (best_price C s t)) (C.entries t)
  found_best s t true e h = C.is_empty_lem t e
  found_best s t false e h =
      let ((level, f), best) = best_price_lem s t e in
      refresh_tree s t (best_price C s t) (level, f) best
        (lookup-InRange (best_price C s t) (C.entries t) level f h)

  pub refresh_best-Refreshed :
      (b : OrderBook C) (s : Side) → InRange (side_of C b s) → Refreshed b s (refresh_best C b s)
  unfolding refresh_best
  refresh_best-Refreshed b buy h = record {
    best_ok = found_best buy b.buy_book (C.is_empty b.buy_book) refl h;
    other_best = refl;
    same_side = refl;
    other_side = refl;
    same_orders = refl;
    same_levels = refl;
    same_index = refl;
  }
  refresh_best-Refreshed b sell h = record {
    best_ok = found_best sell b.sell_book (C.is_empty b.sell_book) refl h;
    other_best = refl;
    same_side = refl;
    other_side = refl;
    same_orders = refl;
    same_levels = refl;
    same_index = refl;
  }
