-- ===== src/OrderBook/Removed.antt =====
-- removeOrder on a book whose level at the order's price is known.
use valyrian_stock_exchange.Prelude.{
  ℕ, ◌<◌, ◌≡◌, refl, ◌∙◌, Bool-cases, inl, inr, some, List, ◌∷◌, length, ==_self,
}
use valyrian_stock_exchange.Prelude.Assoc.{lookup, write, lookup-write, All-write, All-delete}
use valyrian_stock_exchange.CoreTypes.{Side, buy, sell, opposite, Order}
use valyrian_stock_exchange.Outcome.{ok}
use valyrian_stock_exchange.Pool.{Pool}
use valyrian_stock_exchange.PriceLevel.{PriceLevel, empty, fifo_remove}
use valyrian_stock_exchange.Containers.{Containers, price_limit}
use valyrian_stock_exchange.OrderBook.{
  OrderBook, best_of, write_price_level, refresh_best, request_deallocation_of_order, unlink,
  remove_at,
}
use valyrian_stock_exchange.OrderBook.Valid.{BestOk, side_of}
use valyrian_stock_exchange.OrderBook.Views.{get_price_level-lookup}
use valyrian_stock_exchange.OrderBook.Removal.{
  deallocate-room, trimmed_entries, freed_slots, Trimmed, trim_lem,
}
use valyrian_stock_exchange.OrderBook.Refresh.{InRange, Refreshed, refresh_best-Refreshed}

module _ (C : Containers) where
  -- What removeOrder does to the book: `level` is the level at the order's price before it.
  pub record Removed (b : OrderBook C) (s : Side) (o : Order) (level : PriceLevel)
      (b' : OrderBook C) : Type 0 where
    pub removed :
        side_of C b' s
        ≡ trimmed_entries C o.price
            (fifo_remove level o)
            (write o.price (fifo_remove level o) (side_of C b s))
    pub other_side : side_of C b' (opposite s) ≡ side_of C b (opposite s)
    pub best_ok : BestOk s (best_of C b' s) (side_of C b' s)
    pub other_best : best_of C b' (opposite s) ≡ best_of C b (opposite s)
    pub freed_order : b'.order_pool.free_list ≡ o.slot ∷ b.order_pool.free_list
    pub order_capacity : b'.order_pool.capacity ≡ b.order_pool.capacity
    pub freed_level :
        b'.price_level_pool.free_list
        ≡ freed_slots C (fifo_remove level o) b.price_level_pool.free_list
    pub level_capacity : b'.price_level_pool.capacity ≡ b.price_level_pool.capacity
    pub erased_id : b'.order_index ≡ C.erase_id b.order_index o.order_id

  unlink-Rewritten :
      (b : OrderBook C) (s : Side) (level : PriceLevel) (o : Order)
      → o.price < price_limit
      → (side_of C (unlink C b s level o) s ≡ write o.price (fifo_remove level o) (side_of C b s))
        × (side_of C (unlink C b s level o) (opposite s) ≡ side_of C b (opposite s))
        × (best_of C (unlink C b s level o) (opposite s) ≡ best_of C b (opposite s))
        × ((unlink C b s level o).order_pool ≡ b.order_pool)
        × ((unlink C b s level o).price_level_pool ≡ b.price_level_pool)
        × ((unlink C b s level o).order_index ≡ C.erase_id b.order_index o.order_id)
  unfolding unlink write_price_level
  unlink-Rewritten b buy level o h =
      (C.write_level_lem b.buy_book o.price (fifo_remove level o) h, refl, refl, refl, refl, refl)
  unlink-Rewritten b sell level o h =
      (C.write_level_lem b.sell_book o.price (fifo_remove level o) h, refl, refl, refl, refl, refl)

  trimmed-InRange :
      (p : ℕ) (level : PriceLevel) (m : List (ℕ × PriceLevel))
      → InRange C m
      → InRange C (trimmed_entries C p level m)
  trimmed-InRange p level m h = elim (Bool-cases (empty level)) [
    | inl e ↦ rw e (All-delete (λ (e : ℕ × PriceLevel). e.0 < price_limit) p m h)
    | inr e ↦ rw e h
  ]

  pub written-InRange :
      (p : ℕ) (level : PriceLevel) (m : List (ℕ × PriceLevel))
      → p < price_limit
      → InRange C m
      → InRange C (write p level m)
  written-InRange p level m b h =
      All-write (λ (e : ℕ × PriceLevel). e.0 < price_limit) p level m b h

  given_back : OrderBook C → Order → OrderBook C
  given_back b o = record b { order_pool = with_slot b.order_pool }
    where
      with_slot : Pool → Pool
      with_slot pool = record pool { free_list = o.slot ∷ pool.free_list }

  request_deallocation-room :
      (b : OrderBook C) (o : Order)
      → length b.order_pool.free_list < b.order_pool.capacity
      → request_deallocation_of_order C b o ≡ ok (given_back b o)
  unfolding request_deallocation_of_order given_back
  request_deallocation-room b o h =
      rw (deallocate-room b.order_pool o.slot h, request_deallocation_of_order)

  remaining_steps :
      (b b1 b2 : OrderBook C) (s : Side) (o : Order) (level : PriceLevel)
      → (side_of C b1 s ≡ write o.price (fifo_remove level o) (side_of C b s))
        × (side_of C b1 (opposite s) ≡ side_of C b (opposite s))
        × (best_of C b1 (opposite s) ≡ best_of C b (opposite s))
        × (b1.order_pool ≡ b.order_pool)
        × (b1.price_level_pool ≡ b.price_level_pool)
        × (b1.order_index ≡ C.erase_id b.order_index o.order_id)
      → Trimmed C b1 s o.price (fifo_remove level o) b2
      → Refreshed C b2 s (refresh_best C b2 s)
      → Removed b s o level (given_back (refresh_best C b2 s) o)
  unfolding given_back
  remaining_steps b b1 b2 buy o level u t r = record {
    removed = rw (r.same_side, t.trimmed, u.0);
    other_side = r.other_side ∙ t.untouched ∙ u.1;
    best_ok = rw r.same_side r.best_ok;
    other_best = r.other_best ∙ t.same_ask ∙ u.2;
    freed_order = rw (r.same_orders, t.same_orders, u.3);
    order_capacity = rw (r.same_orders, t.same_orders, u.3);
    freed_level = rw (r.same_levels, t.freed_level, u.4);
    level_capacity = rw (r.same_levels, t.same_capacity, u.4);
    erased_id = r.same_index ∙ t.same_index ∙ u.5;
  }
  remaining_steps b b1 b2 sell o level u t r = record {
    removed = rw (r.same_side, t.trimmed, u.0);
    other_side = r.other_side ∙ t.untouched ∙ u.1;
    best_ok = rw r.same_side r.best_ok;
    other_best = r.other_best ∙ t.same_bid ∙ u.2;
    freed_order = rw (r.same_orders, t.same_orders, u.3);
    order_capacity = rw (r.same_orders, t.same_orders, u.3);
    freed_level = rw (r.same_levels, t.freed_level, u.4);
    level_capacity = rw (r.same_levels, t.same_capacity, u.4);
    erased_id = r.same_index ∙ t.same_index ∙ u.5;
  }

  -- With room in the pools and the order's level at hand, nothing is thrown.
  pub remove_at-Removed :
      (b : OrderBook C) (s : Side) (o : Order) (level : PriceLevel)
      → o.price < price_limit
      → lookup o.price (side_of C b s) ≡ some level
      → level.price ≡ o.price
      → InRange C (side_of C b s)
      → length b.order_pool.free_list < b.order_pool.capacity
      → length b.price_level_pool.free_list < b.price_level_pool.capacity
      → (b' : OrderBook C) × (remove_at C b s o ≡ ok b') × Removed b s o level b'
  unfolding remove_at fifo_remove
  remove_at-Removed b s o level h f priced range room level_room =
      let u = unlink-Rewritten b s level o h in
      let b1 = unlink C b s level o in
      let f1 : lookup o.price (side_of C b1 s) ≡ some (fifo_remove level o) = rw u.0 (
        lookup-write o.price o.price (fifo_remove level o) level (side_of C b s) f
        ∙ (rw (==_self o.price))) in
      let (b2, e2, t) =
        trim_lem C b1 s o.price (fifo_remove level o) h priced f1 (rw u.4 level_room) in
      let range2 : InRange C (side_of C b2 s) =
        rw (t.trimmed, u.0)
          (trimmed-InRange o.price (fifo_remove level o) _
            (written-InRange o.price (fifo_remove level o) (side_of C b s) h range)) in
      let r = refresh_best-Refreshed C b2 s range2 in
      let room2 : length (refresh_best C b2 s).order_pool.free_list
          < (refresh_best C b2 s).order_pool.capacity =
        rw (r.same_orders, t.same_orders, u.3) room in
      (
        given_back (refresh_best C b2 s) o,
        rw (get_price_level-lookup C b s o.price h ∙ f, remove_at, e2)
            (request_deallocation-room (refresh_best C b2 s) o room2),
        remaining_steps b b1 b2 s o level u t r,
      )
