-- ===== src/Engine/NewOrder/Returns.antt =====
-- MatchingEngine::onNewOrder as a whole, on a valid book and a disk that takes every write.
use valyrian_stock_exchange.Prelude.{
  ℕ, suc, ◌+◌, ◌≤◌, ◌<◌, ◌≡◌, ap, ◌∙◌, Bool, false, ◌⊎◌, inl, inr, none, some, length, [], arith,
  ◌==◌, if◌then◌else◌,
}
use valyrian_stock_exchange.CoreTypes.{Side, OrderType, opposite, new, Order}
use valyrian_stock_exchange.Pool.{Pool, allocate}
use valyrian_stock_exchange.Containers.{Containers, price_limit}
use valyrian_stock_exchange.OrderBook.{OrderBook, request_allocation_of_order}
use valyrian_stock_exchange.OrderBook.Valid.{Valid, side_of, order_count}
use valyrian_stock_exchange.OrderBook.Place.{allocate-cases}
use valyrian_stock_exchange.Wal.{Wal}
use valyrian_stock_exchange.Engine.State.{Engine, Run, done}
use valyrian_stock_exchange.Engine.Emit.{push_db_accept}
use valyrian_stock_exchange.Engine.Emit.Frame.{push_db_accept-SameCore}
use valyrian_stock_exchange.Engine.Match.{match_loop}
use valyrian_stock_exchange.Engine.Match.Progress.{rounds_left}
use valyrian_stock_exchange.Engine.Match.Loop.{Matched, match_loop-Returns}
use valyrian_stock_exchange.Engine.Match.Disk.{Writable, match_loop-Writable}
use valyrian_stock_exchange.Engine.NewOrder.{settle, place_order, on_new_order}
use valyrian_stock_exchange.Engine.NewOrder.Leftover.{Settled, settle-Settled}

-- The order that onNewOrder builds in the slot it is given.
abbrev pub incoming : ℕ → ℕ → ℕ → Side → OrderType → ℕ → ℕ → ℕ → Order
incoming slot order_id user_id side type price qty action_ts = record {
  slot = slot;
  order_id = order_id;
  user_id = user_id;
  side = side;
  type = type;
  price = price;
  quantity = qty;
  remaining = qty;
  timestamp = action_ts;
  state = new;
}

module _ {C : Containers} where
  -- The order is matched from `e` on, and what is left of it is settled.
  pub record Processed (e : Engine C) (o : Order) (ts : ℕ) (r : Run (Engine C) Bool) : Type 0 where
    pub matched_engine : Engine C
    pub left : Order
    pub matched : Matched (push_db_accept e o ts) o matched_engine left
    pub settled : Settled matched_engine left r

  place_order-done :
      (fuel : ℕ) (e e' : Engine C) (o o' : Order) (ts : ℕ)
      → match_loop fuel (push_db_accept e o ts) o ts ≡ done e' o'
      → place_order fuel e o ts ≡ settle e' o' ts
  unfolding place_order
  place_order-done fuel e e' o o' ts h = rw (h, place_order)

  place_order-Processed :
      (fuel : ℕ) (e : Engine C) (o : Order) (ts : ℕ)
      → Valid C 1 e.book
      → Writable e
      → 0 < o.quantity
      → o.remaining ≤ o.quantity
      → o.price < price_limit
      → rounds_left e o < fuel
      → Processed e o ts (place_order fuel e o ts)
  place_order-Processed fuel e o ts v h positive within range enough =
      let core = push_db_accept-SameCore e o ts in
      let back =
        match_loop-Returns fuel (push_db_accept e o ts) o ts (rw core.book v)
          (rw core.book enough) in
      let writable =
        match_loop-Writable fuel (push_db_accept e o ts) o ts
          (ap (λ (w : Wal). w.disk) core.wal ∙ h) back.returned in
      let q : back.order.quantity ≡ o.quantity = ap (λ (x : Order). x.quantity) back.matched.same in
      let p : back.order.price ≡ o.price = ap (λ (x : Order). x.price) back.matched.same in
      record {
        matched_engine = back.engine;
        left = back.order;
        matched = back.matched;
        settled = rw (place_order-done fuel e back.engine o back.order ts back.returned) (
            settle-Settled back.engine back.order ts back.matched.valid writable (omega (arith, q))
              (omega (arith, q, back.matched.less)) (rw p range));
      }

  allocated-Valid :
      {held : ℕ} (b : OrderBook C) (pool : Pool)
      → Valid C held b
      → length b.order_pool.free_list ≡ suc (length pool.free_list)
      → pool.capacity ≡ b.order_pool.capacity
      → Valid C (suc held) (record b { order_pool = pool })
  allocated-Valid b pool v fewer cap = record {
    bids = v.bids;
    asks = v.asks;
    orders_kept = omega (arith, v.orders_kept, fewer, cap);
    levels_kept = v.levels_kept;
  }

  -- Without a free slot the order is refused, and nothing changes; with one it is processed.
  abbrev pub Handled :
      Engine C → ℕ → ℕ → Side → OrderType → ℕ → ℕ → ℕ → Run (Engine C) Bool → Type 0
  Handled e order_id user_id side type price qty action_ts r =
      ((allocate e.book.order_pool ≡ none) × (r ≡ done e false))
      ⊎ ((slot : ℕ) × (pool : Pool) × (allocate e.book.order_pool ≡ some (slot, pool))
          × Processed (record e { book = record (e.book) { order_pool = pool } })
              (incoming slot order_id user_id side type price qty action_ts) action_ts r)

  -- On a valid book with no order in flight, when the disk takes every write, for an order of a
  -- positive quantity at a price below 2^63, and with more fuel than the resting orders of the other
  -- side plus one, onNewOrder always returns. Either the pool has no free order, it returns false and
  -- the engine is as it was; or the order is accepted and matched until nothing is left of it, the
  -- other side is empty or its best price is beyond the order's limit. Then a market order, and one
  -- of which nothing is left, gives its slot back and true is returned; a limit order of which
  -- something is left rests last in the level of its price and true is returned, or the pool of
  -- levels is exhausted, its slot is given back and false is returned. A slot given back is the first
  -- of the free ones, in front of those that matching left. The book is valid again, with no order in
  -- flight, and the sides are otherwise those that matching left.
  pub on_new_order-Handled :
      (fuel : ℕ) (e : Engine C) (order_id user_id : ℕ) (side : Side) (type : OrderType)
      (price qty timestamp now : ℕ)
      → Valid C 0 e.book
      → e.wal.disk ≡ []
      → 0 < qty
      → price < price_limit
      → order_count (side_of C e.book (opposite side)) + 1 < fuel
      → Handled e order_id user_id side type price qty
          (if timestamp == 0 then now else timestamp)
          (on_new_order fuel e order_id user_id side type price qty timestamp now)
  unfolding on_new_order request_allocation_of_order
  on_new_order-Handled fuel e order_id user_id side type price qty timestamp now v h positive range
        enough =
      elim (allocate-cases e.book.order_pool) [
        | inl full ↦ inl (full, rw (full, on_new_order))
        | inr (slot, pool, taken, fewer, cap) ↦ inr (
          slot,
          pool,
          taken,
          rw (taken, on_new_order)
              (place_order-Processed fuel
                (record e { book = record (e.book) { order_pool = pool } })
                (incoming slot order_id user_id side type price qty
                  (if timestamp == 0 then now else timestamp))
                (if timestamp == 0 then now else timestamp)
                (allocated-Valid e.book pool v fewer cap) h positive (omega arith) range
                (ground arith)),
        )
      ]
