-- ===== src/Engine/NewOrder/Settle.antt =====
-- What onNewOrder does after matching, on a valid book and a disk that takes every write.
use valyrian_stock_exchange.Prelude.{
  ℕ, suc, ◌<◌, ◌≡◌, refl, ap, ◌∙◌, Bool, true, false, Bool-cases, ◌⊎◌, inl, inr, none, length,
  arith, ◌||◌, ◌==◌, ◌∷◌,
}
use valyrian_stock_exchange.CoreTypes.{limit, is_market, is_filled, is_cancelled, Order}
use valyrian_stock_exchange.Outcome.{ok}
use valyrian_stock_exchange.Prelude.Assoc.{lookup}
use valyrian_stock_exchange.Pool.{Pool, allocate}
use valyrian_stock_exchange.PriceLevel.Laws.{OrderOk}
use valyrian_stock_exchange.Containers.{Containers, price_limit}
use valyrian_stock_exchange.OrderBook.{OrderBook, request_deallocation_of_order}
use valyrian_stock_exchange.OrderBook.Valid.{Valid, side_of}
use valyrian_stock_exchange.OrderBook.Removal.{deallocate-room}
use valyrian_stock_exchange.OrderBook.Rest.{Rested}
use valyrian_stock_exchange.OrderBook.Place.{insert_at-Placed}
use valyrian_stock_exchange.Wal.{Wal, add}
use valyrian_stock_exchange.Wal.Writes.{Writes, log_input-Writes}
use valyrian_stock_exchange.Engine.State.{Engine, Run, done, state_after}
use valyrian_stock_exchange.Engine.Emit.{push_book_update}
use valyrian_stock_exchange.Engine.Emit.Frame.{push_book_update-SameCore}
use valyrian_stock_exchange.Engine.Match.Disk.{Writable}
use valyrian_stock_exchange.Engine.NewOrder.{
  give_up, log_add, free_order, finish_order, log_rested, rest_order,
}

pub filled_lem :
    (o : Order)
    → o.type ≡ limit
    → 0 < o.quantity
    → (o.remaining == 0) ≡ true
    → (is_market o.type
        || is_filled (state_after o.remaining o.quantity)
        || is_cancelled (state_after o.remaining o.quantity))
      ≡ true
unfolding state_after
filled_lem o t positive over = ground (arith, t)

pub open_lem :
    (o : Order)
    → o.type ≡ limit
    → (o.remaining == 0) ≡ false
    → (is_market o.type
        || is_filled (state_after o.remaining o.quantity)
        || is_cancelled (state_after o.remaining o.quantity))
      ≡ false
unfolding state_after
open_lem o t left = ground (arith, t)

module _ {C : Containers} where
  -- An allocated order that does not rest can be given back.
  pub give_back_held :
      {held : ℕ} (b : OrderBook C) (o : Order)
      → Valid C (suc held) b
      → (pool : Pool) × (request_deallocation_of_order C b o ≡ ok (record b { order_pool = pool }))
        × Valid C held (record b { order_pool = pool })
        × (pool.free_list ≡ o.slot ∷ b.order_pool.free_list)
  unfolding request_deallocation_of_order
  give_back_held b o v =
      let room : length b.order_pool.free_list < b.order_pool.capacity =
        omega (arith, v.orders_kept) in
      (
        record (b.order_pool) { free_list = o.slot ∷ b.order_pool.free_list },
        rw (deallocate-room b.order_pool o.slot room, request_deallocation_of_order),
        record {
          bids = v.bids;
          asks = v.asks;
          orders_kept = omega (arith, v.orders_kept);
          levels_kept = v.levels_kept;
        },
        refl,
      )

  -- The two sides of the books are the same.
  pub record SameSides (b b' : OrderBook C) : Type 0 where
    pub bids : C.entries b'.buy_book ≡ C.entries b.buy_book
    pub asks : C.entries b'.sell_book ≡ C.entries b.sell_book

  log_add-Writes : (e : Engine C) (o : Order) → Writable e → Writes (log_add e o)
  unfolding log_add
  log_add-Writes e o h = elim (Bool-cases (e.is_recovering || e.in_modify)) [
    | inl quiet ↦ (e.wal, rw (log_add, quiet), h)
    | inr loud ↦
        let (w, logged, writable) = log_input-Writes e.wal add o h in
        (w, rw (log_add, loud) logged, writable)
  ]

  -- The call returns `result`, on a valid book of the same resting orders, and `slot` is the first of
  -- its free ones, in front of those of `e`.
  pub record Gone (e : Engine C) (slot : ℕ) (result : Bool) (r : Run (Engine C) Bool) : Type 0 where
    pub after : Engine C
    pub returned : r ≡ done after result
    pub valid : Valid C 0 after.book
    pub same : SameSides e.book after.book
    pub freed : after.book.order_pool.free_list ≡ slot ∷ e.book.order_pool.free_list

  -- The call returns true, and the order rests on a valid book.
  pub record Rests (e : Engine C) (o : Order) (r : Run (Engine C) Bool) : Type 0 where
    pub after : Engine C
    pub returned : r ≡ done after true
    pub valid : Valid C 0 after.book
    pub rested : Rested C e.book o.side o after.book

  pub free_order-done :
      (e : Engine C) (o : Order) (b : OrderBook C) (result : Bool)
      → request_deallocation_of_order C e.book o ≡ ok b
      → free_order e o result ≡ done (record e { book = b }) result
  unfolding free_order
  free_order-done e o b result h = rw (h, free_order)

  pub finish_order-Gone :
      (e : Engine C) (o : Order)
      → Valid C 1 e.book
      → Writable e
      → Gone e o.slot true (finish_order e o)
  unfolding finish_order
  finish_order-Gone e o v h =
      let (w, logged, writable) = log_add-Writes e o h in
      let (pool, given, v', slots) = give_back_held e.book o v in
      record {
        after = record e { wal = w; book = record (e.book) { order_pool = pool } };
        returned =
            rw (logged, finish_order)
              (free_order-done (record e { wal = w }) o (record (e.book) { order_pool = pool }) true
                given);
        valid = v';
        same = record { bids = refl; asks = refl };
        freed = slots;
      }

  give_up-Gone : (e : Engine C) (o : Order) → Valid C 1 e.book → Gone e o.slot false (give_up e o)
  unfolding give_up
  give_up-Gone e o v =
      let (pool, given, v', slots) = give_back_held e.book o v in
      record {
        after = record e { book = record (e.book) { order_pool = pool } };
        returned = rw (given, give_up);
        valid = v';
        same = record { bids = refl; asks = refl };
        freed = slots;
      }

  log_rested-done :
      (e : Engine C) (o : Order)
      → Writable e
      → (w : Wal) × (log_rested e o ≡ done (record e { wal = w }) true)
  unfolding log_rested
  log_rested-done e o h =
      let (w, logged, writable) = log_add-Writes e o h in (w, rw (logged, log_rested))

  -- The order rests, or the levels are exhausted and the call returns false.
  abbrev pub Ends : Engine C → Order → Run (Engine C) Bool → Type 0
  Ends e o r =
      Rests e o r
      ⊎ ((lookup o.price (side_of C e.book o.side) ≡ none)
          × (allocate e.book.price_level_pool ≡ none)
          × Gone e o.slot false r)

  pub rest_order-Ends :
      (e : Engine C) (o : Order) (ts : ℕ)
      → Valid C 1 e.book
      → Writable e
      → OrderOk o.side o.price o
      → o.price < price_limit
      → Ends e o (rest_order e o ts)
  unfolding rest_order
  rest_order-Ends e o ts v h fits range = elim (insert_at-Placed C e.book o.side o v fits range) [
    | inl (b, placed, v', rested) ↦
        let e1 = push_book_update (record e { book = b }) ts in
        let core = push_book_update-SameCore (record e { book = b }) ts in
        let (w, logged) = log_rested-done e1 o (ap (λ (w : Wal). w.disk) core.wal ∙ h) in
        inl (record {
          after = record e1 { wal = w };
          returned = rw (placed, rest_order) logged;
          valid = rw core.book v';
          rested = rw core.book rested;
        })
    | inr (missing, empty, full) ↦ inr (missing, empty, rw (full, rest_order) (give_up-Gone e o v))
  ]
