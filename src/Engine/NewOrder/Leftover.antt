-- ===== src/Engine/NewOrder/Leftover.antt =====
-- The end of a new order, by its type and what matching left of it.
use mathlib.Core.Path.{subst}
use valyrian_stock_exchange.Prelude.{
  ℕ, ◌≤◌, ◌<◌, ◌≡◌, refl, ap, ◌∙◌, Bool, true, false, Bool-cases, ◌⊎◌, inl, inr, arith, ◌&&◌, ◌||◌,
  ◌==◌, ltb,
}
use valyrian_stock_exchange.CoreTypes.{
  OrderType, limit, market, cancelled, is_market, is_filled, is_cancelled, Order,
}
use valyrian_stock_exchange.Containers.{Containers, price_limit}
use valyrian_stock_exchange.OrderBook.{OrderBook}
use valyrian_stock_exchange.OrderBook.Valid.{Valid}
use valyrian_stock_exchange.Wal.{Wal}
use valyrian_stock_exchange.Engine.State.{Engine, Run, update_order_state}
use valyrian_stock_exchange.Engine.Emit.Frame.{push_cancel_ack-SameCore}
use valyrian_stock_exchange.Engine.Match.Disk.{Writable}
use valyrian_stock_exchange.Engine.NewOrder.{
  finish_order, rest_order, cancel_leftover, place_left, settle,
}
use valyrian_stock_exchange.Engine.NewOrder.Settle.{
  filled_lem, open_lem, SameSides, Gone, finish_order-Gone, Ends, rest_order-Ends,
}

module _ {C : Containers} where
  pub cancel_leftover-core :
      (e : Engine C) (o : Order) (ts : ℕ)
      → ((cancel_leftover e o ts).0.book ≡ e.book)
        × ((cancel_leftover e o ts).0.wal ≡ e.wal)
        × ((cancel_leftover e o ts).1.slot ≡ o.slot)
        × (((cancel_leftover e o ts).0.is_recovering || (cancel_leftover e o ts).0.in_modify)
            ≡ (e.is_recovering || e.in_modify))
  unfolding cancel_leftover
  cancel_leftover-core e o ts =
      let core = push_cancel_ack-SameCore e o.order_id o.user_id cancelled o.remaining ts in
      elim (Bool-cases (is_market o.type && ltb 0 o.remaining)) [
        | inl some_left ↦
            rw (cancel_leftover, some_left)
              (core.book, core.wal, refl, rw (core.is_recovering, core.in_modify) refl)
        | inr nothing ↦ rw (cancel_leftover, nothing) (refl, refl, refl, refl)
      ]

  -- How a new order ends once `o` is left of it after matching.
  abbrev pub Settled : Engine C → Order → Run (Engine C) Bool → Type 0
  Settled e o r =
      (((o.type ≡ market) ⊎ (o.remaining ≡ 0)) × Gone e o.slot true r)
      ⊎ ((o.type ≡ limit) × (0 < o.remaining) × Ends e (update_order_state o) r)

  finish_left-Gone :
      (e : Engine C) (o : Order) (ts : ℕ)
      → Valid C 1 e.book
      → Writable e
      → Gone e o.slot true (finish_order (cancel_leftover e o ts).0 (cancel_leftover e o ts).1)
  finish_left-Gone e o ts v h =
      let (book, wal, slot, _) = cancel_leftover-core e o ts in
      let gone =
        finish_order-Gone (cancel_leftover e o ts).0 (cancel_leftover e o ts).1 (rw book v)
          (ap (λ (w : Wal). w.disk) wal ∙ h) in
      record {
        after = gone.after;
        returned = gone.returned;
        valid = gone.valid;
        same = subst (λ (b : OrderBook C). SameSides b gone.after.book) book gone.same;
        freed = rw (book, slot) at gone.freed;
      }

  pub cancel_leftover-market :
      (e : Engine C) (o : Order) (ts : ℕ)
      → o.type ≡ market
      → (cancel_leftover e o ts).1.type ≡ market
  unfolding cancel_leftover
  cancel_leftover-market e o ts t = ground (arith, t)

  pub cancel_leftover-limit :
      (e : Engine C) (o : Order) (ts : ℕ) → o.type ≡ limit → cancel_leftover e o ts ≡ (e, o)
  unfolding cancel_leftover
  cancel_leftover-limit e o ts t = rw (t, cancel_leftover)

  pub place_left-gone :
      (e : Engine C) (o : Order) (ts : ℕ)
      → (is_market o.type || is_filled o.state || is_cancelled o.state) ≡ true
      → place_left e o ts ≡ finish_order e o
  unfolding place_left
  place_left-gone e o ts h = rw (h, place_left)

  place_left-stays :
      (e : Engine C) (o : Order) (ts : ℕ)
      → (is_market o.type || is_filled o.state || is_cancelled o.state) ≡ false
      → place_left e o ts ≡ rest_order e o ts
  unfolding place_left
  place_left-stays e o ts h = rw (h, place_left)

  pub settle-Settled :
      (e : Engine C) (o : Order) (ts : ℕ)
      → Valid C 1 e.book
      → Writable e
      → 0 < o.quantity
      → o.remaining ≤ o.quantity
      → o.price < price_limit
      → Settled e o (settle e o ts)
  unfolding settle
  settle-Settled e o ts v h positive within range = go o.type refl
    where
      o1 : Order
      o1 = update_order_state o

      go : (ty : OrderType) → o.type ≡ ty → Settled e o (settle e o ts)
      go market t =
          let left = cancel_leftover e o1 ts in
          let goes : (is_market left.1.type || is_filled left.1.state || is_cancelled left.1.state)
              ≡ true =
            ap (λ x. is_market x || is_filled left.1.state || is_cancelled left.1.state)
              (cancel_leftover-market e o1 ts t) in
          inl (inl t, rw (place_left-gone left.0 left.1 ts goes) (finish_left-Gone e o1 ts v h))
      go limit t = elim (Bool-cases (o.remaining == 0)) [
        | inl over ↦ inl (
          inr (ground arith),
          rw
              (
                cancel_leftover-limit e o1 ts t,
                place_left-gone e o1 ts (filled_lem o t positive over),
              )
              (finish_order-Gone e o1 v h),
        )
        | inr left ↦ inr (
          t,
          ground arith,
          rw (cancel_leftover-limit e o1 ts t, place_left-stays e o1 ts (open_lem o t left))
              (rest_order-Ends e o1 ts v h
                (record {
                  on_side = refl;
                  at_price = refl;
                  open_quantity = ground arith;
                  within = within;
                  is_limit = t;
                })
                range),
        )
      ]
