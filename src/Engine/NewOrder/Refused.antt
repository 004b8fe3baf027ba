-- ===== src/Engine/NewOrder/Refused.antt =====
-- The end of a new order that does not rest, when the log refuses its entry.
use mathlib.Core.Path.{subst}
use valyrian_stock_exchange.Prelude.{
  ℕ, ◌<◌, ◌≡◌, refl, ap, ◌∙◌, Bool, true, false, ◌⊎◌, inl, inr, List, ◌∷◌, arith, ◌||◌,
}
use valyrian_stock_exchange.CoreTypes.{
  OrderType, limit, market, is_market, is_filled, is_cancelled, Order,
}
use valyrian_stock_exchange.Containers.{Containers}
use valyrian_stock_exchange.OrderBook.{OrderBook}
use valyrian_stock_exchange.OrderBook.Valid.{Valid}
use valyrian_stock_exchange.Wal.{Wal, add}
use valyrian_stock_exchange.Wal.Writes.{Refuses, log_input-Refuses}
use valyrian_stock_exchange.Engine.State.{Engine, update_order_state}
use valyrian_stock_exchange.Engine.NewOrder.{log_add, finish_order, cancel_leftover, settle}
use valyrian_stock_exchange.Engine.NewOrder.Settle.{
  give_back_held, free_order-done, filled_lem, SameSides, Gone,
}
use valyrian_stock_exchange.Engine.NewOrder.Leftover.{
  cancel_leftover-core, cancel_leftover-market, cancel_leftover-limit, place_left-gone,
}

module _ {C : Containers} where
  log_add-Refuses :
      (e : Engine C) (o : Order) (later : List Bool)
      → e.wal.disk ≡ false ∷ later
      → (e.is_recovering || e.in_modify) ≡ false
      → Refuses (log_add e o)
  unfolding log_add
  log_add-Refuses e o later h loud =
      let (w, refused) = log_input-Refuses e.wal add o later h in (w, rw (log_add, loud) refused)

  finish_order-Refused :
      (e : Engine C) (o : Order) (later : List Bool)
      → Valid C 1 e.book
      → e.wal.disk ≡ false ∷ later
      → (e.is_recovering || e.in_modify) ≡ false
      → Gone e o.slot false (finish_order e o)
  unfolding finish_order
  finish_order-Refused e o later v h loud =
      let (w, refused) = log_add-Refuses e o later h loud in
      let (pool, given, v', slots) = give_back_held e.book o v in
      record {
        after = record e { wal = w; book = record (e.book) { order_pool = pool } };
        returned =
            rw (refused, finish_order)
              (free_order-done (record e { wal = w }) o (record (e.book) { order_pool = pool })
                false given);
        valid = v';
        same = record { bids = refl; asks = refl };
        freed = slots;
      }

  finish_left-Refused :
      (e : Engine C) (o : Order) (ts : ℕ) (later : List Bool)
      → Valid C 1 e.book
      → e.wal.disk ≡ false ∷ later
      → (e.is_recovering || e.in_modify) ≡ false
      → Gone e o.slot false (finish_order (cancel_leftover e o ts).0 (cancel_leftover e o ts).1)
  finish_left-Refused e o ts later v h loud =
      let (book, wal, slot, quiet) = cancel_leftover-core e o ts in
      let gone =
        finish_order-Refused (cancel_leftover e o ts).0 (cancel_leftover e o ts).1 later (rw book v)
          (ap (λ (w : Wal). w.disk) wal ∙ h) (quiet ∙ loud) in
      record {
        after = gone.after;
        returned = gone.returned;
        valid = gone.valid;
        same = subst (λ (b : OrderBook C). SameSides b gone.after.book) book gone.same;
        freed = rw (book, slot) at gone.freed;
      }

  -- When the log refuses the entry of a new order that does not stay after matching, because it is a
  -- market order or nothing is left of it, outside a recovery and a modification, then the rest of
  -- onNewOrder returns false: the book is valid with no order in flight, its sides are those that
  -- matching left, and the order's slot is the first of the free ones, in front of the others.
  pub settle-Refused :
      (e : Engine C) (o : Order) (ts : ℕ) (later : List Bool)
      → Valid C 1 e.book
      → e.wal.disk ≡ false ∷ later
      → (e.is_recovering || e.in_modify) ≡ false
      → 0 < o.quantity
      → (o.type ≡ market) ⊎ (o.remaining ≡ 0)
      → Gone e o.slot false (settle e o ts)
  unfolding settle
  settle-Refused e o ts later v h loud positive over = go o.type refl over
    where
      o1 : Order
      o1 = update_order_state o

      go :
          (ty : OrderType)
          → o.type ≡ ty
          → (o.type ≡ market) ⊎ (o.remaining ≡ 0)
          → Gone e o.slot false (settle e o ts)
      go market t over =
          let left = cancel_leftover e o1 ts in
          let goes : (is_market left.1.type || is_filled left.1.state || is_cancelled left.1.state)
              ≡ true =
            ap (λ x. is_market x || is_filled left.1.state || is_cancelled left.1.state)
              (cancel_leftover-market e o1 ts t) in
          rw (place_left-gone left.0 left.1 ts goes) (finish_left-Refused e o1 ts later v h loud)
      go limit t (inl m) = absurd (cc)
      go limit t (inr nothing) =
          rw
            (
              cancel_leftover-limit e o1 ts t,
              place_left-gone e o1 ts (filled_lem o t positive (ground (arith, nothing))),
            )
            (finish_order-Refused e o1 later v h loud)
