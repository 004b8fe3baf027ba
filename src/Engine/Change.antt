-- ===== src/Engine/Change.antt =====
-- MatchingEngine::onCancelOrder and MatchingEngine::onModifyOrder.
pub mod Cancel
use valyrian_stock_exchange.Prelude.{
  ℕ, ◌-◌, Bool, true, false, none, some, ◌&&◌, ◌==◌, ltb, if◌then◌else◌,
}
use valyrian_stock_exchange.Prelude.Int.{pos, negate_ℕ}
use valyrian_stock_exchange.CoreTypes.{is_filled, Order}
use valyrian_stock_exchange.Outcome.{Outcome, ok, threw, aborted}
use valyrian_stock_exchange.Containers.{Containers}
use valyrian_stock_exchange.OrderBook.{find_order, write_order, remove_order}
use valyrian_stock_exchange.Wal.{Wal, log_cancel, log_modify}
use valyrian_stock_exchange.Engine.State.{
  Engine, Run, done, escaped, terminated, out_of_fuel, update_order_state,
}
use valyrian_stock_exchange.Engine.Emit.{
  push_book_update, push_cancel_ack, push_db_cancel, push_modify_ack, push_db_modify,
}
use valyrian_stock_exchange.Engine.NewOrder.{on_new_order}

module _ {C : Containers} where
  -- From the successful test of the found order on. The function is noexcept and returns false
  -- on an exception.
  remove_found : Engine C → ℕ → Order → ℕ → Run (Engine C) Bool
  remove_found e order_id order action_ts = elim (remove_order C e.book order) [
    | ok b ↦
        let e1 = push_book_update (record e { book = b }) action_ts in
        let e2 = push_cancel_ack e1 order_id order.user_id order.state order.remaining action_ts in
        done
          (push_db_cancel e2 order_id order.user_id order.side order.type order.price order.quantity
            order.remaining action_ts)
          true
    | threw b ↦ done (record e { book = b }) false
    | aborted b ↦ terminated
  ]

  cancel_found : Engine C → ℕ → ℕ → Run (Engine C) Bool
  unfolding remove_found
  cancel_found e order_id action_ts = elim (find_order C e.book order_id) [
    | none ↦ done e false
    | some order ↦
        if is_filled order.state then done e false else remove_found e order_id order action_ts
  ]

  -- The log takes the entry unless the engine is recovering.
  log_unless_recovering : Engine C → Outcome Wal → Outcome Wal
  log_unless_recovering e attempt = if e.is_recovering then ok e.wal else attempt

  pub on_cancel_order : Engine C → ℕ → ℕ → Run (Engine C) Bool
  unfolding cancel_found log_unless_recovering
  on_cancel_order e order_id action_ts =
      elim (log_unless_recovering e (log_cancel e.wal order_id)) [
        | ok w ↦ cancel_found (record e { wal = w }) order_id action_ts
        | threw w ↦ done (record e { wal = w }) false
        | aborted w ↦ terminated
      ]

  -- The reduced order has nothing left: it leaves the book.
  drop_reduced : Engine C → Order → ℕ → Run (Engine C) Bool
  drop_reduced e order action_ts = elim (remove_order C e.book order) [
    | ok b ↦ done (push_book_update (record e { book = b }) action_ts) true
    | threw b ↦ done (record e { book = b; in_modify = false }) false
    | aborted b ↦ terminated
  ]

  -- A smaller quantity at the same price keeps the order's place. The level's aggregated
  -- quantity is not touched.
  reduce_order : Engine C → ℕ → Order → ℕ → ℕ → Run (Engine C) Bool
  unfolding drop_reduced
  reduce_order e order_id order new_qty action_ts =
      let reduction_qty = order.quantity - new_qty in
      if ltb order.remaining reduction_qty
      then done e false
      else (let reduced = update_order_state (record order {
        quantity = order.quantity - reduction_qty;
        remaining = order.remaining - reduction_qty;
      }) in
          let e1 = record e { book = write_order C e.book reduced } in
          if is_filled reduced.state
          then drop_reduced e1 reduced action_ts
          else done
              (push_db_modify
                (push_modify_ack (push_book_update e1 action_ts) order_id reduced.user_id
                  reduced.remaining reduced.state action_ts)
                (record reduced { order_id = order_id }) action_ts (negate_ℕ reduction_qty))
              true)

  -- The new order has been placed under the old id.
  acknowledge_replaced : Engine C → ℕ → ℕ → Engine C
  acknowledge_replaced e order_id action_ts = elim (find_order C e.book order_id) [
    | none ↦ e
    | some placed ↦
        push_db_modify
          (push_modify_ack e order_id placed.user_id placed.remaining placed.state action_ts)
          (record placed { order_id = order_id }) action_ts (pos placed.remaining)
  ]

  -- After the call of onNewOrder, the catch block included.
  replaced : ℕ → ℕ → Run (Engine C) Bool → Run (Engine C) Bool
  unfolding acknowledge_replaced
  replaced order_id action_ts (done e true) =
      done (acknowledge_replaced (record e { in_modify = false }) order_id action_ts) true
  replaced order_id action_ts (done e false) = done (record e { in_modify = false }) false
  replaced order_id action_ts (escaped e) = done (record e { in_modify = false }) false
  replaced order_id action_ts terminated = terminated
  replaced order_id action_ts out_of_fuel = out_of_fuel

  -- After the cancellation of the old order.
  place_again : ℕ → Order → ℕ → ℕ → ℕ → ℕ → Run (Engine C) Bool → Run (Engine C) Bool
  unfolding replaced
  place_again fuel order order_id new_price new_qty action_ts (done e true) =
      replaced order_id action_ts (
        on_new_order fuel (record e { in_modify = true }) order_id order.user_id order.side
          order.type new_price new_qty action_ts action_ts)
  place_again fuel order order_id new_price new_qty action_ts (done e false) = done e false
  place_again fuel order order_id new_price new_qty action_ts (escaped e) =
      done (record e { in_modify = false }) false
  place_again fuel order order_id new_price new_qty action_ts terminated = terminated
  place_again fuel order order_id new_price new_qty action_ts out_of_fuel = out_of_fuel

  -- Any other change cancels the order and places it anew.
  replace_order : ℕ → Engine C → Order → ℕ → ℕ → ℕ → ℕ → Run (Engine C) Bool
  unfolding place_again
  replace_order fuel e order order_id new_price new_qty action_ts =
      place_again fuel order order_id new_price new_qty action_ts
        (on_cancel_order e order.order_id action_ts)

  modify_found : ℕ → Engine C → ℕ → ℕ → ℕ → ℕ → Run (Engine C) Bool
  unfolding reduce_order replace_order
  modify_found fuel e order_id new_price new_qty action_ts = elim (find_order C e.book order_id) [
    | none ↦ done e false
    | some order ↦
        if (new_price == order.price) && ltb new_qty order.quantity
        then reduce_order e order_id order new_qty action_ts
        else replace_order fuel e order order_id new_price new_qty action_ts
  ]

  pub on_modify_order : ℕ → Engine C → ℕ → ℕ → ℕ → ℕ → Run (Engine C) Bool
  unfolding modify_found log_unless_recovering
  on_modify_order fuel e order_id new_price new_qty action_ts =
      elim (log_unless_recovering e (log_modify e.wal order_id new_price new_qty)) [
        | ok w ↦ modify_found fuel (record e { wal = w }) order_id new_price new_qty action_ts
        | threw w ↦ done (record e { wal = w }) false
        | aborted w ↦ terminated
      ]
