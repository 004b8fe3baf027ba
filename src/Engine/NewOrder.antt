-- ===== src/Engine/NewOrder.antt =====
-- MatchingEngine::onNewOrder. `fuel` bounds the rounds of the matching loop.
pub mod Settle
pub mod Leftover
pub mod Returns
pub mod Refused
use valyrian_stock_exchange.Prelude.{
  ℕ, Bool, true, false, none, some, ◌&&◌, ◌||◌, ◌==◌, ltb, if◌then◌else◌,
}
use valyrian_stock_exchange.CoreTypes.{
  Side, OrderType, new, cancelled, is_market, is_filled, is_cancelled, Order,
}
use valyrian_stock_exchange.Outcome.{Outcome, ok, threw, aborted}
use valyrian_stock_exchange.Containers.{Containers}
use valyrian_stock_exchange.OrderBook.{
  request_allocation_of_order, request_deallocation_of_order, insert_order, remove_order,
}
use valyrian_stock_exchange.Wal.{Wal, add, log_input}
use valyrian_stock_exchange.Engine.State.{
  Engine, Run, done, escaped, terminated, out_of_fuel, update_order_state,
}
use valyrian_stock_exchange.Engine.Emit.{push_book_update, push_db_accept, push_cancel_ack}
use valyrian_stock_exchange.Engine.Match.{match_loop}

module _ {C : Containers} where
  -- The outer catch block; an exception in it leaves the function.
  give_up : Engine C → Order → Run (Engine C) Bool
  give_up e order = elim (request_deallocation_of_order C e.book order) [
    | ok b ↦ done (record e { book = b }) false
    | threw b ↦ escaped (record e { book = b })
    | aborted b ↦ terminated
  ]

  log_add : Engine C → Order → Outcome Wal
  log_add e order = if e.is_recovering || e.in_modify then ok e.wal else log_input e.wal add order

  -- Gives the order back to the pool, and returns `result`.
  pub free_order : Engine C → Order → Bool → Run (Engine C) Bool
  unfolding give_up
  free_order e order result = elim (request_deallocation_of_order C e.book order) [
    | ok b ↦ done (record e { book = b }) result
    | threw b ↦ give_up (record e { book = b }) order
    | aborted b ↦ terminated
  ]

  -- The order does not stay: it is a market order, filled or cancelled.
  pub finish_order : Engine C → Order → Run (Engine C) Bool
  unfolding log_add free_order
  finish_order e order = elim (log_add e order) [
    | ok w ↦ free_order (record e { wal = w }) order true
    | threw w ↦ free_order (record e { wal = w }) order false
    | aborted w ↦ terminated
  ]

  -- The log refused the entry of an order that rests in the book.
  unrest_order : Engine C → Order → Run (Engine C) Bool
  unfolding give_up
  unrest_order e order = elim (remove_order C e.book order) [
    | ok b ↦ done (record e { book = b }) false
    | threw b ↦ give_up (record e { book = b }) order
    | aborted b ↦ terminated
  ]

  log_rested : Engine C → Order → Run (Engine C) Bool
  unfolding log_add unrest_order
  log_rested e order = elim (log_add e order) [
    | ok w ↦ done (record e { wal = w }) true
    | threw w ↦ unrest_order (record e { wal = w }) order
    | aborted w ↦ terminated
  ]

  -- What is left of the order goes to the book.
  pub rest_order : Engine C → Order → ℕ → Run (Engine C) Bool
  unfolding log_rested give_up
  rest_order e order action_ts = elim (insert_order C e.book order) [
    | ok b ↦ log_rested (push_book_update (record e { book = b }) action_ts) order
    | threw b ↦ give_up (record e { book = b }) order
    | aborted b ↦ terminated
  ]

  -- A market order never rests: what is left of it is cancelled.
  pub cancel_leftover : Engine C → Order → ℕ → Engine C × Order
  cancel_leftover e order action_ts =
      if is_market order.type && ltb 0 order.remaining
      then (
        push_cancel_ack e order.order_id order.user_id cancelled order.remaining action_ts,
        record order { state = cancelled },
      )
      else (e, order)

  pub place_left : Engine C → Order → ℕ → Run (Engine C) Bool
  unfolding finish_order rest_order
  place_left e order action_ts =
      if is_market order.type || is_filled order.state || is_cancelled order.state
      then finish_order e order
      else rest_order e order action_ts

  -- From `updateOrderState(order)` on.
  pub settle : Engine C → Order → ℕ → Run (Engine C) Bool
  unfolding cancel_leftover place_left
  settle e matched action_ts =
      let (e1, order) = cancel_leftover e (update_order_state matched) action_ts in
      place_left e1 order action_ts

  -- From `pushDbAccept` on.
  place_order : ℕ → Engine C → Order → ℕ → Run (Engine C) Bool
  unfolding settle
  place_order fuel e order action_ts =
      elim (match_loop fuel (push_db_accept e order action_ts) order action_ts) [
        | done e1 matched ↦ settle e1 matched action_ts
        | escaped e1 ↦ escaped e1
        | terminated ↦ terminated
        | out_of_fuel ↦ out_of_fuel
      ]

  -- `now` is what getCurrentWallTime would return.
  pub on_new_order : ℕ → Engine C → ℕ → ℕ → Side → OrderType → ℕ → ℕ → ℕ → ℕ → Run (Engine C) Bool
  unfolding place_order
  on_new_order fuel e order_id user_id side type price qty timestamp now =
      let action_ts = if timestamp == 0 then now else timestamp in
      elim (request_allocation_of_order C e.book) [
        | none ↦ done e false
        | some (slot, b) ↦
            place_order fuel (record e { book = b })
              (record {
                slot = slot;
                order_id = order_id;
                user_id = user_id;
                side = side;
                type = type;
                price = price;
                quantity = qty;
                remaining = qty;
                timestamp = action_ts;
                state = new;
              })
              action_ts
      ]
