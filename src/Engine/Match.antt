-- ===== src/Engine/Match.antt =====
-- MatchingEngine::match: one round of its loop, and the loop on a bound on the rounds.
pub mod Rounds
pub mod Progress
pub mod Loop
pub mod Trades
pub mod Disk
use valyrian_stock_exchange.Prelude.{
  ℕ, zero, suc, ◌-◌, min, Bool, false, none, some, ◌==◌, ltb, if◌then◌else◌,
}
use valyrian_stock_exchange.CoreTypes.{
  Side, buy, sell, OrderType, limit, market, opposite, is_filled, cancelled, Order,
}
use valyrian_stock_exchange.Outcome.{ok, threw, aborted, Outcome}
use valyrian_stock_exchange.Containers.{Containers}
use valyrian_stock_exchange.OrderBook.{
  OrderBook, get_order_at_best_price, consume_order, write_order, remove_order,
}
use valyrian_stock_exchange.Wal.{log_cancel, log_trade}
use valyrian_stock_exchange.Engine.State.{
  Engine, Run, done, terminated, out_of_fuel, update_order_state,
}
use valyrian_stock_exchange.Engine.Emit.{
  push_book_update, push_cancel_ack, push_db_cancel, emit_post_trade_events,
}

pub data Round (C : Containers) : Type 0 where
  -- a `break`, or the test of the loop fails
  stops : Engine C → Order → Round C
  goes_on : Engine C → Order → Round C
  -- `match` is noexcept
  dies : Round C

-- The limit price of the incoming order is worse than the best price.
unfoldable pub beyond_limit : Order → ℕ → Bool
beyond_limit incoming best_price = by_type incoming.type
  where
    by_side : Side → Bool
    by_side buy = ltb incoming.price best_price
    by_side sell = ltb best_price incoming.price

    by_type : OrderType → Bool
    by_type limit = by_side incoming.side
    by_type market = false

module _ {C : Containers} where
  -- An error of the log is printed, and matching goes on.
  log_cancel_quietly : Engine C → ℕ → Engine C
  log_cancel_quietly e id = if e.is_recovering then e else (elim (log_cancel e.wal id) [
    | ok w ↦ record e { wal = w }
    | threw w ↦ record e { wal = w }
    | aborted w ↦ record e { wal = w }
  ])

  unfoldable pub execute_trade : Engine C → Order → Order → ℕ → ℕ → Engine C
  execute_trade e aggressor resting price qty =
      if e.is_recovering
      then e
      else record e { wal = log_trade e.wal aggressor.order_id resting.order_id price qty }

  -- The incoming order's owner also owns the resting order, which is cancelled.
  pub prevent_self_trade : Engine C → Order → Order → ℕ → Round C
  unfolding log_cancel_quietly
  prevent_self_trade e incoming resting action_ts =
      let e1 = log_cancel_quietly e resting.order_id in
      elim (remove_order C e1.book resting) [
        | ok b ↦
            let e2 = push_book_update (record e1 { book = b }) action_ts in
            let e3 =
              push_cancel_ack e2 resting.order_id resting.user_id cancelled resting.remaining
                action_ts in
            goes_on
              (push_db_cancel e3 resting.order_id resting.user_id resting.side resting.type
                resting.price resting.quantity resting.remaining action_ts)
              incoming
        | threw b ↦ dies
        | aborted b ↦ dies
      ]

  -- The book after the fill: the resting order leaves it when nothing is left of it.
  pub drop_filled : OrderBook C → Order → Outcome (OrderBook C)
  drop_filled b resting = if is_filled resting.state then remove_order C b resting else ok b

  pub trade_with : Engine C → Order → Order → ℕ → Round C
  trade_with e incoming resting action_ts =
      let traded = min incoming.remaining resting.remaining in
      let e1 = execute_trade e incoming resting resting.price traded in
      let (b1, consumed) = consume_order C e1.book resting traded in
      let resting_snap = update_order_state consumed in
      let b2 = write_order C b1 resting_snap in
      let incoming' =
        update_order_state (record incoming { remaining = incoming.remaining - traded }) in
      elim (drop_filled b2 resting_snap) [
        | ok b ↦
            goes_on
              (emit_post_trade_events (record e1 { book = b }) incoming' resting_snap resting.price
                traded action_ts)
              incoming'
        | threw b ↦ dies
        | aborted b ↦ dies
      ]

  -- What follows once there is a resting order.
  pub meet : Engine C → Order → Order → ℕ → Round C
  meet e incoming resting action_ts =
      if beyond_limit incoming resting.price
      then stops e incoming
      else if incoming.user_id == resting.user_id
      then prevent_self_trade e incoming resting action_ts
      else trade_with e incoming resting action_ts

  pub match_round : Engine C → Order → ℕ → Round C
  match_round e incoming action_ts =
      if incoming.remaining == 0
      then stops e incoming
      else (elim (get_order_at_best_price C e.book (opposite incoming.side)) [
        | none ↦ stops e incoming
        | some resting ↦ meet e incoming resting action_ts
      ])

  pub match_loop : ℕ → Engine C → Order → ℕ → Run (Engine C) Order
  match_loop zero e incoming action_ts = out_of_fuel
  match_loop (suc fuel) e incoming action_ts = elim (match_round e incoming action_ts) [
    | stops e' incoming' ↦ done e' incoming'
    | goes_on e' incoming' ↦ match_loop fuel e' incoming' action_ts
    | dies ↦ terminated
  ]
