-- ===== src/Engine/Handlers.antt =====
-- The engine as a dispatcher calls it. A price below zero, and a code other than 0 and 1 of a side
-- or a type, are not modelled; the checks refuse them in new orders.
pub mod Accepted
use valyrian_stock_exchange.Prelude.{ℕ, Bool, Option, none, some, ◌==◌, if◌then◌else◌}
use valyrian_stock_exchange.Prelude.Int.{pos_part}
use valyrian_stock_exchange.CoreTypes.{Side, buy, sell, OrderType, limit, market}
use valyrian_stock_exchange.Containers.{Containers}
use valyrian_stock_exchange.Engine.State.{Engine, Run, done, escaped, terminated, out_of_fuel}
use valyrian_stock_exchange.Engine.NewOrder
use valyrian_stock_exchange.Engine.Change
use valyrian_stock_exchange.Ems.Types.{OrderSlot}
use valyrian_stock_exchange.Ems.Dispatcher.{Handlers, deliver}

side_of : ℕ → Side
side_of code = if code == 0 then buy else sell

type_of : ℕ → OrderType
type_of code = if code == 0 then limit else market

module _ (C : Containers) where
  -- The dispatcher ignores what a handler returns. An exception that leaves a handler ends the
  -- process, and so does std::terminate.
  outcome_of : Run (Engine C) Bool → Option (Engine C)
  outcome_of (done e result) = some e
  outcome_of (escaped e) = none
  outcome_of terminated = none
  outcome_of out_of_fuel = none

  -- `fuel` bounds the rounds of the matching loop.
  unfoldable pub engine_handlers : ℕ → Handlers
  unfolding outcome_of side_of type_of
  engine_handlers fuel = record {
    State = Engine C;
    on_cancel_order = λ e order_id now. outcome_of (Change.on_cancel_order e order_id now);
    on_modify_order = λ e order_id price qty now.
        outcome_of (Change.on_modify_order fuel e order_id (pos_part price) qty now);
    on_new_order = λ e order_id user_id side type price qty timestamp now. outcome_of (
        NewOrder.on_new_order fuel e order_id user_id (side_of side) (type_of type) (pos_part price)
          qty timestamp now);
  }

  -- The dispatcher's call, when the engine is this one.
  unfoldable pub hand_over : ℕ → Engine C → OrderSlot → ℕ → Option (Engine C)
  unfolding engine_handlers
  hand_over fuel e slot now = deliver (engine_handlers fuel) e slot now
