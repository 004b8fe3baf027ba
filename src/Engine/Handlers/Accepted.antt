-- ===== src/Engine/Handlers/Accepted.antt =====
-- A new order on its way from the checks of the ingress worker to the engine.
use valyrian_stock_exchange.Prelude.{
  ℕ, ◌+◌, ◌<◌, ◌≡◌, refl, Bool, true, false, Option, some, inl, inr, [], arith, ◌==◌, if◌then◌else◌,
}
use valyrian_stock_exchange.CoreTypes.{Side, OrderType}
use valyrian_stock_exchange.Containers.{Containers}
use valyrian_stock_exchange.OrderBook.Valid.{Valid, side_of, order_count}
use valyrian_stock_exchange.Engine.State.{Engine, Run}
use valyrian_stock_exchange.Engine.NewOrder.Returns.{Handled, on_new_order-Handled}
use valyrian_stock_exchange.Engine.Handlers.{outcome_of, type_of, engine_handlers, hand_over}
use valyrian_stock_exchange.Engine.Handlers
use valyrian_stock_exchange.Prelude.Int.{pos_part}
use valyrian_stock_exchange.Engine.NewOrder.{on_new_order}
use valyrian_stock_exchange.CoreTypes.{opposite}
use valyrian_stock_exchange.Ems.Types.{RawOrder}
use valyrian_stock_exchange.Ems.Dispatcher.{deliver}
use valyrian_stock_exchange.Ems.IngressWorker.{slot_of}
use valyrian_stock_exchange.Ems.ValidationPipeline.{
  ValidationPipeline, accepted, is_change, process,
}
use valyrian_stock_exchange.Ems.ValidationPipeline.Limits.{process-InLimits}

flags_clear :
    (o : RawOrder)
    → is_change o ≡ false
    → ((o.cancel_flag == 0) ≡ true) × ((o.modify_flag == 0) ≡ true)
flags_clear o new = (ground (arith, new), ground (arith, new))

module _ {C : Containers} where
  -- The process goes on, with a valid book.
  pub record Survives (r : Option (Engine C)) : Type 0 where
    pub engine : Engine C
    pub returned : r ≡ some engine
    pub valid : Valid C 0 engine.book

  Handled-Survives :
      (e : Engine C) (order_id user_id : ℕ) (side : Side) (type : OrderType)
      (price qty action_ts : ℕ) (r : Run (Engine C) Bool)
      → Valid C 0 e.book
      → Handled e order_id user_id side type price qty action_ts r
      → Survives (outcome_of C r)
  unfolding outcome_of
  Handled-Survives e order_id user_id side type price qty action_ts r v (inl (full, refused)) =
      record { engine = e; returned = rw refused refl; valid = v }
  Handled-Survives e order_id user_id side type price qty action_ts r v
        (inr (slot, pool, taken, placed)) =
      elim placed.settled [
        | inl (over, gone) ↦ record {
          engine = gone.after;
          returned = rw gone.returned refl;
          valid = gone.valid;
        }
        | inr (t, left, inl rests) ↦ record {
          engine = rests.after;
          returned = rw rests.returned refl;
          valid = rests.valid;
        }
        | inr (t, left, inr (missing, empty, gone)) ↦ record {
          engine = gone.after;
          returned = rw gone.returned refl;
          valid = gone.valid;
        }
      ]

  -- A new order that the checks accept never ends the process when the dispatcher gives it to an
  -- engine with a valid book, no order in flight and a disk that takes every write, for which there
  -- is more fuel than the resting orders of a side plus one. The book is valid again afterwards,
  -- with no order in flight.
  pub hand_over-Survives :
      (fuel : ℕ) (p : ValidationPipeline) (o : RawOrder) (checked now : ℕ) (e : Engine C)
      → (process p o checked).0 ≡ accepted
      → is_change o ≡ false
      → Valid C 0 e.book
      → e.wal.disk ≡ []
      → ((s : Side) → order_count (side_of C e.book s) + 1 < fuel)
      → Survives (hand_over C fuel e (slot_of o) now)
  unfolding hand_over engine_handlers deliver
  hand_over-Survives fuel p o checked now e passed new v disk enough =
      let limits = process-InLimits p o checked passed new in
      let (not_cancel, not_modify) = flags_clear o new in
      let side = Handlers.side_of o.side in
      let handled =
        on_new_order-Handled fuel e o.order_id o.user_id side (type_of o.type) (pos_part o.price)
          o.qty o.timestamp now v disk limits.quantity (omega (arith, limits.price))
          (enough (opposite side)) in
      rw (not_cancel, not_modify)
        (Handled-Survives e o.order_id o.user_id side (type_of o.type) (pos_part o.price) o.qty
          (if o.timestamp == 0 then now else o.timestamp)
          (on_new_order fuel e o.order_id o.user_id side (type_of o.type) (pos_part o.price) o.qty
            o.timestamp now)
          v handled)
