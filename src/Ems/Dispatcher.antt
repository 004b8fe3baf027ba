-- ===== src/Ems/Dispatcher.antt =====
-- ems/core/Dispatcher.h: the thread that takes the orders of one symbol to its engine. An iteration
-- of the loop in `run` is one step, and `now` is what the engine's clock would return in it.
pub mod Items
pub mod Backlog
pub mod Turns
pub mod Drain
pub mod Order
pub mod Stuck
pub mod Fresh
use valyrian_stock_exchange.Prelude.{
  ℕ, ◌+◌, ◌%◌, ◌^◌, Bool, true, false, Option, none, some, List, [], ◌∷◌, ◌==◌, if◌then◌else◌,
}
use valyrian_stock_exchange.Prelude.Int.{ℤ}
use valyrian_stock_exchange.Ems.Types.{OrderSlot}
use valyrian_stock_exchange.Ems.Disruptor.{Disruptor}
use valyrian_stock_exchange.Ems.MpscRingBuffer.{new_ring, is_available, release_slot, get}
use valyrian_stock_exchange.Ems.RejectionBitset.{
  RejectionBitset, no_rejections, try_consume_rejected,
}

-- The engine as the dispatcher calls it. `none`: an exception leaves the handler, and with it the
-- noexcept loop, which ends the process. The last argument is the time.
pub record Handlers : Type 1 where
  pub State : Type 0
  pub on_cancel_order : State → ℕ → ℕ → Option State
  pub on_modify_order : State → ℕ → ℤ → ℕ → ℕ → Option State
  -- order id, user, side, type, price, quantity, timestamp
  pub on_new_order : State → ℕ → ℕ → ℕ → ℕ → ℤ → ℕ → ℕ → ℕ → Option State

-- A dispatcher with what it works on: the ring, the rejections and the engine of its symbol.
pub record Lane (D : Disruptor) (H : Handlers) : Type 0 where
  pub ring : D.Buffer
  pub rejected : RejectionBitset
  pub engine : H.State
  pub next_server_sequence : ℕ
  pub next_ring_sequence : ℕ

-- What an iteration does: a rejected sequence number is passed over, an order is delivered, nothing
-- is there to be done, or the process ends.
pub data Turn (L : Type 0) : Type 0 where
  skipped : L → Turn L
  delivered : OrderSlot → L → Turn L
  paused : Turn L
  ended : Turn L

module _ (H : Handlers) where
  -- The call of the engine.
  unfoldable pub deliver : H.State → OrderSlot → ℕ → Option H.State
  deliver engine slot now =
      if slot.cancel_flag == 0
      then (if slot.modify_flag == 0
          then H.on_new_order engine slot.order_id slot.user_id slot.side slot.type slot.price
              slot.qty slot.timestamp now
          else H.on_modify_order engine slot.order_id slot.price slot.qty now)
      else H.on_cancel_order engine slot.order_id now

module _ {D : Disruptor} {H : Handlers} where
  unfoldable pub new_lane : ℕ → H.State → Lane D H
  new_lane size engine = record {
    ring = new_ring D size;
    rejected = no_rejections;
    engine = engine;
    next_server_sequence = 1;
    next_ring_sequence = 1;
  }

  -- After the call: the slot is given back, and both counters move on.
  unfoldable pub finish_turn : Lane D H → OrderSlot → Option H.State → Turn (Lane D H)
  finish_turn l slot none = ended
  finish_turn l slot (some engine) = delivered slot (record l {
    engine = engine;
    ring = release_slot D l.ring l.next_ring_sequence;
    next_ring_sequence = (l.next_ring_sequence + 1) % 2 ^ 64;
    next_server_sequence = (l.next_server_sequence + 1) % 2 ^ 64;
  })

  -- The order at the front of the ring waits for its turn.
  unfoldable pub take_slot : Lane D H → OrderSlot → ℕ → Turn (Lane D H)
  unfolding finish_turn
  take_slot l slot now =
      if slot.sequence == l.next_server_sequence
      then finish_turn l slot (deliver H l.engine slot now)
      else paused

  unfoldable pub turn : Lane D H → ℕ → Turn (Lane D H)
  unfolding take_slot
  turn l now =
      let (hit, bits) = try_consume_rejected l.rejected l.next_server_sequence in
      if hit
      then skipped (record l {
        rejected = bits;
        next_server_sequence = (l.next_server_sequence + 1) % 2 ^ 64;
      })
      else if is_available D l.ring l.next_ring_sequence
      then take_slot l (get D l.ring l.next_ring_sequence) now
      else paused

  abbrev pub after_turn : Lane D H → Turn (Lane D H) → Option (Lane D H)
  after_turn l (skipped l') = some l'
  after_turn l (delivered s l') = some l'
  after_turn l paused = some l
  after_turn l ended = none

  -- As many iterations as there are readings of the clock; `none`: the process ended.
  unfoldable pub run : Lane D H → List ℕ → Option (Lane D H)
  unfolding turn
  run l [] = some l
  run l (now ∷ nows) = elim (after_turn l (turn l now)) [ none ↦ none | some l' ↦ run l' nows ]
