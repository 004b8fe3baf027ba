-- ===== src/Ems/IngressWorker.antt =====
-- ems/core/IngressWorker.h, ems/core/RejectHandler.h and ems/routing/SymbolRouter.h: a worker takes
-- orders from its queue, has them checked, and puts them into the ring of their symbol. An iteration
-- of the loop in `run` is one step; `now` is what the clock of the rate limiter would return in it.
-- What the workers share is one value here.
pub mod Queued
pub mod Ready
pub mod Judge
pub mod FromQueue
pub mod EndToEnd
use valyrian_stock_exchange.Prelude.{
  ℕ, Bool, true, false, Option, none, some, List, [], ◌∷◌, ◌==◌, ltb, ◌&&◌, if◌then◌else◌,
}
use valyrian_stock_exchange.CoreTypes.{new, RejectReason, invalid_range}
use valyrian_stock_exchange.Events.{OrderEvent, reject}
use valyrian_stock_exchange.Ems.Types.{RawOrder, OrderSlot}
use valyrian_stock_exchange.Ems.Disruptor.{Disruptor}
use valyrian_stock_exchange.Ems.Spsc.{Spsc}
use valyrian_stock_exchange.Ems.OrderQueue
use valyrian_stock_exchange.Ems.MpscRingBuffer.Moves.{put_order}
use valyrian_stock_exchange.Ems.RejectionBitset.{mark_rejected}
use valyrian_stock_exchange.Ems.ValidationPipeline.{
  ValidationPipeline, Verdict, accepted, rejected, process,
}
use valyrian_stock_exchange.Ems.Dispatcher.{Handlers, Lane}

pub record SymbolRouter : Type 0 where
  pub size : ℕ
  pub map : ℕ → ℕ

unfoldable pub new_router : ℕ → SymbolRouter
new_router num_symbols = record { size = num_symbols; map = λ i. i }

-- `none`: the element is past the end of the vector, and the behaviour is undefined.
unfoldable pub route : SymbolRouter → ℕ → Option ℕ
route r symbol_id = if ltb symbol_id r.size then some (r.map symbol_id) else none

abbrev pub slot_of : RawOrder → OrderSlot
slot_of o = record {
  sequence = o.sequence;
  order_id = o.order_id;
  timestamp = o.timestamp;
  user_id = o.user_id;
  symbol_id = o.symbol_id;
  price = o.price;
  qty = o.qty;
  side = o.side;
  type = o.type;
  cancel_flag = o.cancel_flag;
  modify_flag = o.modify_flag;
}

-- RespThread::rejectCallback: the event for an order turned down.
abbrev pub reject_event : RawOrder → RejectReason → OrderEvent
reject_event o reason = record {
  type = reject;
  order_id = o.order_id;
  user_id = o.user_id;
  symbol_id = o.symbol_id;
  fill_price = 0;
  fill_qty = 0;
  remaining = o.qty;
  state = new;
  reject_reason = reason;
  sequence = o.sequence;
  timestamp = o.timestamp;
}

-- `callback` says that RespThread has registered its callback. `rejects` is what was offered to the
-- queue of rejections, newest first: whether it had room is ignored.
pub record Ingress (D : Disruptor) (H : Handlers) : Type 0 where
  pub pipeline : ValidationPipeline
  pub router : SymbolRouter
  pub callback : Bool
  pub rejects : List OrderEvent
  pub lanes : ℕ → Lane D H

-- How an iteration ends: there is no order, the order is dealt with, the worker waits for room in the
-- ring, or memory outside an array is read.
pub data Intake (I : Type 0) : Type 0 where
  idle : Intake I
  taken : I → Intake I
  blocked : I → Intake I
  undefined : Intake I

module _ {D : Disruptor} {H : Handlers} where
  pub invoke : Ingress D H → RawOrder → RejectReason → Ingress D H
  invoke w o reason =
      if w.callback then record w { rejects = reject_event o reason ∷ w.rejects } else w

  abbrev pub put_lane : Ingress D H → ℕ → Lane D H → Ingress D H
  put_lane w idx l = record w { lanes = λ i. if i == idx then l else w.lanes i }

  -- The decision of the pipeline.
  unfoldable pub settle_order : Ingress D H → RawOrder → ℕ → Verdict → Intake (Ingress D H)
  unfolding invoke
  settle_order w o idx (rejected reason) =
      let l = w.lanes idx in
      taken (
        put_lane (invoke w o reason) idx
          (record l { rejected = mark_rejected l.rejected o.sequence }))
  settle_order w o idx accepted =
      let l = w.lanes idx in
      elim (put_order D l.ring (slot_of o)) [
        | none ↦ blocked w
        | some ring ↦ taken (put_lane w idx (record l { ring = ring }))
      ]

  check_order : Ingress D H → RawOrder → ℕ → ℕ → Intake (Ingress D H)
  unfolding settle_order
  check_order w o idx now =
      let (verdict, pipeline) = process w.pipeline o now in
      settle_order (record w { pipeline = pipeline }) o idx verdict

  -- What is done with the order at the front of the queue.
  unfoldable pub ingest : Ingress D H → RawOrder → ℕ → Intake (Ingress D H)
  unfolding check_order invoke
  ingest w o now =
      if o.sequence == 0
      then taken (invoke w o invalid_range)
      else elim (route w.router o.symbol_id) [
        | none ↦ undefined
        | some idx ↦ check_order w o idx now
      ]

  module _ (Q : Spsc RawOrder) where
    -- releaseSlot, once the order is dealt with
    abbrev pub released : Q.Queue → Intake (Ingress D H) → Intake (Ingress D H × Q.Queue)
    released q idle = idle
    released q (taken w) = taken (w, OrderQueue.release_slot Q q)
    released q (blocked w) = blocked (w, q)
    released q undefined = undefined

    pub work : Ingress D H → Q.Queue → ℕ → Intake (Ingress D H × Q.Queue)
    unfolding ingest
    work w q now = elim (OrderQueue.pop Q q) [ none ↦ idle | some o ↦ released q (ingest w o now) ]
