-- ===== src/Ems/IngressWorker/Ready.antt =====
-- A worker settles one order for a symbol.
use valyrian_stock_exchange.Prelude.{
  ℕ, suc, ◌+◌, ◌^◌, ◌≤◌, ◌<◌, ◌≡◌, refl, some, List, [], ◌∷◌, ◌++◌, length, length-append, ==_self,
  arith, Bool-cases, inl, inr,
}
use valyrian_stock_exchange.CoreTypes.{RejectReason}
use valyrian_stock_exchange.Ems.Types.{RawOrder}
use valyrian_stock_exchange.Ems.Disruptor.{Disruptor}
use valyrian_stock_exchange.Ems.RejectionBitset.{mark_rejected}
use valyrian_stock_exchange.Ems.ValidationPipeline.{Verdict, accepted, rejected}
use valyrian_stock_exchange.Ems.Dispatcher.{Handlers, Lane}
use valyrian_stock_exchange.Ems.Dispatcher.Backlog.{Backlog}
use valyrian_stock_exchange.Ems.Dispatcher.Items.{Item, turned_down, passed}
use valyrian_stock_exchange.Ems.IngressWorker.{
  slot_of, Ingress, taken, route, invoke, put_lane, settle_order,
}
use valyrian_stock_exchange.Ems.IngressWorker.Queued.{item_of, mark-Backlog, put-Backlog}

module _ {D : Disruptor} {H : Handlers} where
  -- The worker with a backlog in the lane of a symbol, and room for so many more orders.
  pub record Ready (w : Ingress D H) (symbol idx : ℕ) (items : List Item) (more : ℕ) : Type 0 where
    pub routed : route w.router symbol ≡ some idx
    pub backlog : Backlog (w.lanes idx) items
    pub room : length items + more ≤ 4096
    pub ring_room : length items + more ≤ D.size (w.lanes idx).ring
    pub small : (w.lanes idx).next_server_sequence + length items + more < 2 ^ 62
    pub ring_small : (w.lanes idx).next_ring_sequence + length items + more < 2 ^ 62

  invoke-keeps :
      (w : Ingress D H) (o : RawOrder) (reason : RejectReason)
      → ((invoke w o reason).pipeline ≡ w.pipeline)
        × ((invoke w o reason).router ≡ w.router)
        × ((invoke w o reason).lanes ≡ w.lanes)
  unfolding invoke
  invoke-keeps w o reason = elim (Bool-cases w.callback) [
    | inl set ↦ rw (invoke, set) (refl, refl, refl)
    | inr unset ↦ rw (invoke, unset) (refl, refl, refl)
  ]

  lane_put : (w : Ingress D H) (idx : ℕ) (l : Lane D H) → (put_lane w idx l).lanes idx ≡ l
  lane_put w idx l = rw (==_self idx) refl

  Ready-put_lane :
      (w : Ingress D H) (idx symbol : ℕ) (l : Lane D H) (items : List Item) (more : ℕ)
      → route w.router symbol ≡ some idx
      → Backlog l items
      → length items + more ≤ 4096
      → length items + more ≤ D.size l.ring
      → l.next_server_sequence + length items + more < 2 ^ 62
      → l.next_ring_sequence + length items + more < 2 ^ 62
      → Ready (put_lane w idx l) symbol idx items more
  Ready-put_lane w idx symbol l items more r b room ring_room small ring_small =
      let here = lane_put w idx l in
      record {
        routed = r;
        backlog = rw here b;
        room = room;
        ring_room = rw here ring_room;
        small = rw here small;
        ring_small = rw here ring_small;
      }

  pub settle_order-Ready :
      (w : Ingress D H) (o : RawOrder) (idx : ℕ) (items : List Item) (more : ℕ) (v : Verdict)
      → Ready w o.symbol_id idx items (suc more)
      → o.sequence ≡ (w.lanes idx).next_server_sequence + length items
      → (w' : Ingress D H) × (settle_order w o idx v ≡ taken w')
        × Ready w' o.symbol_id idx (items ++ (item_of o v ∷ [])) more
        × (w'.pipeline ≡ w.pipeline)
        × ((w'.lanes idx).engine ≡ (w.lanes idx).engine)
        × ((w'.lanes idx).next_server_sequence ≡ (w.lanes idx).next_server_sequence)
  unfolding settle_order
  settle_order-Ready w o idx items more (rejected reason) r at =
      let w1 = invoke w o reason in
      let (pipeline, router, lanes) = invoke-keeps w o reason in
      let l = w.lanes idx in
      let l1 : Lane D H = record l { rejected = mark_rejected l.rejected o.sequence } in
      let b =
        mark-Backlog l items o.sequence r.backlog at (omega (arith, r.room))
          (omega (arith, r.small, at)) (omega (arith, r.ring_small)) in
      let len = length-append items (turned_down ∷ []) in
      let here = lane_put w1 idx l1 in
      (
        put_lane w1 idx l1,
        rw (settle_order, lanes) refl,
        Ready-put_lane w1 idx o.symbol_id l1 (items ++ (turned_down ∷ [])) more (rw router r.routed)
            b (omega (arith, len, r.room)) (omega (arith, len, r.ring_room))
            (omega (arith, len, r.small)) (omega (arith, len, r.ring_small)),
        pipeline,
        rw here refl,
        rw here refl,
      )
  settle_order-Ready w o idx items more accepted r at =
      let l = w.lanes idx in
      let (ring, e, b, size) =
        put-Backlog l items (slot_of o) r.backlog at (omega (arith, r.room))
          (omega (arith, r.ring_room)) (omega (arith, r.small, at)) (omega (arith, r.ring_small)) in
      let l1 : Lane D H = record l { ring = ring } in
      let len = length-append items (passed (slot_of o) ∷ []) in
      let here = lane_put w idx l1 in
      (
        put_lane w idx l1,
        rw (settle_order, e) refl,
        Ready-put_lane w idx o.symbol_id l1 (items ++ (passed (slot_of o) ∷ [])) more r.routed b
            (omega (arith, len, r.room)) (omega (arith, len, r.ring_room, size))
            (omega (arith, len, r.small)) (omega (arith, len, r.ring_small)),
        refl,
        rw here refl,
        rw here refl,
      )
