-- ===== src/Ems/IngressWorker/Judge.antt =====
-- A worker deals with consecutive orders for one symbol.
use mathlib.Core.List.{append-nil, append_assoc}
use valyrian_stock_exchange.Prelude.{
  ℕ, suc, ◌+◌, ◌<◌, ◌≡◌, refl, sym, ap, ◌∙◌, false, Option, none, some, List, [], ◌∷◌, ◌++◌, length,
  length-append, ◌==◌, arith,
}
use valyrian_stock_exchange.Ems.Types.{RawOrder}
use valyrian_stock_exchange.Ems.Disruptor.{Disruptor}
use valyrian_stock_exchange.Ems.ValidationPipeline.{ValidationPipeline, process}
use valyrian_stock_exchange.Ems.Dispatcher.{Handlers}
use valyrian_stock_exchange.Ems.Dispatcher.Items.{Item}
use valyrian_stock_exchange.Ems.IngressWorker.{
  Ingress, Intake, idle, taken, blocked, undefined, route, settle_order, check_order, ingest,
}
use valyrian_stock_exchange.Ems.IngressWorker.Ready.{Ready, settle_order-Ready}
use valyrian_stock_exchange.Ems.IngressWorker.Queued.{item_of}

-- The specification: what the checks make of the orders, each with its time.
unfoldable pub judge : ValidationPipeline → List (RawOrder × ℕ) → List Item
judge p [] = []
judge p ((o, now) ∷ orders) =
    let (verdict, p') = process p o now in item_of o verdict ∷ judge p' orders

pub length-judge :
    (p : ValidationPipeline) (orders : List (RawOrder × ℕ))
    → length (judge p orders) ≡ length orders
unfolding judge
length-judge p [] = refl
length-judge p ((o, now) ∷ orders) = ap suc (length-judge (process p o now).1 orders)

-- The orders are for one symbol, and have consecutive numbers from `seq` on.
abbrev pub Consecutive : ℕ → ℕ → List (RawOrder × ℕ) → Type 0
Consecutive symbol seq [] = Unit
Consecutive symbol seq (order ∷ orders) =
    (order.0.symbol_id ≡ symbol) × (order.0.sequence ≡ seq) × Consecutive symbol (suc seq) orders

module _ {D : Disruptor} {H : Handlers} where
  abbrev pub after_intake : Intake (Ingress D H) → Option (Ingress D H)
  after_intake idle = none
  after_intake (taken w) = some w
  after_intake (blocked w) = none
  after_intake undefined = none

  -- As many orders as the list has; `none`: not all of them could be dealt with.
  unfoldable pub ingest_all : Ingress D H → List (RawOrder × ℕ) → Option (Ingress D H)
  unfolding ingest
  ingest_all w [] = some w
  ingest_all w ((o, now) ∷ orders) = elim (after_intake (ingest w o now)) [
    | none ↦ none
    | some w' ↦ ingest_all w' orders
  ]

  ingest-settles :
      (w : Ingress D H) (o : RawOrder) (now idx : ℕ)
      → 0 < o.sequence
      → route w.router o.symbol_id ≡ some idx
      → ingest w o now
        ≡ settle_order
            (record w { pipeline = (process w.pipeline o now).1 })
            o
            idx
            (process w.pipeline o now).0
  unfolding ingest check_order
  ingest-settles w o now idx pos r =
      let numbered : (o.sequence == 0) ≡ false = ground arith in
      rw (ingest, numbered, r, check_order) refl

  ingest_all-step :
      (w w' : Ingress D H) (o : RawOrder) (now : ℕ) (orders : List (RawOrder × ℕ))
      → ingest w o now ≡ taken w'
      → ingest_all w ((o, now) ∷ orders) ≡ ingest_all w' orders
  unfolding ingest_all
  ingest_all-step w w' o now orders e = rw (ingest_all, e) refl

  ingest-Ready :
      (w : Ingress D H) (symbol idx : ℕ) (items : List Item) (o : RawOrder) (now more : ℕ)
      → Ready w symbol idx items (suc more)
      → o.symbol_id ≡ symbol
      → o.sequence ≡ (w.lanes idx).next_server_sequence + length items
      → (w' : Ingress D H) × (ingest w o now ≡ taken w')
        × Ready w' symbol idx (items ++ (item_of o (process w.pipeline o now).0 ∷ [])) more
        × (w'.pipeline ≡ (process w.pipeline o now).1)
        × ((w'.lanes idx).engine ≡ (w.lanes idx).engine)
        × ((w'.lanes idx).next_server_sequence ≡ (w.lanes idx).next_server_sequence)
  ingest-Ready w symbol idx items o now more r symbol_is at =
      let w0 : Ingress D H = record w { pipeline = (process w.pipeline o now).1 } in
      let r0 : Ready w0 o.symbol_id idx items (suc more) = record {
        routed = rw symbol_is r.routed;
        backlog = r.backlog;
        room = r.room;
        ring_room = r.ring_room;
        small = r.small;
        ring_small = r.ring_small;
      } in
      let (w', e, r', pipeline, engine, moved) =
        settle_order-Ready w0 o idx items more (process w.pipeline o now).0 r0 at in
      (
        w',
        ingest-settles w o now idx (omega (arith, at, r.backlog.starts)) (rw symbol_is r.routed)
            ∙ e,
        rw (sym symbol_is) r',
        pipeline,
        engine,
        moved,
      )

  pub ingest_all-Ready :
      (w : Ingress D H) (symbol idx : ℕ) (items : List Item) (orders : List (RawOrder × ℕ))
      → Ready w symbol idx items (length orders)
      → Consecutive symbol ((w.lanes idx).next_server_sequence + length items) orders
      → (w' : Ingress D H) × (ingest_all w orders ≡ some w')
        × Ready w' symbol idx (items ++ judge w.pipeline orders) 0
        × ((w'.lanes idx).engine ≡ (w.lanes idx).engine)
        × ((w'.lanes idx).next_server_sequence ≡ (w.lanes idx).next_server_sequence)
  unfolding ingest_all judge
  ingest_all-Ready w symbol idx items [] r c = (w, refl, rw (append-nil items) r, refl, refl)
  ingest_all-Ready w symbol idx items ((o, now) ∷ orders) r c =
      let item = item_of o (process w.pipeline o now).0 in
      let pipeline = (process w.pipeline o now).1 in
      let (w1, e, r1, same, engine, moved) =
        ingest-Ready w symbol idx items o now (length orders) r c.0 c.1 in
      let number : (w1.lanes idx).next_server_sequence + length (items ++ (item ∷ []))
          ≡ suc ((w.lanes idx).next_server_sequence + length items) =
        omega (arith, moved, length-append items (item ∷ [])) in
      let (w', e', r', engine', moved') =
        ingest_all-Ready w1 symbol idx (items ++ (item ∷ [])) orders r1 (rw number c.2) in
      let split : (items ++ (item ∷ [])) ++ judge w1.pipeline orders
          ≡ items ++ (item ∷ judge pipeline orders) =
        rw same (append_assoc items (item ∷ []) (judge pipeline orders)) in
      (
        w',
        ingest_all-step w w1 o now orders e ∙ e',
        rw split at r',
        engine' ∙ engine,
        moved' ∙ moved,
      )
