-- ===== src/Engine/Match/Disk.antt =====
-- The log while MatchingEngine::match runs, on a disk that takes every write.
use valyrian_stock_exchange.Prelude.{
  ℕ, zero, suc, ◌≡◌, ap, Bool-cases, inl, inr, Option, none, some, [], ◌==◌, List, ◌∷◌, Bool, true,
  false, ◌∙◌, refl,
}
use valyrian_stock_exchange.CoreTypes.{opposite, Order, cancelled}
use valyrian_stock_exchange.Outcome.{Outcome, ok, threw, aborted}
use valyrian_stock_exchange.Containers.{Containers}
use valyrian_stock_exchange.OrderBook.{
  OrderBook, get_order_at_best_price, remove_order, consume_order, write_order,
}
use valyrian_stock_exchange.Wal.{Wal, log_trade}
use valyrian_stock_exchange.Wal.Writes.{log_cancel-Writes}
use valyrian_stock_exchange.Engine.State.{Engine, Run, done, escaped, terminated, out_of_fuel}
use valyrian_stock_exchange.Engine.Emit.{push_book_update, push_cancel_ack, push_db_cancel}
use valyrian_stock_exchange.Engine.Emit.Frame.{
  push_book_update-SameCore, push_cancel_ack-SameCore, push_db_cancel-SameCore,
  emit_post_trade_events-SameCore,
}
use valyrian_stock_exchange.Engine.Match.{
  Round, stops, goes_on, dies, beyond_limit, log_cancel_quietly, execute_trade, drop_filled,
  prevent_self_trade, trade_with, meet, match_round, match_loop,
}
use valyrian_stock_exchange.Engine.Match.Rounds.{taken, given, quantity_traded, after_trade}

log_trade-disk :
    (w : Wal) (agg_id rest_id price qty : ℕ) (openings : List Bool)
    → w.openings ≡ openings
    → (log_trade w agg_id rest_id price qty).disk ≡ w.disk
unfolding log_trade
log_trade-disk w agg_id rest_id price qty [] e = rw (e, log_trade) refl
log_trade-disk w agg_id rest_id price qty (true ∷ rest) e = rw (e, log_trade) refl
log_trade-disk w agg_id rest_id price qty (false ∷ rest) e = rw (e, log_trade) refl

module _ {C : Containers} where
  abbrev pub Writable : Engine C → Type 0
  Writable e = e.wal.disk ≡ []

  result : Run (Engine C) Order → Engine C → Engine C
  result (done e o) d = e
  result (escaped e) d = d
  result terminated d = d
  result out_of_fuel d = d

  abbrev RoundWritable : Round C → Type 0
  RoundWritable (stops e o) = Writable e
  RoundWritable (goes_on e o) = Writable e
  RoundWritable dies = Unit

  log_cancel_quietly-Writable :
      (e : Engine C) (id : ℕ) → Writable e → Writable (log_cancel_quietly e id)
  unfolding log_cancel_quietly
  log_cancel_quietly-Writable e id h =
      let (w, logged, writable) = log_cancel-Writes e.wal id h in
      elim (Bool-cases e.is_recovering) [
        | inl r ↦ rw (log_cancel_quietly, r) h
        | inr r ↦ rw (log_cancel_quietly, r, logged) writable
      ]

  execute_trade-Writable :
      (e : Engine C) (a r : Order) (p q : ℕ) → Writable e → Writable (execute_trade e a r p q)
  unfolding execute_trade
  execute_trade-Writable e a r p q h = elim (Bool-cases e.is_recovering) [
    | inl quiet ↦ rw (execute_trade, quiet) h
    | inr loud ↦
        rw (execute_trade, loud)
          (log_trade-disk e.wal a.order_id r.order_id p q e.wal.openings refl ∙ h)
  ]

  trade_with-Writable :
      (e : Engine C) (o r : Order) (ts : ℕ) → Writable e → RoundWritable (trade_with e o r ts)
  unfolding trade_with
  trade_with-Writable e o r ts h =
      let q = quantity_traded o r in
      let e1 = execute_trade e o r r.price q in
      let (b1, consumed) = consume_order C e1.book r q in
      go (drop_filled (write_order C b1 (given r q)) (given r q))
    where
      go :
          (d : Outcome (OrderBook C))
          → RoundWritable (elim d [
            | ok b ↦ goes_on (after_trade e o r ts b) (taken o (quantity_traded o r))
            | threw b ↦ dies
            | aborted b ↦ dies
          ])
      go (ok b) =
          let q = quantity_traded o r in
          let e1 : Engine C = record (execute_trade e o r r.price q) { book = b } in
          rw ((emit_post_trade_events-SameCore e1 (taken o q) (given r q) r.price q ts).wal)
            (execute_trade-Writable e o r r.price q h)
      go (threw b) = tt
      go (aborted b) = tt

  prevent_self_trade-Writable :
      (e : Engine C) (o r : Order) (ts : ℕ)
      → Writable e
      → RoundWritable (prevent_self_trade e o r ts)
  unfolding prevent_self_trade
  prevent_self_trade-Writable e o r ts h =
      go (remove_order C (log_cancel_quietly e r.order_id).book r)
    where
      after : OrderBook C → Engine C
      after b = record (log_cancel_quietly e r.order_id) { book = b }

      go :
          (d : Outcome (OrderBook C))
          → RoundWritable (elim d [
            | ok b ↦
                goes_on
                  (push_db_cancel
                    (push_cancel_ack
                      (push_book_update (after b) ts)
                      r.order_id
                      r.user_id
                      cancelled
                      r.remaining
                      ts)
                    r.order_id
                    r.user_id
                    r.side
                    r.type
                    r.price
                    r.quantity
                    r.remaining
                    ts)
                  o
            | threw b ↦ dies
            | aborted b ↦ dies
          ])
      go (ok b) =
          let e1 = push_book_update (after b) ts in
          let e2 = push_cancel_ack e1 r.order_id r.user_id cancelled r.remaining ts in
          rw
            (
              (push_db_cancel-SameCore e2 r.order_id r.user_id r.side r.type r.price r.quantity
                  r.remaining ts).wal,
              (push_cancel_ack-SameCore e1 r.order_id r.user_id cancelled r.remaining ts).wal,
              (push_book_update-SameCore (after b) ts).wal,
            )
            (log_cancel_quietly-Writable e r.order_id h)
      go (threw b) = tt
      go (aborted b) = tt

  meet-Writable : (e : Engine C) (o r : Order) (ts : ℕ) → Writable e → RoundWritable (meet e o r ts)
  unfolding meet
  meet-Writable e o r ts h = elim (Bool-cases (beyond_limit o r.price)) [
    | inl beyond ↦ rw beyond h
    | inr within ↦ elim (Bool-cases (o.user_id == r.user_id)) [
      | inl own ↦ rw (within, own) (prevent_self_trade-Writable e o r ts h)
      | inr others ↦ rw (within, others) (trade_with-Writable e o r ts h)
    ]
  ]

  round_at-Writable :
      (e : Engine C) (o : Order) (ts : ℕ) (found : Option Order)
      → Writable e
      → RoundWritable (elim found [ none ↦ stops e o | some resting ↦ meet e o resting ts ])
  round_at-Writable e o ts none h = h
  round_at-Writable e o ts (some r) h = meet-Writable e o r ts h

  match_round-Writable :
      (e : Engine C) (o : Order) (ts : ℕ) → Writable e → RoundWritable (match_round e o ts)
  unfolding match_round
  match_round-Writable e o ts h = elim (Bool-cases (o.remaining == 0)) [
    | inl over ↦ rw over h
    | inr more ↦
        rw more (round_at-Writable e o ts (get_order_at_best_price C e.book (opposite o.side)) h)
  ]

  pub match_loop-Writable :
      (fuel : ℕ) (e : Engine C) (o : Order) (ts : ℕ) {e' : Engine C} {o' : Order}
      → Writable e
      → match_loop fuel e o ts ≡ done e' o'
      → Writable e'
  unfolding match_loop result
  match_loop-Writable zero e o ts h eq = absurd (cc)
  match_loop-Writable (suc fuel) e o ts {e'} {o'} h eq =
      go (match_round e o ts) (match_round-Writable e o ts h)
        (λ e1 o1 h1. match_loop-Writable fuel e1 o1 ts h1) eq
    where
      go :
          (r : Round C)
          → RoundWritable r
          → ((e1 : Engine C) (o1 : Order)
              → Writable e1
              → match_loop fuel e1 o1 ts ≡ done e' o'
              → Writable e')
          → elim r [
            | stops e1 o1 ↦ done e1 o1
            | goes_on e1 o1 ↦ match_loop fuel e1 o1 ts
            | dies ↦ terminated
          ]
            ≡ done e' o'
          → Writable e'
      go (stops e1 o1) t ih same =
          let ends : e1 ≡ e' = ap (λ (r : Run (Engine C) Order). result r e1) same in rw ends at t
      go (goes_on e1 o1) t ih same = ih e1 o1 t same
      go dies _ ih same = absurd (cc)
