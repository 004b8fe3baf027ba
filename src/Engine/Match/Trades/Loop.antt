-- ===== src/Engine/Match/Trades/Loop.antt =====
-- The reports of the cancellation of an own order, of a round and of the whole loop.
use mathlib.Core.Path.{subst₂}
use valyrian_stock_exchange.Prelude.{
  ℕ, zero, suc, ◌≡◌, refl, ◌∙◌, Bool-cases, inl, inr, Option, none, some, [], ◌∷◌, arith, ◌==◌,
}
use valyrian_stock_exchange.Prelude.Int.{pos}
use valyrian_stock_exchange.CoreTypes.{Side, OrderType, opposite, Order, cancelled}
use valyrian_stock_exchange.Events.{DbEvent, order_cancelled}
use valyrian_stock_exchange.Outcome.{Outcome, ok, threw, aborted}
use valyrian_stock_exchange.Containers.{Containers}
use valyrian_stock_exchange.OrderBook.{OrderBook, get_order_at_best_price, remove_order}
use valyrian_stock_exchange.Engine.State.{Engine, done, terminated}
use valyrian_stock_exchange.Engine.Emit.{push_book_update, push_cancel_ack, push_db_cancel}
use valyrian_stock_exchange.Engine.Match.{
  Round, stops, goes_on, dies, beyond_limit, log_cancel_quietly, prevent_self_trade, meet,
  match_round, match_loop,
}
use valyrian_stock_exchange.Engine.Match.Trades.{Live, Trading, Trading-refl, Trading-trans}
use valyrian_stock_exchange.Engine.Match.Trades.Report.{RoundTrading, trade_with-Trading}

module _ {C : Containers} where
  cancel_added :
      (e : Engine C) (o : Order) (id uid : ℕ) (sd : Side) (ty : OrderType) (px qty rem ts : ℕ)
      → Live e
      → Trading e o
          (push_db_cancel
            (push_cancel_ack (push_book_update e ts) id uid cancelled rem ts)
            id
            uid
            sd
            ty
            px
            qty
            rem
            ts)
          o
  unfolding push_db_cancel push_cancel_ack push_book_update
  cancel_added e o id uid sd ty px qty rem ts live = record {
    trades = [];
    trades_since = ground arith;
    conserved = omega arith;
    priced = tt;
    reports = report ∷ [];
    reports_since = ground arith;
    no_self = (tt, tt);
    same_type = refl;
    same_side = refl;
    same_price = refl;
    live = record { connected = ground arith; running = ground arith };
  }
    where
      report : DbEvent
      report = record {
        wal_sequence = e.wal.last_seq;
        type = order_cancelled;
        side = sd;
        order_type = ty;
        state = cancelled;
        order_id = id;
        user_id = uid;
        symbol_id = e.symbol_id;
        price = px;
        qty = qty;
        remaining = rem;
        fill_price = 0;
        fill_qty = pos 0;
        timestamp = ts;
        peer_order_id = 0;
        peer_user_id = 0;
      }

  -- A change of the book and the log alone.
  quiet :
      (e e1 : Engine C) (o : Order)
      → Live e
      → e1.connected ≡ e.connected
      → e1.is_recovering ≡ e.is_recovering
      → e1.trade_events ≡ e.trade_events
      → e1.db_events ≡ e.db_events
      → Trading e o e1 o
  quiet e e1 o live con rec tr db = record {
    trades = [];
    trades_since = tr;
    conserved = omega arith;
    priced = tt;
    reports = [];
    reports_since = db;
    no_self = tt;
    same_type = refl;
    same_side = refl;
    same_price = refl;
    live = record { connected = con ∙ live.connected; running = rec ∙ live.running };
  }

  prevent_self_trade-Trading :
      (e : Engine C) (o r : Order) (ts : ℕ)
      → Live e
      → RoundTrading e o (prevent_self_trade e o r ts)
  unfolding prevent_self_trade log_cancel_quietly
  prevent_self_trade-Trading e o r ts live =
      go (remove_order C (log_cancel_quietly e r.order_id).book r)
    where
      after : OrderBook C → Engine C
      after b = record (log_cancel_quietly e r.order_id) { book = b }

      go :
          (d : Outcome (OrderBook C))
          → RoundTrading e o (elim d [
            | ok b ↦
                goes_on
                  (push_db_cancel
                    (push_cancel_ack
                      (push_book_update (after b) ts)
                      r.order_id
                      r.user_id
                      cancelled
                      r.remaining
                      ts)
                    r.order_id
                    r.user_id
                    r.side
                    r.type
                    r.price
                    r.quantity
                    r.remaining
                    ts)
                  o
            | threw b ↦ dies
            | aborted b ↦ dies
          ])
      go (ok b) =
          let q =
            quiet e (after b) o live (ground arith) (ground arith) (ground arith) (ground arith) in
          Trading-trans q (
            cancel_added (after b) o r.order_id r.user_id r.side r.type r.price r.quantity
              r.remaining ts q.live)
      go (threw b) = tt
      go (aborted b) = tt

  meet-Trading : (e : Engine C) (o r : Order) (ts : ℕ) → Live e → RoundTrading e o (meet e o r ts)
  unfolding meet
  meet-Trading e o r ts live = elim (Bool-cases (beyond_limit o r.price)) [
    | inl beyond ↦ rw beyond (refl, refl)
    | inr within ↦ elim (Bool-cases (o.user_id == r.user_id)) [
      | inl own ↦ rw (within, own) (prevent_self_trade-Trading e o r ts live)
      | inr others ↦ rw (within, others) (trade_with-Trading e o r ts live within others)
    ]
  ]

  round_at-Trading :
      (e : Engine C) (o : Order) (ts : ℕ) (found : Option Order)
      → Live e
      → RoundTrading e o (elim found [ none ↦ stops e o | some resting ↦ meet e o resting ts ])
  round_at-Trading e o ts none live = (refl, refl)
  round_at-Trading e o ts (some r) live = meet-Trading e o r ts live

  match_round-Trading :
      (e : Engine C) (o : Order) (ts : ℕ) → Live e → RoundTrading e o (match_round e o ts)
  unfolding match_round
  match_round-Trading e o ts live = elim (Bool-cases (o.remaining == 0)) [
    | inl over ↦ rw over (refl, refl)
    | inr more ↦
        rw more (round_at-Trading e o ts (get_order_at_best_price C e.book (opposite o.side)) live)
  ]

  -- Whatever the book and the fuel, if the queues are set, the log is not being replayed and the
  -- loop returns, then the quantities of the trade events it added and what remains of the incoming
  -- order add up to what remained before; every trade is within the limit price of the incoming
  -- order; no fill it reported to the database has the same user on both sides; and the order's
  -- type, side and price are unchanged.
  pub match_loop-Trading :
      (fuel : ℕ) (e : Engine C) (o : Order) (ts : ℕ) {e' : Engine C} {o' : Order}
      → Live e
      → match_loop fuel e o ts ≡ done e' o'
      → Trading e o e' o'
  unfolding match_loop
  match_loop-Trading zero e o ts live h = absurd (cc)
  match_loop-Trading (suc fuel) e o ts {e'} {o'} live h =
      go (match_round e o ts) (match_round-Trading e o ts live)
        (λ e1 o1 live1. match_loop-Trading fuel e1 o1 ts live1) h
    where
      go :
          (r : Round C)
          → RoundTrading e o r
          → ((e1 : Engine C) (o1 : Order)
              → Live e1
              → match_loop fuel e1 o1 ts ≡ done e' o'
              → Trading e1 o1 e' o')
          → elim r [
            | stops e1 o1 ↦ done e1 o1
            | goes_on e1 o1 ↦ match_loop fuel e1 o1 ts
            | dies ↦ terminated
          ]
            ≡ done e' o'
          → Trading e o e' o'
      go (stops e1 o1) (pe, po) ih eq =
          subst₂ (λ x y. Trading e o x y) (cc) (cc) (Trading-refl e o live)
      go (goes_on e1 o1) t ih eq = Trading-trans t (ih e1 o1 t.live eq)
      go dies _ ih eq = absurd (cc)
