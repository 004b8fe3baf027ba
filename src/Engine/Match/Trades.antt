-- ===== src/Engine/Match/Trades.antt =====
-- What MatchingEngine::match tells the outside: trades, their prices and their owners.
pub mod Report
pub mod Loop
use mathlib.Core.Path.{subst₂, subst₃}
use mathlib.Core.List.{append_assoc}
use valyrian_stock_exchange.Prelude.{
  ℕ, zero, suc, ◌+◌, ◌≤◌, ◌≡◌, ◌≢◌, refl, sym, ap, ◌∙◌, true, false, Bool-cases, inl, inr, Option,
  none, some, List, [], ◌∷◌, ◌++◌, All, All-append, arith, ◌==◌,
}
use valyrian_stock_exchange.Prelude.Int.{pos}
use valyrian_stock_exchange.CoreTypes.{
  Side, buy, sell, OrderType, limit, market, opposite, Order, cancelled,
}
use valyrian_stock_exchange.Events.{TradeEvent, DbEvent, DbEventType, order_filled, order_cancelled}
use valyrian_stock_exchange.Outcome.{Outcome, ok, threw, aborted}
use valyrian_stock_exchange.Containers.{Containers}
use valyrian_stock_exchange.OrderBook.{
  OrderBook, get_order_at_best_price, remove_order, consume_order, write_order, best_bid_price,
  best_ask_price,
}
use valyrian_stock_exchange.Engine.State.{Engine, done, terminated}
use valyrian_stock_exchange.Engine.Emit.{
  emit_post_trade_events, fill_event, push_book_update, push_cancel_ack, push_db_cancel,
}
use valyrian_stock_exchange.Engine.Match.{
  Round, stops, goes_on, dies, beyond_limit, log_cancel_quietly, execute_trade, drop_filled,
  prevent_self_trade, trade_with, meet, match_round, match_loop,
}
use valyrian_stock_exchange.Engine.Match.Rounds.{taken, given, quantity_traded, after_trade}

-- A trade at `q` respects an order's limit `p`; a market order has none.
abbrev pub WithinLimit : OrderType → Side → ℕ → ℕ → Type 0
WithinLimit market s p q = Unit
WithinLimit limit buy p q = q ≤ p
WithinLimit limit sell p q = p ≤ q

abbrev pub sum_qty : List TradeEvent → ℕ
sum_qty [] = 0
sum_qty (t ∷ ts) = t.qty + sum_qty ts

abbrev pub TwoUsers : DbEventType → ℕ → ℕ → Type 0
TwoUsers order_filled user peer = user ≢ peer
TwoUsers _ user peer = Unit

-- A fill names two different users.
abbrev pub NotSelf : DbEvent → Type 0
NotSelf d = TwoUsers d.type d.user_id d.peer_user_id

pub fill-NotSelf :
    {user peer : ℕ} (d : DbEvent)
    → d.type ≡ order_filled
    → (d.user_id ≡ user) × (d.peer_user_id ≡ peer)
    → user ≢ peer
    → NotSelf d
fill-NotSelf d type users apart = rw type (λ same. apart (cc (users.0, users.1, same)))

pub sum_qty-append : (xs ys : List TradeEvent) → sum_qty (xs ++ ys) ≡ sum_qty xs + sum_qty ys
sum_qty-append [] ys = omega arith
sum_qty-append (x ∷ xs) ys = omega (arith, sum_qty-append xs ys)

-- The price of a trade is the resting order's, which the test has let through.
pub beyond_limit-WithinLimit :
    (o : Order) (p : ℕ) (ty : OrderType) (sd : Side)
    → o.type ≡ ty
    → o.side ≡ sd
    → beyond_limit o p ≡ false
    → WithinLimit ty sd o.price p
unfolding beyond_limit
beyond_limit-WithinLimit o p market sd et es h = tt
beyond_limit-WithinLimit o p limit buy et es h = ground arith
beyond_limit-WithinLimit o p limit sell et es h = ground arith

module _ {C : Containers} where
  -- The queues are set, and the log is not being replayed.
  pub record Live (e : Engine C) : Type 0 where
    pub connected : e.connected ≡ true
    pub running : e.is_recovering ≡ false

  -- From `e` and `o` to `e'` and `o'`: the events since, and what they add up to.
  pub record Trading (e : Engine C) (o : Order) (e' : Engine C) (o' : Order) : Type 0 where
    pub trades : List TradeEvent
    pub trades_since : e'.trade_events ≡ trades ++ e.trade_events
    pub conserved : sum_qty trades + o'.remaining ≡ o.remaining
    pub priced : All (λ t. WithinLimit o.type o.side o.price t.price) trades
    pub reports : List DbEvent
    pub reports_since : e'.db_events ≡ reports ++ e.db_events
    pub no_self : All NotSelf reports
    pub same_type : o'.type ≡ o.type
    pub same_side : o'.side ≡ o.side
    pub same_price : o'.price ≡ o.price
    pub live : Live e'

  pub Trading-refl : (e : Engine C) (o : Order) → Live e → Trading e o e o
  Trading-refl e o live = record {
    trades = [];
    trades_since = refl;
    conserved = omega arith;
    priced = tt;
    reports = [];
    reports_since = refl;
    no_self = tt;
    same_type = refl;
    same_side = refl;
    same_price = refl;
    live = live;
  }

  pub Trading-trans :
      {e e1 e2 : Engine C} {o o1 o2 : Order}
      → Trading e o e1 o1
      → Trading e1 o1 e2 o2
      → Trading e o e2 o2
  Trading-trans {e} {e1} {e2} {o} {o1} {o2} p q = record {
    trades = q.trades ++ p.trades;
    trades_since =
        q.trades_since
        ∙ ap (λ r. q.trades ++ r) p.trades_since
        ∙ sym (append_assoc q.trades p.trades e.trade_events);
    conserved = omega (arith, sum_qty-append q.trades p.trades, p.conserved, q.conserved);
    priced =
        All-append (λ t. WithinLimit o.type o.side o.price t.price) q.trades p.trades
          (subst₃ (λ ty sd pr. All (λ (t : TradeEvent). WithinLimit ty sd pr t.price) q.trades)
            p.same_type p.same_side p.same_price q.priced)
          p.priced;
    reports = q.reports ++ p.reports;
    reports_since =
        q.reports_since
        ∙ ap (λ r. q.reports ++ r) p.reports_since
        ∙ sym (append_assoc q.reports p.reports e.db_events);
    no_self = All-append NotSelf q.reports p.reports q.no_self p.no_self;
    same_type = q.same_type ∙ p.same_type;
    same_side = q.same_side ∙ p.same_side;
    same_price = q.same_price ∙ p.same_price;
    live = q.live;
  }
