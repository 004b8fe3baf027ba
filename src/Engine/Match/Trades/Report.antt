-- ===== src/Engine/Match/Trades/Report.antt =====
-- What a trade with another user reports.
use valyrian_stock_exchange.Prelude.{ℕ, ◌≡◌, ◌≢◌, refl, sym, ◌∙◌, false, [], ◌∷◌, arith, ◌==◌}
use valyrian_stock_exchange.CoreTypes.{Order}
use valyrian_stock_exchange.Events.{TradeEvent, DbEvent, order_filled}
use valyrian_stock_exchange.Outcome.{Outcome, ok, threw, aborted}
use valyrian_stock_exchange.Containers.{Containers}
use valyrian_stock_exchange.OrderBook.{
  OrderBook, consume_order, write_order, best_bid_price, best_ask_price,
}
use valyrian_stock_exchange.Engine.State.{Engine}
use valyrian_stock_exchange.Engine.Emit.{emit_post_trade_events, fill_event}
use valyrian_stock_exchange.Engine.Match.{
  Round, stops, goes_on, dies, beyond_limit, execute_trade, drop_filled, trade_with,
}
use valyrian_stock_exchange.Engine.Match.Rounds.{taken, given, quantity_traded, after_trade}
use valyrian_stock_exchange.Engine.Match.Trades.{
  WithinLimit, fill-NotSelf, beyond_limit-WithinLimit, Live, Trading,
}

module _ {C : Containers} where
  -- What the events of one trade add to the lists.
  pub record Emitted (e : Engine C) (i r : Order) (p q : ℕ) (e' : Engine C) : Type 0 where
    trade : TradeEvent
    trade_added : e'.trade_events ≡ trade ∷ e.trade_events
    trade_qty : trade.qty ≡ q
    trade_price : trade.price ≡ p
    report1 : DbEvent
    report2 : DbEvent
    reports_added : e'.db_events ≡ report1 ∷ report2 ∷ e.db_events
    report1_type : report1.type ≡ order_filled
    report2_type : report2.type ≡ order_filled
    report1_users : (report1.user_id ≡ r.user_id) × (report1.peer_user_id ≡ i.user_id)
    report2_users : (report2.user_id ≡ i.user_id) × (report2.peer_user_id ≡ r.user_id)
    live : Live e'

  pub emit_post_trade_events-Emitted :
      (e : Engine C) (i r : Order) (p q ts : ℕ)
      → Live e
      → Emitted e i r p q (emit_post_trade_events e i r p q ts)
  unfolding emit_post_trade_events
  emit_post_trade_events-Emitted e i r p q ts live = record {
    trade = record {
      symbol_id = e.symbol_id;
      aggressor_side = i.side;
      price = p;
      qty = q;
      best_bid = best_bid_price C e.book;
      best_ask = best_ask_price C e.book;
      timestamp = ts;
    };
    trade_added = ground arith;
    trade_qty = refl;
    trade_price = refl;
    report1 = fill_event e r i p q ts;
    report2 = fill_event e i r p q ts;
    reports_added = ground arith;
    report1_type = refl;
    report2_type = refl;
    report1_users = (refl, refl);
    report2_users = (refl, refl);
    live = record { connected = ground arith; running = ground arith };
  }

  abbrev pub RoundTrading : Engine C → Order → Round C → Type 0
  RoundTrading e o (stops e' o') = (e' ≡ e) × (o' ≡ o)
  RoundTrading e o (goes_on e' o') = Trading e o e' o'
  RoundTrading e o dies = Unit

  pub after_trade-Trading :
      (e : Engine C) (o r : Order) (ts : ℕ) (b : OrderBook C)
      → Live e
      → beyond_limit o r.price ≡ false
      → (o.user_id == r.user_id) ≡ false
      → Trading e o (after_trade e o r ts b) (taken o (quantity_traded o r))
  unfolding execute_trade
  after_trade-Trading e o r ts b live within others =
      let q = quantity_traded o r in
      let e1 : Engine C = record (execute_trade e o r r.price q) { book = b } in
      let m = emit_post_trade_events-Emitted e1 (taken o q) (given r q) r.price q ts (record {
        connected = ground (arith, live.connected);
        running = ground (arith, live.running);
      }) in
      let priced : WithinLimit o.type o.side o.price m.trade.price =
        rw m.trade_price (beyond_limit-WithinLimit o r.price o.type o.side refl refl within) in
      let apart : o.user_id ≢ r.user_id = ground arith in
      record {
        trades = m.trade ∷ [];
        trades_since = m.trade_added ∙ (ground arith);
        conserved = omega (arith, m.trade_qty);
        priced = (priced, tt);
        reports = m.report1 ∷ m.report2 ∷ [];
        reports_since = m.reports_added ∙ (ground arith);
        no_self = (
          fill-NotSelf m.report1 m.report1_type m.report1_users (λ same. apart (sym same)),
          (fill-NotSelf m.report2 m.report2_type m.report2_users apart, tt),
        );
        same_type = refl;
        same_side = refl;
        same_price = refl;
        live = m.live;
      }

  pub trade_with-Trading :
      (e : Engine C) (o r : Order) (ts : ℕ)
      → Live e
      → beyond_limit o r.price ≡ false
      → (o.user_id == r.user_id) ≡ false
      → RoundTrading e o (trade_with e o r ts)
  unfolding trade_with
  trade_with-Trading e o r ts live within others =
      let q = quantity_traded o r in
      let e1 = execute_trade e o r r.price q in
      let (b1, consumed) = consume_order C e1.book r q in
      go (drop_filled (write_order C b1 (given r q)) (given r q))
    where
      go :
          (d : Outcome (OrderBook C))
          → RoundTrading e o (elim d [
            | ok b ↦ goes_on (after_trade e o r ts b) (taken o (quantity_traded o r))
            | threw b ↦ dies
            | aborted b ↦ dies
          ])
      go (ok b) = after_trade-Trading e o r ts b live within others
      go (threw b) = tt
      go (aborted b) = tt
