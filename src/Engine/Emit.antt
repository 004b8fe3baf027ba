-- ===== src/Engine/Emit.antt =====
-- The functions of class MatchingEngine that offer an event to an output queue.
pub mod Frame
use valyrian_stock_exchange.Prelude.{ℕ, ◌∷◌, ◌||◌, if◌then◌else◌}
use valyrian_stock_exchange.Prelude.Int.{ℤ, pos}
use valyrian_stock_exchange.CoreTypes.{
  Side, OrderType, OrderState, Order, new, cancelled, invalid_range,
}
use valyrian_stock_exchange.Events.{
  OrderEvent, OrderEventType, fill, cancel_ack, modify_ack, TradeEvent, BookUpdateEvent, DbEvent,
  order_accepted, order_filled, order_cancelled, order_modified,
}
use valyrian_stock_exchange.Containers.{Containers}
use valyrian_stock_exchange.OrderBook.{best_bid_price, best_ask_price}
use valyrian_stock_exchange.Engine.State.{Engine, silent}

module _ {C : Containers} where
  unfoldable pub push_fill_order_event : Engine C → Order → ℕ → ℕ → ℕ → OrderState → ℕ → Engine C
  push_fill_order_event e o fill_price fill_qty remaining_after st action_ts =
      if silent e then e else record e { order_events = ev ∷ e.order_events }
    where
      ev : OrderEvent
      ev = record {
        type = fill;
        order_id = o.order_id;
        user_id = o.user_id;
        symbol_id = e.symbol_id;
        fill_price = fill_price;
        fill_qty = fill_qty;
        remaining = remaining_after;
        state = st;
        reject_reason = invalid_range;
        sequence = 0;
        timestamp = action_ts;
      }

  unfoldable pub push_book_update : Engine C → ℕ → Engine C
  push_book_update e action_ts =
      if silent e then e else record e { book_updates = ev ∷ e.book_updates }
    where
      ev : BookUpdateEvent
      ev = record {
        symbol_id = e.symbol_id;
        best_bid = best_bid_price C e.book;
        best_ask = best_ask_price C e.book;
        timestamp = action_ts;
      }

  unfoldable pub push_db_accept : Engine C → Order → ℕ → Engine C
  push_db_accept e o action_ts =
      if silent e || e.in_modify then e else record e { db_events = de ∷ e.db_events }
    where
      de : DbEvent
      de = record {
        wal_sequence = e.wal.last_seq;
        type = order_accepted;
        side = o.side;
        order_type = o.type;
        state = new;
        order_id = o.order_id;
        user_id = o.user_id;
        symbol_id = e.symbol_id;
        price = o.price;
        qty = o.quantity;
        remaining = o.quantity;
        fill_price = 0;
        fill_qty = pos 0;
        timestamp = action_ts;
        peer_order_id = 0;
        peer_user_id = 0;
      }

  -- One side of a trade as the database is told of it.
  abbrev pub fill_event : Engine C → Order → Order → ℕ → ℕ → ℕ → DbEvent
  fill_event e o peer trade_price traded action_ts = record {
    wal_sequence = e.wal.last_seq;
    type = order_filled;
    side = o.side;
    order_type = o.type;
    state = o.state;
    order_id = o.order_id;
    user_id = o.user_id;
    symbol_id = e.symbol_id;
    price = o.price;
    qty = o.quantity;
    remaining = o.remaining;
    fill_price = trade_price;
    fill_qty = pos traded;
    timestamp = action_ts;
    peer_order_id = peer.order_id;
    peer_user_id = peer.user_id;
  }

  push_db_fills : Engine C → Order → Order → ℕ → ℕ → ℕ → Engine C
  push_db_fills e incoming resting trade_price traded action_ts = if silent e then e else record e {
    db_events =
        fill_event e resting incoming trade_price traded action_ts
        ∷ fill_event e incoming resting trade_price traded action_ts
        ∷ e.db_events;
  }

  push_trade_event : Engine C → Order → ℕ → ℕ → ℕ → Engine C
  push_trade_event e incoming trade_price traded action_ts =
      if silent e then e else record e { trade_events = te ∷ e.trade_events }
    where
      te : TradeEvent
      te = record {
        symbol_id = e.symbol_id;
        aggressor_side = incoming.side;
        price = trade_price;
        qty = traded;
        best_bid = best_bid_price C e.book;
        best_ask = best_ask_price C e.book;
        timestamp = action_ts;
      }

  unfoldable pub emit_post_trade_events : Engine C → Order → Order → ℕ → ℕ → ℕ → Engine C
  unfolding push_db_fills push_trade_event push_fill_order_event
  emit_post_trade_events e incoming resting trade_price traded action_ts =
      let e1 = push_db_fills e incoming resting trade_price traded action_ts in
      let e2 =
        push_fill_order_event e1 incoming trade_price traded incoming.remaining incoming.state
          action_ts in
      let e3 =
        push_fill_order_event e2 resting trade_price traded resting.remaining resting.state
          action_ts in
      push_trade_event e3 incoming trade_price traded action_ts

  ack : Engine C → OrderEventType → ℕ → ℕ → OrderState → ℕ → ℕ → OrderEvent
  ack e type oid uid st rem action_ts = record {
    type = type;
    order_id = oid;
    user_id = uid;
    symbol_id = e.symbol_id;
    fill_price = 0;
    fill_qty = 0;
    remaining = rem;
    state = st;
    reject_reason = invalid_range;
    sequence = 0;
    timestamp = action_ts;
  }

  unfoldable pub push_cancel_ack : Engine C → ℕ → ℕ → OrderState → ℕ → ℕ → Engine C
  unfolding ack
  push_cancel_ack e oid uid st rem action_ts =
      if silent e
      then e
      else record e { order_events = ack e cancel_ack oid uid st rem action_ts ∷ e.order_events }

  -- The source's other arguments are discarded there.
  unfoldable pub push_modify_ack : Engine C → ℕ → ℕ → ℕ → OrderState → ℕ → Engine C
  unfolding ack
  push_modify_ack e oid uid rem st action_ts =
      if silent e
      then e
      else record e { order_events = ack e modify_ack oid uid st rem action_ts ∷ e.order_events }

  unfoldable pub push_db_cancel : Engine C → ℕ → ℕ → Side → OrderType → ℕ → ℕ → ℕ → ℕ → Engine C
  push_db_cancel e oid uid sd ty px qty rem action_ts =
      if silent e then e else record e { db_events = de ∷ e.db_events }
    where
      de : DbEvent
      de = record {
        wal_sequence = e.wal.last_seq;
        type = order_cancelled;
        side = sd;
        order_type = ty;
        state = cancelled;
        order_id = oid;
        user_id = uid;
        symbol_id = e.symbol_id;
        price = px;
        qty = qty;
        remaining = rem;
        fill_price = 0;
        fill_qty = pos 0;
        timestamp = action_ts;
        peer_order_id = 0;
        peer_user_id = 0;
      }

  unfoldable pub push_db_modify : Engine C → Order → ℕ → ℤ → Engine C
  push_db_modify e o action_ts fill_qty_val =
      if silent e then e else record e { db_events = de ∷ e.db_events }
    where
      de : DbEvent
      de = record {
        wal_sequence = e.wal.last_seq;
        type = order_modified;
        side = o.side;
        order_type = o.type;
        state = o.state;
        order_id = o.order_id;
        user_id = o.user_id;
        symbol_id = e.symbol_id;
        price = o.price;
        qty = o.quantity;
        remaining = o.remaining;
        fill_price = 0;
        fill_qty = fill_qty_val;
        timestamp = action_ts;
        peer_order_id = 0;
        peer_user_id = 0;
      }
