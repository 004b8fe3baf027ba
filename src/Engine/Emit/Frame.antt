-- ===== src/Engine/Emit/Frame.antt =====
-- What the functions of Engine/Emit leave as it is.
use valyrian_stock_exchange.Prelude.{ℕ, ◌≡◌, arith, ◌∙◌}
use valyrian_stock_exchange.Prelude.Int.{ℤ}
use valyrian_stock_exchange.CoreTypes.{Side, OrderType, OrderState, Order}
use valyrian_stock_exchange.Containers.{Containers}
use valyrian_stock_exchange.Engine.State.{Engine}
use valyrian_stock_exchange.Engine.Emit.{
  push_book_update, push_db_accept, emit_post_trade_events, push_cancel_ack, push_modify_ack,
  push_db_cancel, push_db_modify,
}

-- The two engines differ in their output at most.
pub record SameCore {C : Containers} (e e' : Engine C) : Type 0 where
  pub book : e'.book ≡ e.book
  pub wal : e'.wal ≡ e.wal
  pub is_recovering : e'.is_recovering ≡ e.is_recovering
  pub in_modify : e'.in_modify ≡ e.in_modify
  pub connected : e'.connected ≡ e.connected
  pub symbol_id : e'.symbol_id ≡ e.symbol_id

pub SameCore-trans :
    {C : Containers} {e1 e2 e3 : Engine C} → SameCore e1 e2 → SameCore e2 e3 → SameCore e1 e3
SameCore-trans p q = record {
  book = q.book ∙ p.book;
  wal = q.wal ∙ p.wal;
  is_recovering = q.is_recovering ∙ p.is_recovering;
  in_modify = q.in_modify ∙ p.in_modify;
  connected = q.connected ∙ p.connected;
  symbol_id = q.symbol_id ∙ p.symbol_id;
}

module _ {C : Containers} (e : Engine C) where
  pub push_book_update-SameCore : (ts : ℕ) → SameCore e (push_book_update e ts)
  unfolding push_book_update
  push_book_update-SameCore ts = ground arith

  pub push_db_accept-SameCore : (o : Order) (ts : ℕ) → SameCore e (push_db_accept e o ts)
  unfolding push_db_accept
  push_db_accept-SameCore o ts = ground arith

  pub push_cancel_ack-SameCore :
      (oid uid : ℕ) (st : OrderState) (rem ts : ℕ)
      → SameCore e (push_cancel_ack e oid uid st rem ts)
  unfolding push_cancel_ack
  push_cancel_ack-SameCore oid uid st rem ts = ground arith

  pub push_modify_ack-SameCore :
      (oid uid rem : ℕ) (st : OrderState) (ts : ℕ)
      → SameCore e (push_modify_ack e oid uid rem st ts)
  unfolding push_modify_ack
  push_modify_ack-SameCore oid uid rem st ts = ground arith

  pub push_db_cancel-SameCore :
      (oid uid : ℕ) (sd : Side) (ty : OrderType) (px qty rem ts : ℕ)
      → SameCore e (push_db_cancel e oid uid sd ty px qty rem ts)
  unfolding push_db_cancel
  push_db_cancel-SameCore oid uid sd ty px qty rem ts = ground arith

  pub push_db_modify-SameCore : (o : Order) (ts : ℕ) (n : ℤ) → SameCore e (push_db_modify e o ts n)
  unfolding push_db_modify
  push_db_modify-SameCore o ts n = ground arith

  pub emit_post_trade_events-SameCore :
      (incoming resting : Order) (price traded ts : ℕ)
      → SameCore e (emit_post_trade_events e incoming resting price traded ts)
  unfolding emit_post_trade_events
  emit_post_trade_events-SameCore incoming resting price traded ts = ground arith
