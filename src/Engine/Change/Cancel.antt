-- ===== src/Engine/Change/Cancel.antt =====
-- MatchingEngine::onCancelOrder of an order that rests in a valid book.
use valyrian_stock_exchange.Prelude.{ℕ, ◌≡◌, ◌∙◌, Bool, true, false, Bool-cases, inl, inr, []}
use valyrian_stock_exchange.CoreTypes.{Order, is_filled}
use valyrian_stock_exchange.PriceLevel.{PriceLevel, fifo_remove}
use valyrian_stock_exchange.Containers.{Containers}
use valyrian_stock_exchange.OrderBook.Valid.{Valid}
use valyrian_stock_exchange.OrderBook.Settles.{Settles}
use valyrian_stock_exchange.OrderBook.Remove.{remove_order-Settles}
use valyrian_stock_exchange.OrderBook.Find.{PointsTo, find_order-found, PointsTo-own}
use valyrian_stock_exchange.Wal.{log_cancel}
use valyrian_stock_exchange.Wal.Writes.{Writes, log_cancel-Writes}
use valyrian_stock_exchange.Engine.State.{Engine, Run, done}
use valyrian_stock_exchange.Engine.Emit.{push_book_update, push_cancel_ack, push_db_cancel}
use valyrian_stock_exchange.Engine.Emit.Frame.{
  push_book_update-SameCore, push_cancel_ack-SameCore, push_db_cancel-SameCore,
}
use valyrian_stock_exchange.Engine.Change.{
  remove_found, cancel_found, log_unless_recovering, on_cancel_order,
}

module _ {C : Containers} where
  -- The call returns true; the book is valid, and is without the order `o` of `level`.
  pub record Cancelled (held : ℕ) (e : Engine C) (o : Order) (level : PriceLevel)
      (r : Run (Engine C) Bool) : Type 0 where
    pub after : Engine C
    pub returned : r ≡ done after true
    pub valid : Valid C held after.book
    pub settled : Settles C e.book o.side o.price o.slot (fifo_remove level o) after.book
    pub erased : after.book.order_index ≡ C.erase_id e.book.order_index o.order_id

  remove_found-Cancelled :
      {held : ℕ} (e : Engine C) (id ts : ℕ) (o : Order) (level : PriceLevel)
      → Valid C held e.book
      → PointsTo C e.book id o level
      → Cancelled held e o level (remove_found e id o ts)
  unfolding remove_found
  remove_found-Cancelled e id ts o level v at =
      let (found, standing) = PointsTo-own C v at in
      let (b, removed, v', settled, erased) = remove_order-Settles C o level v found standing in
      let e1 = push_book_update (record e { book = b }) ts in
      let e2 = push_cancel_ack e1 id o.user_id o.state o.remaining ts in
      let same =
        (push_db_cancel-SameCore e2 id o.user_id o.side o.type o.price o.quantity o.remaining
          ts).book
        ∙ (push_cancel_ack-SameCore e1 id o.user_id o.state o.remaining ts).book
        ∙ (push_book_update-SameCore (record e { book = b }) ts).book in
      record {
        after = push_db_cancel e2 id o.user_id o.side o.type o.price o.quantity o.remaining ts;
        returned = rw (removed, remove_found);
        valid = rw same v';
        settled = rw same settled;
        erased = rw same erased;
      }

  cancel_found-Cancelled :
      {held : ℕ} (e : Engine C) (id ts : ℕ) (o : Order) (level : PriceLevel)
      → Valid C held e.book
      → PointsTo C e.book id o level
      → is_filled o.state ≡ false
      → Cancelled held e o level (cancel_found e id ts)
  unfolding cancel_found
  cancel_found-Cancelled e id ts o level v at unfilled =
      rw (find_order-found C at, cancel_found, unfilled)
        (remove_found-Cancelled e id ts o level v at)

  logged_or_not :
      (e : Engine C) (id : ℕ)
      → e.wal.disk ≡ []
      → Writes (log_unless_recovering e (log_cancel e.wal id))
  unfolding log_unless_recovering
  logged_or_not e id h = elim (Bool-cases e.is_recovering) [
    | inl quiet ↦ (e.wal, rw (log_unless_recovering, quiet), h)
    | inr loud ↦
        let (w, logged, writable) = log_cancel-Writes e.wal id h in
        (w, rw (log_unless_recovering, loud) logged, writable)
  ]

  -- On a valid book, when the disk takes every write and the index leads from the id to an order
  -- that stands in a level and is not filled, onCancelOrder returns true, whoever asks for it: the
  -- book is valid again, the order has left its level (which has gone if it was the only one), the
  -- best price is read again, the order's slot is the first of the free ones and
  -- the others are those from before, likewise for the slot of a level that has gone, and the id is erased from the index.
  pub on_cancel_order-Cancelled :
      {held : ℕ} (e : Engine C) (id ts : ℕ) (o : Order) (level : PriceLevel)
      → Valid C held e.book
      → e.wal.disk ≡ []
      → PointsTo C e.book id o level
      → is_filled o.state ≡ false
      → Cancelled held e o level (on_cancel_order e id ts)
  unfolding on_cancel_order
  on_cancel_order-Cancelled e id ts o level v h at unfilled =
      let (w, logged, writable) = logged_or_not e id h in
      let c = cancel_found-Cancelled (record e { wal = w }) id ts o level v at unfilled in
      record {
        after = c.after;
        returned = rw (logged, on_cancel_order) c.returned;
        valid = c.valid;
        settled = c.settled;
        erased = c.erased;
      }
