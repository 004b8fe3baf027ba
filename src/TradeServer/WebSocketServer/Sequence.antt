-- ===== src/TradeServer/WebSocketServer/Sequence.antt =====
-- What a message of a client does to the server.
use valyrian_stock_exchange.Prelude.{
  ℕ, ◌*◌, ◌%◌, ◌^◌, ◌≡◌, refl, false, Option, List, length, ◌==◌, ltb, ◌⊎◌, inl, inr, Bool-cases,
  Option-cases,
}
use valyrian_stock_exchange.Ems.Types.{RawOrder}
use valyrian_stock_exchange.Ems.Spsc.{Spsc}
use valyrian_stock_exchange.TradeServer.WebSocketServer.{
  Body, new_order, cancel_order, modify_order, unknown, Server, next_id, fill_new, fill_known,
  handle_body, order_by, as_new, as_cancel, as_modify, handle_flat_buffer_message,
}
use valyrian_stock_exchange.TradeServer.WebSocketServer.Submit.{Submitted, Fills, submit-Submitted}

module _ {Q : Spsc RawOrder} where
  fill_known-Fills :
      (order : RawOrder) (user_id : ℕ)
      → order.user_id ≡ user_id % 2 ^ 32
      → Fills (fill_known {Q = Q} order) user_id order.symbol_id
  unfolding fill_known
  fill_known-Fills order user_id owner = record {
    sequence = λ s seq. refl;
    symbol = λ s seq. refl;
    owner = λ s seq. owner;
    queues = λ s seq. refl;
    workers = λ s seq. refl;
    server_seq = λ s seq. refl;
  }

  fill_new-Fills :
      (order : RawOrder) (user_id : ℕ)
      → order.user_id ≡ user_id % 2 ^ 32
      → Fills (fill_new {Q = Q} order) user_id order.symbol_id
  unfolding fill_new next_id
  fill_new-Fills order user_id owner = record {
    sequence = λ s seq. refl;
    symbol = λ s seq. refl;
    owner = λ s seq. owner;
    queues = λ s seq. refl;
    workers = λ s seq. refl;
    server_seq = λ s seq. refl;
  }

  handle_body-Submitted :
      (s : Server Q) (conn_id user_id now : ℕ) (body : Body)
      → (s.num_workers == 0) ≡ false
      → let s' = handle_body s conn_id (user_id % s.num_workers) (order_by user_id now) body in
        (s' ≡ s) ⊎ Submitted s s' user_id
  unfolding handle_body
  handle_body-Submitted s conn_id user_id now (new_order symbol_id seq price qty side type)
        workers =
      let order = as_new (order_by user_id now) symbol_id price qty side type in
      submit-Submitted s conn_id symbol_id seq user_id (fill_new order)
        (fill_new-Fills order user_id refl) workers
  handle_body-Submitted s conn_id user_id now (cancel_order symbol_id seq order_id) workers =
      let order = as_cancel (order_by user_id now) symbol_id order_id in
      submit-Submitted s conn_id symbol_id seq user_id (fill_known order)
        (fill_known-Fills order user_id refl) workers
  handle_body-Submitted s conn_id user_id now (modify_order symbol_id seq order_id price qty)
        workers =
      let order = as_modify (order_by user_id now) symbol_id order_id price qty in
      submit-Submitted s conn_id symbol_id seq user_id (fill_known order)
        (fill_known-Fills order user_id refl) workers
  handle_body-Submitted s conn_id user_id now unknown workers = inl refl

  -- Whatever the message is, either it is dropped and the server is as it was; or one order of the
  -- user, for a symbol that there is, takes the symbol's next server sequence number, the number of
  -- that symbol moves on by one and those of the others stay, and the order is behind the others in
  -- the queue of the user's worker, unless that queue is full: then the number is used all the same,
  -- and the order is lost. The other queues are as before.
  pub handle_flat_buffer_message-Submitted :
      (decode : List ℕ → Option Body) (s : Server Q) (user_id conn_id : ℕ) (message : List ℕ)
      (now : ℕ)
      → let s' = handle_flat_buffer_message decode s user_id conn_id message now in
        (s' ≡ s) ⊎ Submitted s s' user_id
  unfolding handle_flat_buffer_message
  handle_flat_buffer_message-Submitted decode s user_id conn_id message now =
      elim (Bool-cases (ltb (64 * 1024) (length message))) [
        | inl long ↦ rw (handle_flat_buffer_message, long) (inl refl)
        | inr fits ↦ elim (Option-cases (decode message)) [
          | inl refused ↦ rw (handle_flat_buffer_message, fits, refused) (inl refl)
          | inr (body, e) ↦ elim (Bool-cases (s.num_workers == 0)) [
            | inl idle ↦ rw (handle_flat_buffer_message, fits, e, idle) (inl refl)
            | inr workers ↦
                rw (handle_flat_buffer_message, fits, e, workers)
                  (handle_body-Submitted s conn_id user_id now body workers)
          ]
        ]
      ]
