-- ===== src/TradeServer/WebSocketServer.antt =====
-- trade_server/network/WebSocketServer.h and WebSocketServer.cpp: what the server does with the
-- messages of its clients. A message is the list of its bytes. `decode` stands for the verifier and
-- the accessors that flatc generates (trade_server/protocol/WireTypes_generated.h): `none` is a
-- message that they refuse. `now` is what wallTimestampNs would return.
pub mod Submit
pub mod Sequence
pub mod Advances
pub mod Replay
use valyrian_stock_exchange.Prelude.{
  ℕ, ◌+◌, ◌*◌, ◌%◌, ◌^◌, Bool, true, false, not, Option, none, some, List, [], length, ◌==◌, ltb,
  leb, ◌&&◌, if◌then◌else◌,
}
use valyrian_stock_exchange.Prelude.Int.{ℤ, pos}
use valyrian_stock_exchange.Ems.Types.{RawOrder}
use valyrian_stock_exchange.Ems.Spsc.{Spsc}
use valyrian_stock_exchange.Ems.OrderQueue.{enqueue}
use valyrian_stock_exchange.TradeServer.ConnTable.{ConnTable, ConnState, put}

-- The body of a request. `unknown` is a body of another type, or one that is missing.
pub data Body : Type 0 where
  -- symbol, client's sequence number, price, quantity, side, type
  new_order : ℕ → ℕ → ℤ → ℕ → ℕ → ℕ → Body
  -- symbol, client's sequence number, order
  cancel_order : ℕ → ℕ → ℕ → Body
  -- symbol, client's sequence number, order, new price, new quantity
  modify_order : ℕ → ℕ → ℕ → ℤ → ℕ → Body
  unknown : Body

-- `queues` are those of the ingress workers, which EMSCore owns.
pub record Server (Q : Spsc RawOrder) : Type 0 where
  pub conns : ConnTable
  pub order_ids : ℕ
  pub num_symbols : ℕ
  pub server_seq : ℕ → ℕ
  pub num_workers : ℕ
  pub queues : ℕ → Q.Queue

-- An order of the user, as `RawOrder ro{}` and the first assignments leave it.
abbrev pub order_by : ℕ → ℕ → RawOrder
order_by user_id now = record {
  sequence = 0;
  order_id = 0;
  user_id = user_id % 2 ^ 32;
  symbol_id = 0;
  price = pos 0;
  qty = 0;
  side = 0;
  type = 0;
  cancel_flag = 0;
  modify_flag = 0;
  timestamp = now;
}

abbrev pub as_new : RawOrder → ℕ → ℤ → ℕ → ℕ → ℕ → RawOrder
as_new blank symbol_id price qty side type = record blank {
  symbol_id = symbol_id;
  price = price;
  qty = qty;
  side = side;
  type = type;
}

abbrev pub as_cancel : RawOrder → ℕ → ℕ → RawOrder
as_cancel blank symbol_id order_id = record blank {
  symbol_id = symbol_id;
  order_id = order_id;
  cancel_flag = 1;
}

abbrev pub as_modify : RawOrder → ℕ → ℕ → ℤ → ℕ → RawOrder
as_modify blank symbol_id order_id new_price new_qty = record blank {
  symbol_id = symbol_id;
  order_id = order_id;
  price = new_price;
  qty = new_qty;
  modify_flag = 1;
}

module _ {Q : Spsc RawOrder} where
  -- IdGenerator::nextId of ems/utils/IdGenerator.h
  unfoldable pub next_id : Server Q → ℕ × Server Q
  next_id s = (s.order_ids, record s { order_ids = (s.order_ids + 1) % 2 ^ 64 })

  unfoldable pub next_server_sequence : Server Q → ℕ → Option (ℕ × Server Q)
  next_server_sequence s symbol_id =
      if leb s.num_symbols symbol_id
      then none
      else some (
        s.server_seq symbol_id,
        record s {
          server_seq = put s.server_seq symbol_id ((s.server_seq symbol_id + 1) % 2 ^ 64);
        },
      )

  -- The remainder by zero is not computed.
  unfoldable pub push_raw_order : Server Q → RawOrder → ℕ → Bool × Server Q
  push_raw_order s order worker_hint =
      if s.num_workers == 0
      then (false, s)
      else (let worker = worker_hint % s.num_workers in
          let (took, q) = enqueue Q (s.queues worker) order in
          (took, record s { queues = put s.queues worker q }))

  -- A sequence number of the client that is not zero has to rise on its connection.
  unfoldable pub note_client_seq : Server Q → ℕ → ℕ → Option (Server Q)
  note_client_seq s conn_id seq =
      let state = s.conns.slots conn_id in
      if not (seq == 0) && leb seq state.last_client_seq
      then none
      else if seq == 0
      then some s
      else some (record s {
        conns = record s.conns {
          slots = put s.conns.slots conn_id (record state { last_client_seq = seq });
        };
      })

  -- What the three kinds of requests have in common. `fill` makes the order of its sequence number.
  unfoldable pub submit : Server Q → ℕ → ℕ → ℕ → ℕ → (Server Q → ℕ → RawOrder × Server Q) → Server Q
  submit s conn_id symbol_id client_seq worker_hint fill =
      if leb s.num_symbols symbol_id then s else elim (note_client_seq s conn_id client_seq) [
        | none ↦ s
        | some noted ↦ elim (next_server_sequence noted symbol_id) [
          | none ↦ noted
          | some (seq, numbered) ↦
              let (order, filled) = fill numbered seq in (push_raw_order filled order worker_hint).1
        ]
      ]

  -- The order of a new request takes the next id.
  unfoldable pub fill_new : RawOrder → Server Q → ℕ → RawOrder × Server Q
  unfolding next_id
  fill_new order s seq =
      let (id, s1) = next_id s in (record order { sequence = seq; order_id = id }, s1)

  unfoldable pub fill_known : RawOrder → Server Q → ℕ → RawOrder × Server Q
  fill_known order s seq = (record order { sequence = seq }, s)

  -- The switch over the body. `blank` has the user and the time.
  unfoldable pub handle_body : Server Q → ℕ → ℕ → RawOrder → Body → Server Q
  unfolding submit fill_new fill_known
  handle_body s conn_id worker_hint blank (new_order symbol_id client_seq price qty side type) =
      submit s conn_id symbol_id client_seq worker_hint
        (fill_new (as_new blank symbol_id price qty side type))
  handle_body s conn_id worker_hint blank (cancel_order symbol_id client_seq order_id) =
      submit s conn_id symbol_id client_seq worker_hint
        (fill_known (as_cancel blank symbol_id order_id))
  handle_body s conn_id worker_hint blank
        (modify_order symbol_id client_seq order_id new_price new_qty) =
      submit s conn_id symbol_id client_seq worker_hint
        (fill_known (as_modify blank symbol_id order_id new_price new_qty))
  handle_body s conn_id worker_hint blank unknown = s

  unfoldable pub handle_flat_buffer_message :
      (List ℕ → Option Body) → Server Q → ℕ → ℕ → List ℕ → ℕ → Server Q
  unfolding handle_body
  handle_flat_buffer_message decode s user_id conn_id message now =
      if ltb (64 * 1024) (length message) then s else elim (decode message) [
        | none ↦ s
        | some body ↦
            if s.num_workers == 0
            then s
            else handle_body s conn_id (user_id % s.num_workers) (order_by user_id now) body
      ]

  -- A cancellation that the account service asks for.
  unfoldable pub push_cancel_order : Server Q → ℕ → ℕ → ℕ → ℕ → Bool × Server Q
  push_cancel_order s user_id symbol_id order_id now =
      if leb s.num_symbols symbol_id then (false, s) else elim (next_server_sequence s symbol_id) [
        | none ↦ (false, s)
        | some (seq, numbered) ↦
            push_raw_order numbered
              (record (order_by user_id now) {
                sequence = seq;
                order_id = order_id;
                symbol_id = symbol_id;
                cancel_flag = 1;
              })
              user_id
      ]
