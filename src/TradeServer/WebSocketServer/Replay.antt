-- ===== src/TradeServer/WebSocketServer/Replay.antt =====
-- A message that comes again on its connection.
use valyrian_stock_exchange.Prelude.{
  ℕ, ◌*◌, ◌%◌, ◌≡◌, refl, ◌∙◌, Bool, true, false, not, Option, none, some, List, [], ◌∷◌, ap,
  length, ◌==◌, ==_self, ltb, leb, ◌⊎◌, inl, inr, arith, if◌then◌else◌, Bool-cases,
}
use valyrian_stock_exchange.Ems.Types.{RawOrder}
use valyrian_stock_exchange.Ems.Spsc.{Spsc}
use valyrian_stock_exchange.TradeServer.WebSocketServer.{
  Body, new_order, cancel_order, modify_order, unknown, Server, next_server_sequence,
  push_raw_order, note_client_seq, submit, fill_new, fill_known, handle_body, order_by, as_new,
  as_cancel, as_modify, handle_flat_buffer_message, push_cancel_order,
}
use valyrian_stock_exchange.TradeServer.WebSocketServer.Advances.{
  Advances, Advances-self, Advances-trans, Keeps, push_raw_order-keeps, fill_new-Keeps,
  fill_known-Keeps, handle_flat_buffer_message-Advances, push_cancel_order-Advances,
}

-- The client's sequence number of a request; none has no meaning for an unknown one.
abbrev pub is_numbered : Body → Bool
is_numbered (new_order symbol_id client_seq price qty side type) = not (client_seq == 0)
is_numbered (cancel_order symbol_id client_seq order_id) = not (client_seq == 0)
is_numbered (modify_order symbol_id client_seq order_id new_price new_qty) = not (client_seq == 0)
is_numbered unknown = true

module _ {Q : Spsc RawOrder} where
  -- A second request with the same number is refused.
  abbrev Old : Server Q → ℕ → ℕ → ℕ → Type 0
  Old s conn_id symbol_id seq =
      (leb s.num_symbols symbol_id ≡ true)
      ⊎ (leb seq (s.conns.slots conn_id).last_client_seq ≡ true)

  submit-Old :
      (s : Server Q) (conn_id symbol_id seq hint : ℕ) (fill : Server Q → ℕ → RawOrder × Server Q)
      → not (seq == 0) ≡ true
      → Old s conn_id symbol_id seq
      → submit s conn_id symbol_id seq hint fill ≡ s
  unfolding submit note_client_seq
  submit-Old s conn_id symbol_id seq hint fill numbered (inl out) = rw (submit, out) refl
  submit-Old s conn_id symbol_id seq hint fill numbered (inr old) =
      elim (Bool-cases (leb s.num_symbols symbol_id)) [
        | inl out ↦ rw (submit, out) refl
        | inr inside ↦
            let refused : note_client_seq s conn_id seq ≡ none =
              rw (note_client_seq, numbered, old) refl in
            rw (submit, inside, refused) refl
      ]

  pushed-Old :
      (filled : Server Q) (order : RawOrder) (hint conn_id symbol_id seq workers : ℕ)
      → (filled.conns.slots conn_id).last_client_seq ≡ seq
      → filled.num_workers ≡ workers
      → Old (push_raw_order filled order hint).1 conn_id symbol_id seq
        × ((push_raw_order filled order hint).1.num_workers ≡ workers)
  pushed-Old filled order hint conn_id symbol_id seq workers last count =
      let (conns, symbols, same) = push_raw_order-keeps filled order hint in
      (inr (rw (conns, last) (ground arith)), same ∙ count)

  submit-leaves-Old :
      (s : Server Q) (conn_id symbol_id seq hint : ℕ) (fill : Server Q → ℕ → RawOrder × Server Q)
      → Keeps fill
      → not (seq == 0) ≡ true
      → let s' = submit s conn_id symbol_id seq hint fill in
        Old s' conn_id symbol_id seq × (s'.num_workers ≡ s.num_workers)
  unfolding submit note_client_seq next_server_sequence
  submit-leaves-Old s conn_id symbol_id seq hint fill keeps numbered =
      elim (Bool-cases (leb s.num_symbols symbol_id)) [
        | inl out ↦ rw (submit, out) (inl out, refl)
        | inr inside ↦ elim (Bool-cases (leb seq (s.conns.slots conn_id).last_client_seq)) [
          | inl old ↦ rw (submit, inside, note_client_seq, numbered, old) (inr old, refl)
          | inr fresh ↦
              let not_zero : (seq == 0) ≡ false = ground (arith, numbered) in
              rw
                (
                  submit, inside, note_client_seq, numbered, fresh, not_zero, next_server_sequence,
                  inside,
                )
                (pushed-Old _ _ hint conn_id symbol_id seq s.num_workers
                  (rw (keeps.conns _ _, ==_self conn_id) refl) (keeps.workers _ _))
        ]
      ]

  abbrev OldBody : Server Q → ℕ → Body → Type 0
  OldBody s conn_id (new_order symbol_id seq price qty side type) = Old s conn_id symbol_id seq
  OldBody s conn_id (cancel_order symbol_id seq order_id) = Old s conn_id symbol_id seq
  OldBody s conn_id (modify_order symbol_id seq order_id price qty) = Old s conn_id symbol_id seq
  OldBody s conn_id unknown = Unit

  -- Once refused, always refused.
  Old-Advances :
      {s s' : Server Q} (conn_id symbol_id seq : ℕ)
      → Advances s s'
      → Old s conn_id symbol_id seq
      → Old s' conn_id symbol_id seq
  Old-Advances conn_id symbol_id seq a (inl out) = inl (rw a.symbols out)
  Old-Advances conn_id symbol_id seq a (inr old) = inr (ground (arith, old, a.rises conn_id))

  OldBody-Advances :
      {s s' : Server Q} (conn_id : ℕ) (body : Body)
      → Advances s s'
      → OldBody s conn_id body
      → OldBody s' conn_id body
  OldBody-Advances c (new_order symbol_id seq price qty side type) a h =
      Old-Advances c symbol_id seq a h
  OldBody-Advances c (cancel_order symbol_id seq order_id) a h = Old-Advances c symbol_id seq a h
  OldBody-Advances c (modify_order symbol_id seq order_id price qty) a h =
      Old-Advances c symbol_id seq a h
  OldBody-Advances c unknown a h = tt

  handle_body-Old :
      (s : Server Q) (conn_id hint : ℕ) (blank : RawOrder) (body : Body)
      → is_numbered body ≡ true
      → OldBody s conn_id body
      → handle_body s conn_id hint blank body ≡ s
  unfolding handle_body
  handle_body-Old s c hint blank (new_order symbol_id seq price qty side type) n h =
      submit-Old s c symbol_id seq hint (fill_new (as_new blank symbol_id price qty side type)) n h
  handle_body-Old s c hint blank (cancel_order symbol_id seq order_id) n h =
      submit-Old s c symbol_id seq hint (fill_known (as_cancel blank symbol_id order_id)) n h
  handle_body-Old s c hint blank (modify_order symbol_id seq order_id price qty) n h =
      submit-Old s c symbol_id seq hint (fill_known (as_modify blank symbol_id order_id price qty))
        n h
  handle_body-Old s c hint blank unknown n h = refl

  handle_body-OldBody :
      (s : Server Q) (conn_id hint : ℕ) (blank : RawOrder) (body : Body)
      → is_numbered body ≡ true
      → OldBody (handle_body s conn_id hint blank body) conn_id body
  unfolding handle_body
  handle_body-OldBody s c hint blank (new_order symbol_id seq price qty side type) n =
      (submit-leaves-Old s c symbol_id seq hint
        (fill_new (as_new blank symbol_id price qty side type))
        (fill_new-Keeps (as_new blank symbol_id price qty side type)) n).0
  handle_body-OldBody s c hint blank (cancel_order symbol_id seq order_id) n =
      (submit-leaves-Old s c symbol_id seq hint (fill_known (as_cancel blank symbol_id order_id))
        (fill_known-Keeps (as_cancel blank symbol_id order_id)) n).0
  handle_body-OldBody s c hint blank (modify_order symbol_id seq order_id price qty) n =
      (submit-leaves-Old s c symbol_id seq hint
        (fill_known (as_modify blank symbol_id order_id price qty))
        (fill_known-Keeps (as_modify blank symbol_id order_id price qty)) n).0
  handle_body-OldBody s c hint blank unknown n = tt

  module _ (decode : List ℕ → Option Body) (user_id conn_id : ℕ) (message : List ℕ) where
    handled-long :
        (s : Server Q) (now : ℕ)
        → ltb (64 * 1024) (length message) ≡ true
        → handle_flat_buffer_message decode s user_id conn_id message now ≡ s
    unfolding handle_flat_buffer_message
    handled-long s now long = rw (handle_flat_buffer_message, long) refl

    handled-body :
        (s : Server Q) (now : ℕ) (body : Body)
        → ltb (64 * 1024) (length message) ≡ false
        → decode message ≡ some body
        → handle_flat_buffer_message decode s user_id conn_id message now ≡ (
            if s.num_workers == 0
            then s
            else handle_body s conn_id (user_id % s.num_workers) (order_by user_id now) body)
    unfolding handle_flat_buffer_message
    handled-body s now body fits e = rw (handle_flat_buffer_message, fits, e) refl

-- What reaches the server between two messages: a message of a connection, with its user, its bytes
-- and its time, or a cancellation that the account service asks for.
pub data Event : Type 0 where
  message : ℕ → ℕ → List ℕ → ℕ → Event
  cancellation : ℕ → ℕ → ℕ → ℕ → Event

module _ {Q : Spsc RawOrder} (decode : List ℕ → Option Body) where
  abbrev pub on_event : Server Q → Event → Server Q
  on_event s (message user_id conn_id bytes now) =
      handle_flat_buffer_message decode s user_id conn_id bytes now
  on_event s (cancellation user_id symbol_id order_id now) =
      (push_cancel_order s user_id symbol_id order_id now).1

  abbrev pub on_events : Server Q → List Event → Server Q
  on_events s [] = s
  on_events s (event ∷ events) = on_events (on_event s event) events

  on_events-Advances : (s : Server Q) (events : List Event) → Advances s (on_events s events)
  on_events-Advances s [] = Advances-self s
  on_events-Advances s (message user_id conn_id bytes now ∷ events) =
      Advances-trans (handle_flat_buffer_message-Advances decode s user_id conn_id bytes now)
        (on_events-Advances (handle_flat_buffer_message decode s user_id conn_id bytes now) events)
  on_events-Advances s (cancellation user_id symbol_id order_id now ∷ events) =
      Advances-trans (push_cancel_order-Advances s user_id symbol_id order_id now)
        (on_events-Advances (push_cancel_order s user_id symbol_id order_id now).1 events)

  -- A server that is further on than what the first handling left does nothing.
  refused_later :
      (s s' t : Server Q) (user_id conn_id : ℕ) (bytes : List ℕ) (body : Body) (now later : ℕ)
      → decode bytes ≡ some body
      → is_numbered body ≡ true
      → s' ≡ handle_flat_buffer_message decode s user_id conn_id bytes now
      → Advances s' t
      → handle_flat_buffer_message decode t user_id conn_id bytes later ≡ t
  refused_later s s' t user_id conn_id bytes body now later e numbered is a =
      elim (Bool-cases (ltb (64 * 1024) (length bytes))) [
        | inl long ↦ handled-long decode user_id conn_id bytes t later long
        | inr fits ↦
            let first = is ∙ handled-body decode user_id conn_id bytes s now body fits e in
            let last = handled-body decode user_id conn_id bytes t later body fits e in
            elim (Bool-cases (t.num_workers == 0)) [
              | inl idle ↦ last ∙ rw idle refl
              | inr busy ↦
                  let workers =
                    a.workers
                    ∙ ap (λ (x : Server Q). x.num_workers) is
                    ∙ (handle_flat_buffer_message-Advances decode s user_id conn_id bytes
                        now).workers in
                  let busy_first : (s.num_workers == 0) ≡ false = rw workers at busy in
                  let same : s'
                      ≡ handle_body s conn_id (user_id % s.num_workers) (order_by user_id now)
                          body =
                    rw busy_first at first in
                  let old : OldBody s' conn_id body = rw same (
                    handle_body-OldBody s conn_id (user_id % s.num_workers) (order_by user_id now)
                      body numbered) in
                  last
                  ∙ rw busy (
                      handle_body-Old t conn_id (user_id % t.num_workers) (order_by user_id later)
                        body numbered (OldBody-Advances conn_id body a old))
            ]
      ]

  -- A message with a sequence number of the client that is not zero has no effect when it comes again
  -- on its connection, whatever messages of this and of other connections and whatever cancellations
  -- of the account service the server handled in between, at whatever time.
  pub handle_flat_buffer_message-replayed :
      (s : Server Q) (user_id conn_id : ℕ) (bytes : List ℕ) (body : Body) (events : List Event)
      (now later : ℕ)
      → decode bytes ≡ some body
      → is_numbered body ≡ true
      → let t = on_events (handle_flat_buffer_message decode s user_id conn_id bytes now) events in
        handle_flat_buffer_message decode t user_id conn_id bytes later ≡ t
  handle_flat_buffer_message-replayed s user_id conn_id bytes body events now later e numbered =
      let s' = handle_flat_buffer_message decode s user_id conn_id bytes now in
      refused_later s s' (on_events s' events) user_id conn_id bytes body now later e numbered refl
        (on_events-Advances s' events)
