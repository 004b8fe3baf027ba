-- ===== src/TradeServer/WebSocketServer/Advances.antt =====
-- What no event of the server takes back: the numbers of the clients rise on every connection.
use valyrian_stock_exchange.Prelude.{
  ℕ, ◌*◌, ◌%◌, ◌≤◌, ◌≡◌, refl, ◌∙◌, false, Option, none, some, List, length, ◌==◌, ltb, leb, inl,
  inr, arith, Bool-cases, Option-cases, ==_iff,
}
use valyrian_stock_exchange.Ems.Types.{RawOrder}
use valyrian_stock_exchange.Ems.Spsc.{Spsc}
use valyrian_stock_exchange.TradeServer.WebSocketServer.{
  Body, new_order, cancel_order, modify_order, unknown, Server, next_id, next_server_sequence,
  push_raw_order, note_client_seq, submit, fill_new, fill_known, handle_body, order_by, as_new,
  as_cancel, as_modify, handle_flat_buffer_message, push_cancel_order,
}
use valyrian_stock_exchange.TradeServer.ConnTable.{put}

module _ {Q : Spsc RawOrder} where
  pub record Advances (s s' : Server Q) : Type 0 where
    pub symbols : s'.num_symbols ≡ s.num_symbols
    pub workers : s'.num_workers ≡ s.num_workers
    pub rises : (c : ℕ) → (s.conns.slots c).last_client_seq ≤ (s'.conns.slots c).last_client_seq

  pub Advances-self : (s : Server Q) → Advances s s
  Advances-self s = record { symbols = refl; workers = refl; rises = λ c. omega arith }

  pub Advances-trans : {s s1 s' : Server Q} → Advances s s1 → Advances s1 s' → Advances s s'
  Advances-trans a b = record {
    symbols = b.symbols ∙ a.symbols;
    workers = b.workers ∙ a.workers;
    rises = λ c. omega (arith, a.rises c, b.rises c);
  }

  pub push_raw_order-keeps :
      (s : Server Q) (order : RawOrder) (hint : ℕ)
      → ((push_raw_order s order hint).1.conns ≡ s.conns)
        × ((push_raw_order s order hint).1.num_symbols ≡ s.num_symbols)
        × ((push_raw_order s order hint).1.num_workers ≡ s.num_workers)
  unfolding push_raw_order
  push_raw_order-keeps s order hint = elim (Bool-cases (s.num_workers == 0)) [
    | inl idle ↦ rw (push_raw_order, idle) (refl, refl, refl)
    | inr workers ↦ rw (push_raw_order, workers) (refl, refl, refl)
  ]

  pub record Keeps (fill : Server Q → ℕ → RawOrder × Server Q) : Type 0 where
    pub conns : (s : Server Q) (seq : ℕ) → (fill s seq).1.conns ≡ s.conns
    pub symbols : (s : Server Q) (seq : ℕ) → (fill s seq).1.num_symbols ≡ s.num_symbols
    pub workers : (s : Server Q) (seq : ℕ) → (fill s seq).1.num_workers ≡ s.num_workers

  push_raw_order-Advances :
      (s filled : Server Q) (order : RawOrder) (hint : ℕ)
      → Advances s filled
      → Advances s (push_raw_order filled order hint).1
  push_raw_order-Advances s filled order hint a =
      let (conns, symbols, workers) = push_raw_order-keeps filled order hint in
      record {
        symbols = symbols ∙ a.symbols;
        workers = workers ∙ a.workers;
        rises = λ c. rw conns (a.rises c);
      }

  fill-Advances :
      (s noted : Server Q) (fill : Server Q → ℕ → RawOrder × Server Q) (seq : ℕ)
      → Keeps fill
      → Advances s noted
      → Advances s (fill noted seq).1
  fill-Advances s noted fill seq keeps a = record {
    symbols = keeps.symbols noted seq ∙ a.symbols;
    workers = keeps.workers noted seq ∙ a.workers;
    rises = λ c. rw (keeps.conns noted seq) (a.rises c);
  }

  abbrev AdvancesIf : Server Q → Option (Server Q) → Type 0
  AdvancesIf s none = Unit
  AdvancesIf s (some s') = Advances s s'

  abbrev AdvancesNext : Server Q → Option (ℕ × Server Q) → Type 0
  AdvancesNext s none = Unit
  AdvancesNext s (some next) = Advances s next.1

  noted_lem :
      (s : Server Q) (conn_id seq : ℕ)
      → leb seq (s.conns.slots conn_id).last_client_seq ≡ false
      → Advances s (record s {
        conns = record s.conns {
          slots =
              put s.conns.slots conn_id (record (s.conns.slots conn_id) { last_client_seq = seq });
        };
      })
  noted_lem s conn_id seq fresh = record {
    symbols = refl;
    workers = refl;
    rises = λ c. elim (Bool-cases (c == conn_id)) [
      | inl here ↦
          let e : c ≡ conn_id = (==_iff c conn_id).0 here in rw (here, e) (ground (arith, fresh))
      | inr away ↦ rw away (omega arith)
    ];
  }

  note_client_seq-AdvancesIf :
      (s : Server Q) (conn_id seq : ℕ) → AdvancesIf s (note_client_seq s conn_id seq)
  unfolding note_client_seq
  note_client_seq-AdvancesIf s conn_id seq = elim (Bool-cases (seq == 0)) [
    | inl zero_seq ↦ rw (note_client_seq, zero_seq) (Advances-self s)
    | inr numbered ↦ elim (Bool-cases (leb seq (s.conns.slots conn_id).last_client_seq)) [
      | inl old ↦ rw (note_client_seq, numbered, old) tt
      | inr fresh ↦ rw (note_client_seq, numbered, fresh) (noted_lem s conn_id seq fresh)
    ]
  ]

  note_client_seq-Advances :
      (s noted : Server Q) (conn_id seq : ℕ)
      → note_client_seq s conn_id seq ≡ some noted
      → Advances s noted
  note_client_seq-Advances s noted conn_id seq e =
      rw e at (note_client_seq-AdvancesIf s conn_id seq)

  next_server_sequence-AdvancesNext :
      (s : Server Q) (symbol_id : ℕ) → AdvancesNext s (next_server_sequence s symbol_id)
  unfolding next_server_sequence
  next_server_sequence-AdvancesNext s symbol_id = elim (Bool-cases (leb s.num_symbols symbol_id)) [
    | inl out ↦ rw (next_server_sequence, out) tt
    | inr inside ↦
        rw (next_server_sequence, inside)
          (record { symbols = refl; workers = refl; rises = λ c. omega arith })
  ]

  next_server_sequence-Advances :
      (s numbered : Server Q) (symbol_id seq : ℕ)
      → next_server_sequence s symbol_id ≡ some (seq, numbered)
      → Advances s numbered
  next_server_sequence-Advances s numbered symbol_id seq e =
      rw e at (next_server_sequence-AdvancesNext s symbol_id)

  pub submit-Advances :
      (s : Server Q) (conn_id symbol_id seq hint : ℕ) (fill : Server Q → ℕ → RawOrder × Server Q)
      → Keeps fill
      → Advances s (submit s conn_id symbol_id seq hint fill)
  unfolding submit
  submit-Advances s conn_id symbol_id seq hint fill keeps =
      elim (Bool-cases (leb s.num_symbols symbol_id)) [
        | inl out ↦ rw (submit, out) (Advances-self s)
        | inr inside ↦ elim (Option-cases (note_client_seq s conn_id seq)) [
          | inl old ↦ rw (submit, inside, old) (Advances-self s)
          | inr (noted, e) ↦
              let a = note_client_seq-Advances s noted conn_id seq e in
              elim (Option-cases (next_server_sequence noted symbol_id)) [
                | inl missing ↦ rw (submit, inside, e, missing) a
                | inr (next, f) ↦
                    let b =
                      Advances-trans a
                        (next_server_sequence-Advances noted next.1 symbol_id next.0 f) in
                    rw (submit, inside, e, f)
                      (push_raw_order-Advances s (fill next.1 next.0).1 (fill next.1 next.0).0 hint
                        (fill-Advances s next.1 fill next.0 keeps b))
              ]
        ]
      ]

  pub fill_new-Keeps : (order : RawOrder) → Keeps (fill_new {Q = Q} order)
  unfolding fill_new next_id
  fill_new-Keeps order = record {
    conns = λ s seq. refl;
    symbols = λ s seq. refl;
    workers = λ s seq. refl;
  }

  pub fill_known-Keeps : (order : RawOrder) → Keeps (fill_known {Q = Q} order)
  unfolding fill_known
  fill_known-Keeps order = record {
    conns = λ s seq. refl;
    symbols = λ s seq. refl;
    workers = λ s seq. refl;
  }

  pub handle_body-Advances :
      (s : Server Q) (conn_id hint : ℕ) (blank : RawOrder) (body : Body)
      → Advances s (handle_body s conn_id hint blank body)
  unfolding handle_body
  handle_body-Advances s conn_id hint blank (new_order symbol_id seq price qty side type) =
      submit-Advances s conn_id symbol_id seq hint
        (fill_new (as_new blank symbol_id price qty side type))
        (fill_new-Keeps (as_new blank symbol_id price qty side type))
  handle_body-Advances s conn_id hint blank (cancel_order symbol_id seq order_id) =
      submit-Advances s conn_id symbol_id seq hint (fill_known (as_cancel blank symbol_id order_id))
        (fill_known-Keeps (as_cancel blank symbol_id order_id))
  handle_body-Advances s conn_id hint blank (modify_order symbol_id seq order_id price qty) =
      submit-Advances s conn_id symbol_id seq hint
        (fill_known (as_modify blank symbol_id order_id price qty))
        (fill_known-Keeps (as_modify blank symbol_id order_id price qty))
  handle_body-Advances s conn_id hint blank unknown = Advances-self s

  pub handle_flat_buffer_message-Advances :
      (decode : List ℕ → Option Body) (s : Server Q) (user_id conn_id : ℕ) (message : List ℕ)
      (now : ℕ)
      → Advances s (handle_flat_buffer_message decode s user_id conn_id message now)
  unfolding handle_flat_buffer_message
  handle_flat_buffer_message-Advances decode s user_id conn_id message now =
      elim (Bool-cases (ltb (64 * 1024) (length message))) [
        | inl long ↦ rw (handle_flat_buffer_message, long) (Advances-self s)
        | inr fits ↦ elim (Option-cases (decode message)) [
          | inl refused ↦ rw (handle_flat_buffer_message, fits, refused) (Advances-self s)
          | inr (body, e) ↦ elim (Bool-cases (s.num_workers == 0)) [
            | inl idle ↦ rw (handle_flat_buffer_message, fits, e, idle) (Advances-self s)
            | inr busy ↦
                rw (handle_flat_buffer_message, fits, e, busy)
                  (handle_body-Advances s conn_id (user_id % s.num_workers) (order_by user_id now)
                    body)
          ]
        ]
      ]

  pub push_cancel_order-Advances :
      (s : Server Q) (user_id symbol_id order_id now : ℕ)
      → Advances s (push_cancel_order s user_id symbol_id order_id now).1
  unfolding push_cancel_order
  push_cancel_order-Advances s user_id symbol_id order_id now =
      elim (Bool-cases (leb s.num_symbols symbol_id)) [
        | inl out ↦ rw (push_cancel_order, out) (Advances-self s)
        | inr inside ↦ elim (Option-cases (next_server_sequence s symbol_id)) [
          | inl missing ↦ rw (push_cancel_order, inside, missing) (Advances-self s)
          | inr (next, f) ↦
              rw (push_cancel_order, inside, f)
                (push_raw_order-Advances s next.1 _ user_id
                  (next_server_sequence-Advances s next.1 symbol_id next.0 f))
        ]
      ]
