-- ===== src/TradeServer/WebSocketServer/Submit.antt =====
-- One order, its number and its queue.
use valyrian_stock_exchange.Prelude.{
  ℕ, ◌+◌, ◌%◌, ◌^◌, ◌≤◌, ◌<◌, ◌≡◌, refl, false, not, none, some, List, [], ◌∷◌, ◌++◌, length, ◌==◌,
  ==_self, leb, ◌&&◌, ◌⊎◌, inl, inr, arith, Bool-cases, ◌∙◌,
}
use native.Mathlib.Nat.{mod-mod}
use native.Mathlib.Decide.{dec_lt}
use valyrian_stock_exchange.Ems.Types.{RawOrder}
use valyrian_stock_exchange.Ems.Spsc.{Spsc}
use valyrian_stock_exchange.Ems.OrderQueue.{enqueue}
use valyrian_stock_exchange.TradeServer.ConnTable.{ConnTable, put}
use valyrian_stock_exchange.TradeServer.WebSocketServer.{
  Server, next_server_sequence, push_raw_order, note_client_seq, submit,
}

module _ (Q : Spsc RawOrder) where
  enqueue-kept :
      (q : Q.Queue) (order : RawOrder)
      → ((length (Q.contents q) < Q.capacity q)
          × (Q.contents (enqueue Q q order).1 ≡ Q.contents q ++ (order ∷ [])))
        ⊎ ((Q.capacity q ≤ length (Q.contents q))
            × (Q.contents (enqueue Q q order).1 ≡ Q.contents q))
  unfolding enqueue
  enqueue-kept q order = elim (dec_lt (length (Q.contents q)) (Q.capacity q)) [
    | yes room ↦
        let (q', e, added, cap) = Q.try_push-room q order room in inl (room, rw (enqueue, e) added)
    | no full ↦ inr (omega arith, rw (enqueue, Q.try_push-full q order (omega arith)) refl)
  ]

module _ {Q : Spsc RawOrder} where
  abbrev pub waiting : Server Q → ℕ → List RawOrder
  waiting s worker = Q.contents (s.queues worker)

  -- The order is behind the others in the queue of the worker; or the queue was full, and the order
  -- is lost. The other queues are as before.
  pub record Queued (s s' : Server Q) (worker : ℕ) (order : RawOrder) : Type 0 where
    pub kept :
        ((length (waiting s worker) < Q.capacity (s.queues worker))
          × (waiting s' worker ≡ waiting s worker ++ (order ∷ [])))
        ⊎ ((Q.capacity (s.queues worker) ≤ length (waiting s worker))
            × (waiting s' worker ≡ waiting s worker))
    pub others : (j : ℕ) → (j == worker) ≡ false → s'.queues j ≡ s.queues j

  -- An order of the user went out under the next number of its symbol.
  pub record Submitted (s s' : Server Q) (user_id : ℕ) : Type 0 where
    pub symbol : ℕ
    pub order : RawOrder
    pub for_symbol : order.symbol_id ≡ symbol
    pub inside : symbol < s.num_symbols
    pub numbered : order.sequence ≡ s.server_seq symbol
    pub counted : s'.server_seq ≡ put s.server_seq symbol ((s.server_seq symbol + 1) % 2 ^ 64)
    pub owner : order.user_id ≡ user_id % 2 ^ 32
    pub queued : Queued s s' (user_id % s.num_workers) order

  put_queue-Queued :
      (s : Server Q) (order : RawOrder) (w : ℕ)
      → Queued s (record s { queues = put s.queues w (enqueue Q (s.queues w) order).1 }) w order
  put_queue-Queued s order w =
      let here : put s.queues w (enqueue Q (s.queues w) order).1 w
          ≡ (enqueue Q (s.queues w) order).1 =
        rw (==_self w) refl in
      record {
        kept = rw (waiting, here) (enqueue-kept Q (s.queues w) order);
        others = λ j away. rw away refl;
      }

  push_raw_order_workers :
      (s : Server Q) (order : RawOrder) (hint : ℕ)
      → (s.num_workers == 0) ≡ false
      → (push_raw_order s order hint).1 ≡ record s {
        queues =
            put s.queues
              (hint % s.num_workers)
              (enqueue Q (s.queues (hint % s.num_workers)) order).1;
      }
  unfolding push_raw_order
  push_raw_order_workers s order hint workers = rw (push_raw_order, workers) refl

  push_raw_order-Queued :
      (s : Server Q) (order : RawOrder) (hint : ℕ)
      → (s.num_workers == 0) ≡ false
      → Queued s (push_raw_order s order hint).1 (hint % s.num_workers) order
        × ((push_raw_order s order hint).1.server_seq ≡ s.server_seq)
  push_raw_order-Queued s order hint workers =
      rw (push_raw_order_workers s order hint workers)
        (put_queue-Queued s order (hint % s.num_workers), refl)

  -- What `fill` may do: number an order of this user and symbol, and draw an id.
  pub record Fills (fill : Server Q → ℕ → RawOrder × Server Q) (user_id symbol_id : ℕ)
      : Type 0 where
    pub sequence : (s : Server Q) (seq : ℕ) → (fill s seq).0.sequence ≡ seq
    pub symbol : (s : Server Q) (seq : ℕ) → (fill s seq).0.symbol_id ≡ symbol_id
    pub owner : (s : Server Q) (seq : ℕ) → (fill s seq).0.user_id ≡ user_id % 2 ^ 32
    pub queues : (s : Server Q) (seq : ℕ) → (fill s seq).1.queues ≡ s.queues
    pub workers : (s : Server Q) (seq : ℕ) → (fill s seq).1.num_workers ≡ s.num_workers
    pub server_seq : (s : Server Q) (seq : ℕ) → (fill s seq).1.server_seq ≡ s.server_seq

  -- Only the connections change.
  noted_conns :
      (s : Server Q) (conn_id seq : ℕ)
      → (note_client_seq s conn_id seq ≡ none)
        ⊎ ((c : ConnTable) × (note_client_seq s conn_id seq ≡ some (record s { conns = c })))
  unfolding note_client_seq
  noted_conns s conn_id seq =
      elim (Bool-cases (not (seq == 0) && leb seq (s.conns.slots conn_id).last_client_seq)) [
        | inl old ↦ inl (rw (note_client_seq, old) refl)
        | inr fresh ↦ elim (Bool-cases (seq == 0)) [
          | inl zero ↦ inr (s.conns, rw (note_client_seq, fresh, zero) refl)
          | inr numbered ↦ inr (
            record s.conns {
              slots =
                  put s.conns.slots conn_id
                    (record (s.conns.slots conn_id) { last_client_seq = seq });
            },
            rw (note_client_seq, fresh, numbered) refl,
          )
        ]
      ]

  Queued-from :
      (s before s' : Server Q) (w : ℕ) (order : RawOrder)
      → before.queues ≡ s.queues
      → Queued before s' w order
      → Queued s s' w order
  Queued-from s before s' w order same h = record {
    kept = rw (waiting, same) at h.kept;
    others = λ j away. rw same at (h.others j away);
  }

  pushed-Submitted :
      (s filled : Server Q) (order : RawOrder) (symbol user_id : ℕ)
      → filled.queues ≡ s.queues
      → filled.num_workers ≡ s.num_workers
      → filled.server_seq ≡ put s.server_seq symbol ((s.server_seq symbol + 1) % 2 ^ 64)
      → order.symbol_id ≡ symbol
      → order.sequence ≡ s.server_seq symbol
      → order.user_id ≡ user_id % 2 ^ 32
      → symbol < s.num_symbols
      → (s.num_workers == 0) ≡ false
      → Submitted s (push_raw_order filled order (user_id % s.num_workers)).1 user_id
  pushed-Submitted s filled order symbol user_id queues count seqs for_symbol numbered owner inside
        workers =
      let worker : (user_id % s.num_workers) % filled.num_workers ≡ user_id % s.num_workers =
        rw count (mod-mod user_id s.num_workers) in
      let (queued, kept) =
        push_raw_order-Queued filled order (user_id % s.num_workers) (rw count workers) in
      let queued1 = rw worker at queued in
      record {
        symbol = symbol;
        order = order;
        for_symbol = for_symbol;
        inside = inside;
        numbered = numbered;
        counted = kept ∙ seqs;
        owner = owner;
        queued = Queued-from s filled _ (user_id % s.num_workers) order queues queued1;
      }

  numbered-Submitted :
      (s : Server Q) (symbol_id user_id : ℕ) (fill : Server Q → ℕ → RawOrder × Server Q)
      → Fills fill user_id symbol_id
      → (s.num_workers == 0) ≡ false
      → symbol_id < s.num_symbols
      → let seq = s.server_seq symbol_id in
        let s1 : Server Q = record s {
          server_seq = put s.server_seq symbol_id ((seq + 1) % 2 ^ 64);
        } in
        Submitted s
          (push_raw_order (fill s1 seq).1 (fill s1 seq).0 (user_id % s.num_workers)).1
          user_id
  numbered-Submitted s symbol_id user_id fill f workers inside =
      let seq = s.server_seq symbol_id in
      let s1 : Server Q = record s {
        server_seq = put s.server_seq symbol_id ((seq + 1) % 2 ^ 64);
      } in
      pushed-Submitted s (fill s1 seq).1 (fill s1 seq).0 symbol_id user_id (f.queues s1 seq)
        (f.workers s1 seq) (f.server_seq s1 seq) (f.symbol s1 seq) (f.sequence s1 seq)
        (f.owner s1 seq) inside workers

  -- The connections do not matter.
  renoted :
      (s : Server Q) (c : ConnTable) (s' : Server Q) (user_id : ℕ)
      → Submitted (record s { conns = c }) s' user_id
      → Submitted s s' user_id
  renoted s c s' user_id h = record {
    symbol = h.symbol;
    order = h.order;
    for_symbol = h.for_symbol;
    inside = h.inside;
    numbered = h.numbered;
    counted = h.counted;
    owner = h.owner;
    queued = record { kept = h.queued.kept; others = h.queued.others };
  }

  -- A request is dropped, or its order goes out.
  pub submit-Submitted :
      (s : Server Q) (conn_id symbol_id client_seq user_id : ℕ)
      (fill : Server Q → ℕ → RawOrder × Server Q)
      → Fills fill user_id symbol_id
      → (s.num_workers == 0) ≡ false
      → let s' = submit s conn_id symbol_id client_seq (user_id % s.num_workers) fill in
        (s' ≡ s) ⊎ Submitted s s' user_id
  unfolding submit next_server_sequence
  submit-Submitted s conn_id symbol_id client_seq user_id fill f workers =
      elim (Bool-cases (leb s.num_symbols symbol_id)) [
        | inl out ↦ rw (submit, out) (inl refl)
        | inr inside ↦ elim (noted_conns s conn_id client_seq) [
          | inl old ↦ rw (submit, inside, old) (inl refl)
          | inr (c, e) ↦
              rw (submit, inside, e, next_server_sequence, inside)
                (inr (
                  renoted s c _ user_id (
                    numbered-Submitted (record s { conns = c }) symbol_id user_id fill f workers
                      (ground (arith, inside)))))
        ]
      ]
