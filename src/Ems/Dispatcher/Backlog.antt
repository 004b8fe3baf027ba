-- ===== src/Ems/Dispatcher/Backlog.antt =====
-- The orders between the ingress workers and the engine, and what one iteration does to them.
use valyrian_stock_exchange.Prelude.{
  ℕ, suc, ◌+◌, ◌%◌, ◌^◌, ◌≤◌, ◌<◌, ◌≡◌, refl, true, false, some, List, ◌∷◌, length, ◌==◌, ==_self,
  arith,
}
use valyrian_stock_exchange.Ems.Types.{OrderSlot}
use valyrian_stock_exchange.Ems.Disruptor.{Disruptor}
use valyrian_stock_exchange.Ems.RejectionBitset.{put_bit, try_consume_rejected}
use valyrian_stock_exchange.Ems.MpscRingBuffer.{is_available, release_slot, get}
use valyrian_stock_exchange.Ems.MpscRingBuffer.Holds.{Holds}
use valyrian_stock_exchange.Ems.MpscRingBuffer.Moves.{get-Holds, release_slot-Holds}
use valyrian_stock_exchange.Ems.Dispatcher.{
  Handlers, Lane, skipped, delivered, deliver, finish_turn, take_slot, turn,
}
use valyrian_stock_exchange.Ems.Dispatcher.Items.{
  Item, passed_of, is_marked, Numbered, is_marked-put_bit_same, Numbered-put_bit, next_word,
  unmarked_after, unmarked_passed, turned_down, passed,
}

module _ {D : Disruptor} {H : Handlers} where
  -- The items are those whose server sequences come next, the ring holds the ones that passed, and
  -- the numbers behind them in the window of the rejections are not marked.
  pub record Backlog (l : Lane D H) (items : List Item) : Type 0 where
    pub starts : 0 < l.next_server_sequence
    pub small : l.next_server_sequence + length items < 2 ^ 62
    pub ring_small : l.next_ring_sequence + length items < 2 ^ 62
    pub window : length items ≤ 4096
    pub ring : Holds D l.ring l.next_ring_sequence (passed_of items)
    pub numbered : Numbered l.rejected l.next_server_sequence items
    pub unmarked :
        (seq : ℕ)
        → l.next_server_sequence + length items ≤ seq
        → seq < l.next_server_sequence + 4096
        → is_marked l.rejected seq ≡ false

  turn_marked :
      (l : Lane D H) (now : ℕ)
      → is_marked l.rejected l.next_server_sequence ≡ true
      → turn l now
        ≡ skipped (record l {
          rejected = put_bit l.rejected l.next_server_sequence false;
          next_server_sequence = (l.next_server_sequence + 1) % 2 ^ 64;
        })
  unfolding turn try_consume_rejected
  turn_marked l now h = rw (turn, try_consume_rejected, h) refl

  -- The number at the front was rejected: it is passed over, and nothing else happens.
  pub turn-turned_down :
      (l : Lane D H) (now : ℕ) (items : List Item)
      → Backlog l (turned_down ∷ items)
      → (l' : Lane D H) × (turn l now ≡ skipped l')
        × Backlog l' items
        × (l'.engine ≡ l.engine)
        × (l'.next_server_sequence ≡ suc l.next_server_sequence)
  turn-turned_down l now items h =
      let clear = is_marked-put_bit_same l.rejected l.next_server_sequence false in
      (
        record l {
          rejected = put_bit l.rejected l.next_server_sequence false;
          next_server_sequence = suc l.next_server_sequence;
        },
        rw (turn_marked l now h.numbered.0)
            (rw (next_word l.next_server_sequence (omega (arith, h.small))) refl),
        record {
          starts = omega arith;
          small = omega (arith, h.small);
          ring_small = omega (arith, h.ring_small);
          window = omega (arith, h.window);
          ring = h.ring;
          numbered =
              Numbered-put_bit l.rejected l.next_server_sequence (suc l.next_server_sequence) false
                items h.starts (omega (arith, h.small)) (omega arith) (omega (arith, h.window))
                h.numbered.1;
          unmarked = λ seq from to.
              unmarked_after l.rejected l.next_server_sequence (suc (length items)) seq h.starts
                (omega (arith, h.small)) h.unmarked (omega arith) (omega arith);
        },
        refl,
        refl,
      )

  take_slot-matching :
      (l : Lane D H) (now : ℕ) (s : OrderSlot) (engine : H.State)
      → s.sequence ≡ l.next_server_sequence
      → deliver H l.engine s now ≡ some engine
      → take_slot l s now
        ≡ delivered s (record l {
          engine = engine;
          ring = release_slot D l.ring l.next_ring_sequence;
          next_ring_sequence = (l.next_ring_sequence + 1) % 2 ^ 64;
          next_server_sequence = (l.next_server_sequence + 1) % 2 ^ 64;
        })
  unfolding take_slot finish_turn
  take_slot-matching l now s engine sequence e =
      let same : (s.sequence == l.next_server_sequence) ≡ true =
        rw sequence (==_self l.next_server_sequence) in
      rw (take_slot, same, e, finish_turn) refl

  pub turn_available :
      (l : Lane D H) (now : ℕ)
      → is_marked l.rejected l.next_server_sequence ≡ false
      → is_available D l.ring l.next_ring_sequence ≡ true
      → turn l now ≡ take_slot l (get D l.ring l.next_ring_sequence) now
  unfolding turn try_consume_rejected
  turn_available l now unmarked available =
      rw (turn, try_consume_rejected, unmarked, available) refl

  -- The front of the ring is the order whose turn it is: the engine takes it.
  pub turn-passed :
      (l : Lane D H) (now : ℕ) (s : OrderSlot) (items : List Item) (engine : H.State)
      → Backlog l (passed s ∷ items)
      → deliver H l.engine s now ≡ some engine
      → (l' : Lane D H) × (turn l now ≡ delivered s l')
        × Backlog l' items
        × (l'.engine ≡ engine)
        × (l'.next_server_sequence ≡ suc l.next_server_sequence)
  turn-passed l now s items engine h e =
      let next = l.next_ring_sequence in
      let (available, at) =
        get-Holds D l.ring next s (passed_of items) h.ring (omega (arith, h.ring_small)) in
      (
        record l {
          engine = engine;
          ring = release_slot D l.ring next;
          next_ring_sequence = suc next;
          next_server_sequence = suc l.next_server_sequence;
        },
        rw
            (
              turn_available l now h.numbered.0 available,
              at,
              take_slot-matching l now s engine h.numbered.1 e,
              next_word l.next_server_sequence (omega (arith, h.small)),
              next_word next (omega (arith, h.ring_small)),
            )
            refl,
        record {
          starts = omega arith;
          small = omega (arith, h.small);
          ring_small = omega (arith, h.ring_small);
          window = omega (arith, h.window);
          ring =
              release_slot-Holds D l.ring next s (passed_of items) h.ring
                (omega (arith, h.ring_small));
          numbered = h.numbered.2;
          unmarked = λ seq from to.
              unmarked_passed l.rejected l.next_server_sequence (suc (length items)) seq h.starts
                (omega (arith, h.small)) h.numbered.0 h.unmarked (omega arith) (omega arith);
        },
        refl,
        refl,
      )
