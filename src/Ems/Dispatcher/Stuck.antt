-- ===== src/Ems/Dispatcher/Stuck.antt =====
-- A dispatcher in front of an order whose turn it is not.
use valyrian_stock_exchange.Prelude.{
  ℕ, suc, ◌+◌, ◌%◌, ◌^◌, ◌<◌, ◌≡◌, refl, false, none, some, List, [], ◌∷◌, ◌++◌, All, length,
  length-append, ◌==◌, arith, Option-cases, inl, inr,
}
use valyrian_stock_exchange.Ems.Types.{OrderSlot}
use valyrian_stock_exchange.Ems.Disruptor.{Disruptor}
use valyrian_stock_exchange.Ems.RejectionBitset.{zero_based, mark_rejected}
use valyrian_stock_exchange.Ems.RejectionBitset.Window.{place-digits}
use valyrian_stock_exchange.Ems.MpscRingBuffer.Holds.{Holds, From-claimed}
use valyrian_stock_exchange.Ems.MpscRingBuffer.Moves.{
  put_order, put_order-Holds, put_order-room, get-Holds,
}
use valyrian_stock_exchange.Ems.Dispatcher.{Handlers, Lane, paused, take_slot, turn}
use valyrian_stock_exchange.Ems.Dispatcher.Backlog.{turn_available}
use valyrian_stock_exchange.Ems.Dispatcher.Items.{is_marked}

-- What ingress workers do to a lane: a number is marked as rejected, or an order is put into the
-- ring.
pub data Arrival : Type 0 where
  marks : ℕ → Arrival
  puts : OrderSlot → Arrival

-- Not a rejection whose bit is that of the number `next`.
abbrev pub Elsewhere : ℕ → Arrival → Type 0
Elsewhere next (marks seq) = (zero_based next % 4096 == zero_based seq % 4096) ≡ false
Elsewhere next (puts s) = Unit

module _ {D : Disruptor} {H : Handlers} where
  -- Without room in the ring the worker waits, and the lane stays as it is.
  unfoldable pub arrive : Lane D H → Arrival → Lane D H
  arrive l (marks seq) = record l { rejected = mark_rejected l.rejected seq }
  arrive l (puts s) = elim (put_order D l.ring s) [
    | none ↦ l
    | some ring ↦ record l { ring = ring }
  ]

  unfoldable pub arrive_all : Lane D H → List Arrival → Lane D H
  unfolding arrive
  arrive_all l [] = l
  arrive_all l (a ∷ arrivals) = arrive_all (arrive l a) arrivals

  -- The order at the front of the ring has another number than the next one, which is not marked.
  -- There may be so many more arrivals.
  pub record Stuck (l : Lane D H) (more : ℕ) : Type 0 where
    pub front : OrderSlot
    pub behind : List OrderSlot
    pub ring : Holds D l.ring l.next_ring_sequence (front ∷ behind)
    pub other : (front.sequence == l.next_server_sequence) ≡ false
    pub unmarked : is_marked l.rejected l.next_server_sequence ≡ false
    pub small : l.next_ring_sequence + length behind + more + 1 < 2 ^ 62

  turn-Stuck : (l : Lane D H) (now : ℕ) → Stuck l 0 → turn l now ≡ paused
  unfolding take_slot
  turn-Stuck l now s =
      let (available, at) =
        get-Holds D l.ring l.next_ring_sequence s.front s.behind s.ring (omega (arith, s.small)) in
      rw (turn_available l now s.unmarked available, at, take_slot, s.other) refl

  put-Stuck :
      (l : Lane D H) (ring : D.Buffer) (o : OrderSlot) (more : ℕ)
      → Stuck l (suc more)
      → put_order D l.ring o ≡ some ring
      → Stuck (record l { ring = ring }) more
  put-Stuck l ring o more s put =
      let room = put_order-room D l.ring ring o put in
      let len = From-claimed D l.ring (D.released l.ring) (s.front ∷ s.behind) s.ring.from in
      let (b, e, holds, size) =
        put_order-Holds D l.ring l.next_ring_sequence (s.front ∷ s.behind) o s.ring (omega arith)
          (omega (arith, s.small)) in
      let same : b ≡ ring = cc in
      record {
        front = s.front;
        behind = s.behind ++ (o ∷ []);
        ring = rw same at holds;
        other = s.other;
        unmarked = s.unmarked;
        small = omega (arith, s.small, length-append s.behind (o ∷ []));
      }

  arrive-Stuck :
      (l : Lane D H) (a : Arrival) (more : ℕ)
      → Stuck l (suc more)
      → Elsewhere l.next_server_sequence a
      → Stuck (arrive l a) more × ((arrive l a).next_server_sequence ≡ l.next_server_sequence)
  unfolding arrive mark_rejected
  arrive-Stuck l (marks seq) more s away = (
    record {
      front = s.front;
      behind = s.behind;
      ring = s.ring;
      other = s.other;
      unmarked =
          rw (place-digits (zero_based l.next_server_sequence) (zero_based seq), away) s.unmarked;
      small = omega (arith, s.small);
    },
    refl,
  )
  arrive-Stuck l (puts o) more s away = elim (Option-cases (put_order D l.ring o)) [
    | inl full ↦
        rw (arrive, full)
          (
            record {
              front = s.front;
              behind = s.behind;
              ring = s.ring;
              other = s.other;
              unmarked = s.unmarked;
              small = omega (arith, s.small);
            },
            refl,
          )
    | inr (ring, put) ↦ rw (arrive, put) (put-Stuck l ring o more s put, refl)
  ]

  -- Let the next server sequence not be marked as rejected, and the order at the front of the ring
  -- have another one. Then whatever the workers put into the ring and whatever they reject, unless
  -- the bit of a rejected number is that of the number waited for, the dispatcher does nothing.
  pub arrive_all-Stuck :
      (l : Lane D H) (arrivals : List Arrival) (now : ℕ)
      → Stuck l (length arrivals)
      → All (Elsewhere l.next_server_sequence) arrivals
      → turn (arrive_all l arrivals) now ≡ paused
  unfolding arrive_all
  arrive_all-Stuck l [] now s away = turn-Stuck l now s
  arrive_all-Stuck l (a ∷ arrivals) now s away =
      let (s', same) = arrive-Stuck l a (length arrivals) s away.0 in
      arrive_all-Stuck (arrive l a) arrivals now s' (rw same away.1)
