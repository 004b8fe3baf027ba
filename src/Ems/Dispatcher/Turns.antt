-- ===== src/Ems/Dispatcher/Turns.antt =====
-- What an iteration of the dispatcher keeps and changes.
use valyrian_stock_exchange.Prelude.{
  ℕ, ◌+◌, ◌%◌, ◌^◌, ◌≡◌, refl, true, Option, none, some, ◌==◌, ==_iff, Bool-cases, inl, inr,
}
use valyrian_stock_exchange.Ems.Disruptor.{Disruptor}
use valyrian_stock_exchange.Ems.RejectionBitset.{try_consume_rejected}
use valyrian_stock_exchange.Ems.MpscRingBuffer.{is_available, release_slot, get}
use valyrian_stock_exchange.Ems.Dispatcher.{
  Handlers, Lane, Turn, skipped, delivered, paused, ended, deliver, finish_turn, take_slot, turn,
}

module _ {D : Disruptor} {H : Handlers} where
  -- What an iteration keeps and changes, by what it does.
  unfoldable pub TurnOk : Lane D H → Turn (Lane D H) → Type 0
  TurnOk l (skipped l') =
      (l'.engine ≡ l.engine)
      × (l'.ring ≡ l.ring)
      × (l'.next_ring_sequence ≡ l.next_ring_sequence)
      × (l'.next_server_sequence ≡ (l.next_server_sequence + 1) % 2 ^ 64)
  TurnOk l (delivered s l') =
      (is_available D l.ring l.next_ring_sequence ≡ true)
      × (get D l.ring l.next_ring_sequence ≡ s)
      × ((now : ℕ) × (deliver H l.engine s now ≡ some l'.engine))
      × (s.sequence ≡ l.next_server_sequence)
      × (l'.ring ≡ release_slot D l.ring l.next_ring_sequence)
      × (l'.next_ring_sequence ≡ (l.next_ring_sequence + 1) % 2 ^ 64)
      × (l'.next_server_sequence ≡ (l.next_server_sequence + 1) % 2 ^ 64)
  TurnOk l paused = Unit
  TurnOk l ended = Unit

  finish_turn-TurnOk :
      (l : Lane D H) (now : ℕ) (engine : Option H.State)
      → deliver H l.engine (get D l.ring l.next_ring_sequence) now ≡ engine
      → is_available D l.ring l.next_ring_sequence ≡ true
      → (get D l.ring l.next_ring_sequence).sequence ≡ l.next_server_sequence
      → TurnOk l (finish_turn l (get D l.ring l.next_ring_sequence) engine)
  unfolding TurnOk finish_turn
  finish_turn-TurnOk l now none e a s = tt
  finish_turn-TurnOk l now (some engine) e a s = (a, refl, (now, e), s, refl, refl, refl)

  take_slot-TurnOk :
      (l : Lane D H) (now : ℕ)
      → is_available D l.ring l.next_ring_sequence ≡ true
      → TurnOk l (take_slot l (get D l.ring l.next_ring_sequence) now)
  unfolding take_slot TurnOk
  take_slot-TurnOk l now a =
      let slot = get D l.ring l.next_ring_sequence in
      elim (Bool-cases (slot.sequence == l.next_server_sequence)) [
        | inl same ↦
            rw (take_slot, same)
              (finish_turn-TurnOk l now (deliver H l.engine slot now) refl a ((==_iff _ _).0 same))
        | inr other ↦ rw (take_slot, other, TurnOk) tt
      ]

  pub turn-TurnOk : (l : Lane D H) (now : ℕ) → TurnOk l (turn l now)
  unfolding turn TurnOk
  turn-TurnOk l now = elim (Bool-cases (try_consume_rejected l.rejected l.next_server_sequence).0) [
    | inl hit ↦ rw (turn, hit, TurnOk) (refl, refl, refl, refl)
    | inr miss ↦ elim (Bool-cases (is_available D l.ring l.next_ring_sequence)) [
      | inl there ↦ rw (turn, miss, there) (take_slot-TurnOk l now there)
      | inr nothing ↦ rw (turn, miss, nothing, TurnOk) tt
    ]
  ]
