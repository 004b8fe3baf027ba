-- ===== src/Db/DbWriter/Stopped.antt =====
-- What a writer has done by the time it stops.
use valyrian_stock_exchange.Prelude.{
  ℕ, ◌≤◌, ◌<◌, ◌≡◌, refl, sym, ◌∙◌, true, List, [], ◌∷◌, ◌++◌, All, length, length-append, leb, not,
  ◌&&◌, arith, Bool-cases, inl, inr,
}
use mathlib.Core.List.{append-nil}
use valyrian_stock_exchange.Events.{DbEvent}
use valyrian_stock_exchange.Db.DbWriter.{
  DbWriter, flush_size, apply_all, is_empty, flush, should_flush, take_event, take_events,
  take_queues, poll, run,
}
use valyrian_stock_exchange.Db.DbWriter.Batches.{written_events, all_rounds, run-Taken}

-- Nothing is left in the batch; all events went to the database and to the balances.
pub record Stopped (w w' : DbWriter) (events : List DbEvent) : Type 0 where
  pub nothing_left : w'.batch ≡ []
  pub logged : written_events w'.written ≡ (written_events w.written ++ w.batch) ++ events
  pub settled : w'.balance_cache ≡ apply_all (apply_all w.balance_cache w.batch) events

-- Each batch has at most so many events.
abbrev pub Small : DbWriter → Type 0
Small w = All (λ batch. length batch ≤ flush_size) w.written × (length w.batch < flush_size)

empty_batch : (batch : List DbEvent) → is_empty batch ≡ true → batch ≡ []
empty_batch [] h = refl
empty_batch (e ∷ batch) h = absurd (cc)

flush-nothing_left : (w : DbWriter) → (flush w).batch ≡ []
unfolding flush
flush-nothing_left w = elim (Bool-cases (is_empty w.batch)) [
  | inl none ↦ rw (flush, none) (empty_batch w.batch none)
  | inr some ↦ rw (flush, some) refl
]

run-nothing_left :
    (w : DbWriter) (rounds : List (List (List DbEvent) × ℕ)) → (run w rounds).batch ≡ []
unfolding run
run-nothing_left w [] = flush-nothing_left w
run-nothing_left w ((queues, elapsed_ms) ∷ rounds) =
    run-nothing_left (poll w queues elapsed_ms) rounds

-- Whatever the rounds of the loop find in the queues and whenever they flush, once the writer stops
-- its batch is empty; the batches that went to the database, put together, are the events in the
-- sequence in which they were taken, after those that were there before; and the balances are those
-- that the events make one by one in this sequence.
pub run-Stopped :
    (w : DbWriter) (rounds : List (List (List DbEvent) × ℕ))
    → Stopped w (run w rounds) (all_rounds rounds)
unfolding apply_all
run-Stopped w rounds =
    let left = run-nothing_left w rounds in
    let h = run-Taken w rounds in
    record {
      nothing_left = left;
      logged = sym (append-nil _) ∙ (rw left at h.logged);
      settled = rw left at h.settled;
    }

flush-Small :
    (w : DbWriter)
    → All (λ batch. length batch ≤ flush_size) w.written
    → length w.batch ≤ flush_size
    → Small (flush w)
unfolding flush
flush-Small w before now = elim (Bool-cases (is_empty w.batch)) [
  | inl none ↦ rw (flush, none) (before, rw (empty_batch w.batch none) (omega arith))
  | inr some ↦ rw (flush, some) ((now, before), omega arith)
]

take_event-Small : (w : DbWriter) (e : DbEvent) → Small w → Small (take_event w e)
unfolding take_event should_flush
take_event-Small w e h =
    let pushed = record w { batch = w.batch ++ (e ∷ []) } in
    let len = length-append w.batch (e ∷ []) in
    elim (Bool-cases (should_flush pushed)) [
      | inl full ↦ rw (take_event, full) (flush-Small pushed h.0 (omega (arith, len, h.1)))
      | inr room ↦ rw (take_event, room) (h.0, ground (arith, room))
    ]

take_events-Small : (w : DbWriter) (events : List DbEvent) → Small w → Small (take_events w events)
unfolding take_events
take_events-Small w [] h = h
take_events-Small w (e ∷ events) h =
    take_events-Small (take_event w e) events (take_event-Small w e h)

take_queues-Small :
    (w : DbWriter) (queues : List (List DbEvent)) → Small w → Small (take_queues w queues)
unfolding take_queues
take_queues-Small w [] h = h
take_queues-Small w (queue ∷ queues) h =
    take_queues-Small (take_events w queue) queues (take_events-Small w queue h)

poll-Small :
    (w : DbWriter) (queues : List (List DbEvent)) (elapsed_ms : ℕ)
    → Small w
    → Small (poll w queues elapsed_ms)
unfolding poll
poll-Small w queues elapsed_ms h =
    let taken = take_queues w queues in
    let small = take_queues-Small w queues h in
    elim (Bool-cases (not (is_empty taken.batch) && leb 5 elapsed_ms)) [
      | inl due ↦ rw (poll, due) (flush-Small taken small.0 (omega (arith, small.1)))
      | inr early ↦ rw (poll, early) small
    ]

-- From a writer with fewer than 500 events in its batch, no batch that is ever written has more than
-- 500 events, if none had before, and the batch always has fewer.
pub run-Small :
    (w : DbWriter) (rounds : List (List (List DbEvent) × ℕ)) → Small w → Small (run w rounds)
unfolding run
run-Small w [] h = flush-Small w h.0 (omega (arith, h.1))
run-Small w ((queues, elapsed_ms) ∷ rounds) h =
    run-Small (poll w queues elapsed_ms) rounds (poll-Small w queues elapsed_ms h)
