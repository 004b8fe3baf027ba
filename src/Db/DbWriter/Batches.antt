-- ===== src/Db/DbWriter/Batches.antt =====
-- Batches against events one by one.
use valyrian_stock_exchange.Prelude.{
  ℕ, ◌≡◌, refl, sym, ◌∙◌, List, [], ◌∷◌, ◌++◌, leb, not, ◌&&◌, Bool-cases, inl, inr,
}
use mathlib.Core.List.{append_assoc, append-nil}
use valyrian_stock_exchange.Events.{DbEvent}
use valyrian_stock_exchange.Ems.BalanceCache.{BalanceCache}
use valyrian_stock_exchange.Db.DbWriter.{
  DbWriter, apply_event, apply_all, is_empty, flush, should_flush, take_event, take_events,
  take_queues, poll, run,
}

-- All that was written, oldest first.
abbrev pub written_events : List (List DbEvent) → List DbEvent
written_events [] = []
written_events (batch ∷ batches) = written_events batches ++ batch

abbrev pub joined : List (List DbEvent) → List DbEvent
joined [] = []
joined (queue ∷ queues) = queue ++ joined queues

abbrev pub all_rounds : List (List (List DbEvent) × ℕ) → List DbEvent
all_rounds [] = []
all_rounds ((queues, elapsed_ms) ∷ rounds) = joined queues ++ all_rounds rounds

-- From `w` the writer has taken these events: they were written or are in the batch, in their
-- sequence, and the balances with the batch applied are those with the events applied.
pub record Taken (w w' : DbWriter) (events : List DbEvent) : Type 0 where
  pub logged :
      written_events w'.written ++ w'.batch ≡ (written_events w.written ++ w.batch) ++ events
  pub settled :
      apply_all w'.balance_cache w'.batch ≡ apply_all (apply_all w.balance_cache w.batch) events

apply_all-append :
    (c : BalanceCache) (xs ys : List DbEvent)
    → apply_all c (xs ++ ys) ≡ apply_all (apply_all c xs) ys
unfolding apply_all
apply_all-append c [] ys = refl
apply_all-append c (e ∷ xs) ys = apply_all-append (apply_event c e) xs ys

Taken-none : (w : DbWriter) → Taken w w []
unfolding apply_all
Taken-none w = record { logged = sym (append-nil _); settled = refl }

Taken-append :
    (w w1 w2 : DbWriter) (xs ys : List DbEvent)
    → Taken w w1 xs
    → Taken w1 w2 ys
    → Taken w w2 (xs ++ ys)
Taken-append w w1 w2 xs ys h g = record {
  logged = g.logged ∙ (rw h.logged (append_assoc _ xs ys));
  settled = g.settled ∙ (rw h.settled (sym (apply_all-append _ xs ys)));
}

flush-Taken : (w : DbWriter) → Taken w (flush w) []
unfolding flush apply_all
flush-Taken w = elim (Bool-cases (is_empty w.batch)) [
  | inl none ↦ rw (flush, none) (Taken-none w)
  | inr some ↦ rw (flush, some) (record { logged = refl; settled = refl })
]

push-Taken :
    (w : DbWriter) (e : DbEvent) → Taken w (record w { batch = w.batch ++ (e ∷ []) }) (e ∷ [])
push-Taken w e = record {
  logged = sym (append_assoc _ w.batch (e ∷ []));
  settled = apply_all-append w.balance_cache w.batch (e ∷ []);
}

take_event-Taken : (w : DbWriter) (e : DbEvent) → Taken w (take_event w e) (e ∷ [])
unfolding take_event
take_event-Taken w e =
    let pushed = record w { batch = w.batch ++ (e ∷ []) } in
    elim (Bool-cases (should_flush pushed)) [
      | inl full ↦
          rw (take_event, full)
            (Taken-append w pushed (flush pushed) (e ∷ []) [] (push-Taken w e) (flush-Taken pushed))
      | inr room ↦ rw (take_event, room) (push-Taken w e)
    ]

take_events-Taken : (w : DbWriter) (events : List DbEvent) → Taken w (take_events w events) events
unfolding take_events
take_events-Taken w [] = Taken-none w
take_events-Taken w (e ∷ events) =
    Taken-append w (take_event w e) (take_events (take_event w e) events) (e ∷ []) events
      (take_event-Taken w e) (take_events-Taken (take_event w e) events)

take_queues-Taken :
    (w : DbWriter) (queues : List (List DbEvent)) → Taken w (take_queues w queues) (joined queues)
unfolding take_queues
take_queues-Taken w [] = Taken-none w
take_queues-Taken w (queue ∷ queues) =
    Taken-append w (take_events w queue) (take_queues (take_events w queue) queues) queue
      (joined queues) (take_events-Taken w queue) (take_queues-Taken (take_events w queue) queues)

Taken-flush :
    (w w' : DbWriter) (events : List DbEvent) → Taken w w' events → Taken w (flush w') events
Taken-flush w w' events h =
    rw (append-nil events) at (Taken-append w w' (flush w') events [] h (flush-Taken w'))

poll-Taken :
    (w : DbWriter) (queues : List (List DbEvent)) (elapsed_ms : ℕ)
    → Taken w (poll w queues elapsed_ms) (joined queues)
unfolding poll
poll-Taken w queues elapsed_ms =
    let taken = take_queues w queues in
    elim (Bool-cases (not (is_empty taken.batch) && leb 5 elapsed_ms)) [
      | inl due ↦ rw (poll, due) (Taken-flush w taken (joined queues) (take_queues-Taken w queues))
      | inr early ↦ rw (poll, early) (take_queues-Taken w queues)
    ]

pub run-Taken :
    (w : DbWriter) (rounds : List (List (List DbEvent) × ℕ))
    → Taken w (run w rounds) (all_rounds rounds)
unfolding run
run-Taken w [] = flush-Taken w
run-Taken w ((queues, elapsed_ms) ∷ rounds) =
    Taken-append w (poll w queues elapsed_ms) (run (poll w queues elapsed_ms) rounds)
      (joined queues) (all_rounds rounds) (poll-Taken w queues elapsed_ms)
      (run-Taken (poll w queues elapsed_ms) rounds)
