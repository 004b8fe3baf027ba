-- ===== src/Ems/Spsc.antt =====
-- rigtorp::SPSCQueue (third party), a bounded queue with one producer and one consumer, as
-- ems/queues/SPSCQueueWrapper.h and shared/queues/EventSPSC.h call it.
pub mod Sample
use valyrian_stock_exchange.Prelude.{
  ℕ, ◌≤◌, ◌<◌, ◌≡◌, Bool, true, false, Option, none, some, List, [], ◌∷◌, ◌++◌, length,
}

pub record Spsc (A : Type 0) : Type 1 where
  pub Queue : Type 0
  pub new_queue : ℕ → Queue
  -- what the queue holds, oldest first, and how much it can hold
  pub contents : Queue → List A
  pub capacity : Queue → ℕ
  -- `none`: the queue is full
  pub try_push : Queue → A → Option Queue
  pub front : Queue → Option A
  pub pop : Queue → Queue
  pub empty : Queue → Bool
  pub new_queue_lem : (n : ℕ) → (contents (new_queue n) ≡ []) × (capacity (new_queue n) ≡ n)
  pub try_push-room :
      (q : Queue) (a : A)
      → length (contents q) < capacity q
      → (q' : Queue) × (try_push q a ≡ some q')
        × (contents q' ≡ contents q ++ (a ∷ []))
        × (capacity q' ≡ capacity q)
  pub try_push-full : (q : Queue) (a : A) → capacity q ≤ length (contents q) → try_push q a ≡ none
  pub front-empty : (q : Queue) → contents q ≡ [] → front q ≡ none
  pub front-some : (q : Queue) (a : A) (rest : List A) → contents q ≡ a ∷ rest → front q ≡ some a
  pub pop_lem :
      (q : Queue) (a : A) (rest : List A)
      → contents q ≡ a ∷ rest
      → (contents (pop q) ≡ rest) × (capacity (pop q) ≡ capacity q)
  pub empty_lem : (q : Queue) → (empty q ≡ true) → contents q ≡ []
