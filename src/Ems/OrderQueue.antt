-- ===== src/Ems/OrderQueue.antt =====
-- ems/queues/SPSCQueueWrapper.h: the orders on their way from the server to an ingress worker.
use valyrian_stock_exchange.Prelude.{Bool, true, false, Option, none, some}
use valyrian_stock_exchange.Ems.Types.{RawOrder}
use valyrian_stock_exchange.Ems.Spsc.{Spsc}

module _ (Q : Spsc RawOrder) where
  unfoldable pub enqueue : Q.Queue → RawOrder → Bool × Q.Queue
  enqueue q order = elim (Q.try_push q order) [ none ↦ (false, q) | some q' ↦ (true, q') ]

  -- Leaves the order in the queue.
  unfoldable pub pop : Q.Queue → Option RawOrder
  pop q = Q.front q

  unfoldable pub release_slot : Q.Queue → Q.Queue
  release_slot q = Q.pop q

  pub empty : Q.Queue → Bool
  empty q = Q.empty q
