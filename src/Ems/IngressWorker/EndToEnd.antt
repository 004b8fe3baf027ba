-- ===== src/Ems/IngressWorker/EndToEnd.antt =====
-- From a worker's queue to the engine of a symbol.
use valyrian_stock_exchange.Prelude.{ℕ, ◌+◌, ◌≡◌, some, List, [], ◌++◌, length, arith}
use valyrian_stock_exchange.Ems.Types.{RawOrder}
use valyrian_stock_exchange.Ems.Disruptor.{Disruptor}
use valyrian_stock_exchange.Ems.Spsc.{Spsc}
use valyrian_stock_exchange.Ems.Dispatcher.{Handlers, Lane, run}
use valyrian_stock_exchange.Ems.Dispatcher.Backlog.{Backlog}
use valyrian_stock_exchange.Ems.Dispatcher.Drain.{deliver_all, run-Drained}
use valyrian_stock_exchange.Ems.IngressWorker.{Ingress}
use valyrian_stock_exchange.Ems.IngressWorker.Judge.{
  judge, length-judge, Consecutive, ingest_all-Ready,
}
use valyrian_stock_exchange.Ems.IngressWorker.Ready.{Ready}
use valyrian_stock_exchange.Ems.IngressWorker.FromQueue.{
  orders_of, times_of, work_all, work_all-ingest_all,
}

module _ {D : Disruptor} {H : Handlers} (Q : Spsc RawOrder) where
  -- What is left once the orders went from the queue through the worker and the dispatcher.
  pub record Served (w : Ingress D H) (q : Q.Queue) (idx : ℕ) (orders : List (RawOrder × ℕ))
      (behind : List RawOrder) (nows : List ℕ) (engine : H.State) : Type 0 where
    pub worker : Ingress D H
    pub queue : Q.Queue
    pub lane : Lane D H
    pub worker_is : work_all Q w q (times_of orders) ≡ some (worker, queue)
    pub queue_is : Q.contents queue ≡ behind
    pub lane_is : run (worker.lanes idx) nows ≡ some lane
    pub engine_is : lane.engine ≡ engine
    pub nothing_left : Backlog lane []
    pub counted : lane.next_server_sequence ≡ (w.lanes idx).next_server_sequence + length orders

  -- Let the lane of a symbol have no backlog, and the queue of a worker hold, in front of others,
  -- orders for that symbol whose server sequences are consecutive from the lane's next one on, no
  -- more of them than the ring and the window of rejections have places. As many iterations of the
  -- worker as there are such orders deal with one each, and take exactly them from the queue; and if
  -- the engine, given exactly the orders that the checks accept, in their sequence, does not end the
  -- process, then as many iterations of the dispatcher leave the engine in the state in which these
  -- calls leave it, with no backlog and the next server sequence behind these orders.
  pub work_all-Served :
      (w : Ingress D H) (q : Q.Queue) (symbol idx : ℕ) (orders : List (RawOrder × ℕ))
      (behind : List RawOrder) (nows : List ℕ) (engine : H.State)
      → Q.contents q ≡ orders_of orders ++ behind
      → Ready w symbol idx [] (length orders)
      → Consecutive symbol ((w.lanes idx).next_server_sequence + 0) orders
      → length nows ≡ length orders
      → deliver_all H (w.lanes idx).engine (judge w.pipeline orders) nows ≡ some engine
      → Served w q idx orders behind nows engine
  work_all-Served w q symbol idx orders behind nows engine holds r c count e =
      let (w', went, r', same, moved) = ingest_all-Ready w symbol idx [] orders r c in
      let (q', worked, left) = work_all-ingest_all Q w w' q orders behind holds went in
      let all = length-judge w.pipeline orders in
      let (l, ran, d) =
        run-Drained (w'.lanes idx) (judge w.pipeline orders) nows engine r'.backlog
          (omega (arith, all, count)) (rw same e) in
      record {
        worker = w';
        queue = q';
        lane = l;
        worker_is = worked;
        queue_is = left;
        lane_is = ran;
        engine_is = d.engine_is;
        nothing_left = d.done;
        counted = omega (arith, d.counted, moved, all);
      }
