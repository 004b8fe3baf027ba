-- ===== src/Db/DbWriter.antt =====
-- db/DBWriter.h, db/DBWriter.cpp and db/BatchBuffer.h: the events of the engines are collected into
-- batches, which go to the database and then to the balances. A queue is the list of what is taken
-- from it; `elapsed_ms` is the time since the last flush that the clock would show. What the database
-- makes of a batch is ignored by the source.
pub mod Batches
pub mod Stopped
use valyrian_stock_exchange.Prelude.{
  ℕ, ◌+◌, ◌*◌, ◌%◌, ◌^◌, Bool, true, false, List, [], ◌∷◌, ◌++◌, length, ◌==◌, ltb, leb, not, ◌&&◌,
  if◌then◌else◌,
}
use valyrian_stock_exchange.Prelude.Int.{ℤ, pos, negsuc}
use valyrian_stock_exchange.CoreTypes.{Side, buy, sell}
use valyrian_stock_exchange.Events.{
  DbEvent, order_accepted, order_filled, order_cancelled, order_modified,
}
use valyrian_stock_exchange.Ems.Types.{int64, int32}
use valyrian_stock_exchange.Ems.BalanceCache.{
  BalanceCache, settle_trade, unblock_funds, unblock_holdings, try_block_funds, try_block_holdings,
}

abbrev pub flush_size : ℕ
flush_size = 500

-- `written` is what went to the backend, the newest batch first.
pub record DbWriter : Type 0 where
  pub balance_cache : BalanceCache
  pub batch : List DbEvent
  pub written : List (List DbEvent)

-- `static_cast<uint32_t>`
abbrev user32 : ℕ → ℕ
user32 user_id = user_id % 2 ^ 32

-- A quantity of the order is no longer blocked.
unblock : BalanceCache → DbEvent → ℕ → BalanceCache
unblock c e qty = elim e.side [
  | buy ↦ unblock_funds c (user32 e.user_id) (int64 (pos (e.price * qty)))
  | sell ↦ unblock_holdings c (user32 e.user_id) e.symbol_id (int32 (pos qty))
]

-- A further quantity of the order is blocked, if there is as much.
block : BalanceCache → DbEvent → ℤ → BalanceCache
block c e (negsuc n) = unblock c e (n + 1)
block c e (pos qty) = if qty == 0 then c else elim e.side [
  | buy ↦ (try_block_funds c (user32 e.user_id) (int64 (pos (e.price * qty)))).1
  | sell ↦ (try_block_holdings c (user32 e.user_id) e.symbol_id (int32 (pos qty))).1
]

-- The body of the loop of flush.
unfoldable pub apply_event : BalanceCache → DbEvent → BalanceCache
unfolding unblock block
apply_event c e = elim e.type [
  | order_filled ↦ elim e.side [
    | buy ↦
        settle_trade c (user32 e.user_id) (user32 e.peer_user_id) e.symbol_id (pos e.fill_price)
          e.fill_qty
    | sell ↦ c
  ]
  | order_cancelled ↦ if ltb 0 e.remaining then unblock c e e.remaining else c
  | order_modified ↦ block c e e.fill_qty
  | order_accepted ↦ c
]

unfoldable pub apply_all : BalanceCache → List DbEvent → BalanceCache
unfolding apply_event
apply_all c [] = c
apply_all c (e ∷ events) = apply_all (apply_event c e) events

abbrev pub is_empty : List DbEvent → Bool
is_empty [] = true
is_empty (e ∷ events) = false

unfoldable pub flush : DbWriter → DbWriter
unfolding apply_all
flush w = if is_empty w.batch then w else record {
  balance_cache = apply_all w.balance_cache w.batch;
  batch = [];
  written = w.batch ∷ w.written;
}

unfoldable pub should_flush : DbWriter → Bool
should_flush w = leb flush_size (length w.batch)

-- One event is pushed into the batch.
unfoldable pub take_event : DbWriter → DbEvent → DbWriter
unfolding flush should_flush
take_event w e =
    let pushed = record w { batch = w.batch ++ (e ∷ []) } in
    if should_flush pushed then flush pushed else pushed

-- The queue of a symbol is emptied.
unfoldable pub take_events : DbWriter → List DbEvent → DbWriter
unfolding take_event
take_events w [] = w
take_events w (e ∷ events) = take_events (take_event w e) events

unfoldable pub take_queues : DbWriter → List (List DbEvent) → DbWriter
unfolding take_events
take_queues w [] = w
take_queues w (queue ∷ queues) = take_queues (take_events w queue) queues

-- One iteration of `run`.
unfoldable pub poll : DbWriter → List (List DbEvent) → ℕ → DbWriter
unfolding take_queues flush
poll w queues elapsed_ms =
    let taken = take_queues w queues in
    if not (is_empty taken.batch) && leb 5 elapsed_ms then flush taken else taken

-- The iterations of `run`, each with what the queues hold and the time, and the last flush.
unfoldable pub run : DbWriter → List (List (List DbEvent) × ℕ) → DbWriter
unfolding poll flush
run w [] = flush w
run w ((queues, elapsed_ms) ∷ rounds) = run (poll w queues elapsed_ms) rounds
