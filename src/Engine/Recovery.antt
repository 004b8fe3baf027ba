-- ===== src/Engine/Recovery.antt =====
-- The constructor of MatchingEngine: WALSystem::recover (MatchingEngine/wal/WAL.cpp) hands each
-- whole entry of the log to the visitor. `clock` gives the wall time at the entry of that number.
use valyrian_stock_exchange.Prelude.{ℕ, suc, Bool, true, false, List, [], ◌∷◌}
use valyrian_stock_exchange.Containers.{Containers}
use valyrian_stock_exchange.Wal.{LogEntry, WalAction, add, cancel, modify, trade, OrderData}
use valyrian_stock_exchange.Engine.State.{Engine, Run, done, escaped, terminated, out_of_fuel}
use valyrian_stock_exchange.Engine.NewOrder.{on_new_order}
use valyrian_stock_exchange.Engine.Change.{on_cancel_order, on_modify_order}

module _ {C : Containers} where
  visit_action : WalAction → OrderData → ℕ → Engine C → ℕ → Run (Engine C) Bool
  visit_action add d fuel e now =
      on_new_order fuel e d.order_id d.user_id d.side d.type d.price d.quantity d.timestamp now
  visit_action cancel d fuel e now = on_cancel_order e d.order_id now
  visit_action modify d fuel e now = on_modify_order fuel e d.order_id d.price d.quantity now
  visit_action trade d fuel e now = done e true

  pub visit : ℕ → Engine C → LogEntry → ℕ → Run (Engine C) Bool
  unfolding visit_action
  visit fuel e entry now = visit_action entry.action entry.fields fuel e now

  count_entry : Engine C → Engine C
  count_entry e = record e { wal = record wal { last_seq = suc wal.last_seq } }
    where
      open e use {wal}

  read_entry : Engine C → LogEntry → Engine C
  read_entry e entry = record e { wal = record wal { reusable_entry = entry } }
    where
      open e use {wal}

  -- An exception of the visitor leaves the constructor.
  pub replay : ℕ → (ℕ → ℕ) → Engine C → List LogEntry → Run (Engine C) Bool
  unfolding count_entry read_entry
  replay fuel clock e [] = done e true
  replay fuel clock e (entry ∷ entries) =
      elim (visit fuel (read_entry e entry) entry (clock e.wal.last_seq)) [
        | done e1 _ ↦ replay fuel clock (count_entry e1) entries
        | escaped e1 ↦ escaped e1
        | terminated ↦ terminated
        | out_of_fuel ↦ out_of_fuel
      ]

  finish_recovery : Run (Engine C) Bool → Run (Engine C) Bool
  finish_recovery (done e r) = done (record e { is_recovering = false }) r
  finish_recovery (escaped e) = escaped e
  finish_recovery terminated = terminated
  finish_recovery out_of_fuel = out_of_fuel

  -- `recover` starts from sequence number zero.
  pub recover : ℕ → (ℕ → ℕ) → Engine C → Run (Engine C) Bool
  unfolding finish_recovery
  recover fuel clock e = finish_recovery (
      replay fuel clock (record e { is_recovering = true; wal = record wal { last_seq = 0 } })
        wal.entries)
    where
      open e use {wal}
