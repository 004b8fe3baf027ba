-- ===== src/Wal/Writes.antt =====
-- The log on a disk that takes every write, and on one that refuses the next.
use valyrian_stock_exchange.Prelude.{ℕ, ◌≡◌, refl, ◌∙◌, List, [], ◌∷◌, Bool, true, false}
use valyrian_stock_exchange.CoreTypes.{Order}
use valyrian_stock_exchange.Outcome.{Outcome, ok, threw}
use valyrian_stock_exchange.Wal.{
  Wal, WalAction, appended, write_entry, log_input, log_cancel, log_modify,
}

-- The entry is written, and the disk stays as it is.
abbrev pub Writes : Outcome Wal → Type 0
Writes r = (w : Wal) × (r ≡ ok w) × (w.disk ≡ [])

appended-disk : (w : Wal) → (appended w).disk ≡ w.disk
unfolding appended
appended-disk w = refl

write_entry-Writes : (w : Wal) → w.disk ≡ [] → Writes (write_entry w)
unfolding write_entry
write_entry-Writes w h = (appended w, go w.disk h, appended-disk w ∙ h)
  where
    go :
        (d : List Bool)
        → d ≡ []
        → elim d [
          | [] ↦ ok (appended w)
          | true ∷ rest ↦ ok (appended (record w { disk = rest }))
          | false ∷ rest ↦ threw (record w { disk = rest })
        ]
          ≡ ok (appended w)
    go [] h = refl
    go (x ∷ d) h = absurd (cc)

pub log_input-Writes :
    (w : Wal) (a : WalAction) (o : Order) → w.disk ≡ [] → Writes (log_input w a o)
unfolding log_input
log_input-Writes w a o h = write_entry-Writes _ h

pub log_cancel-Writes : (w : Wal) (id : ℕ) → w.disk ≡ [] → Writes (log_cancel w id)
unfolding log_cancel
log_cancel-Writes w id h = write_entry-Writes _ h

pub log_modify-Writes :
    (w : Wal) (id price qty : ℕ) → w.disk ≡ [] → Writes (log_modify w id price qty)
unfolding log_modify
log_modify-Writes w id price qty h = write_entry-Writes _ h

-- The next entry is refused.
abbrev pub Refuses : Outcome Wal → Type 0
Refuses r = (w : Wal) × (r ≡ threw w)

write_entry-Refuses :
    (w : Wal) (later : List Bool) → w.disk ≡ false ∷ later → Refuses (write_entry w)
unfolding write_entry
write_entry-Refuses w later h = (record w { disk = later }, rw (h, write_entry) refl)

pub log_input-Refuses :
    (w : Wal) (a : WalAction) (o : Order) (later : List Bool)
    → w.disk ≡ false ∷ later
    → Refuses (log_input w a o)
unfolding log_input
log_input-Refuses w a o later h = write_entry-Refuses _ later h
