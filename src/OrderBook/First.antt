-- ===== src/OrderBook/First.antt =====
-- removeOrder of the first order of a level, as `match` calls it.
use valyrian_stock_exchange.Prelude.{ℕ, ◌≡◌, ◌∙◌, ap, some, List, ◌∷◌, arith}
use valyrian_stock_exchange.CoreTypes.{Order}
use valyrian_stock_exchange.Outcome.{ok}
use valyrian_stock_exchange.PriceLevel.{find_slot}
use valyrian_stock_exchange.Containers.{Containers}
use valyrian_stock_exchange.OrderBook.{OrderBook, remove_order}
use valyrian_stock_exchange.OrderBook.Valid.{Valid}
use valyrian_stock_exchange.OrderBook.Settles.{Shrinks, Settles-Shrinks}
use valyrian_stock_exchange.OrderBook.Remove.{remove_order-Settles, length-fifo_remove}
use valyrian_stock_exchange.OrderBook.Fill.{Stands}

find_slot_first : (o : Order) (os : List Order) → find_slot o.slot (o ∷ os) ≡ some o
find_slot_first o os = ground arith

module _ (C : Containers) where
  pub remove_first-Shrinks :
      {held : ℕ} {b : OrderBook C} (o : Order)
      → Valid C held b
      → Stands C b o
      → (b' : OrderBook C) × (remove_order C b o ≡ ok b') × Valid C held b' × Shrinks C b o.side b'
  remove_first-Shrinks o v at =
      let found : find_slot o.slot at.level.orders ≡ some o =
        ap (find_slot o.slot) at.first ∙ find_slot_first o at.rest in
      let (b', e, v', settles, _) = remove_order-Settles C o at.level v at.found found in
      (b', e, v', Settles-Shrinks C at.level at.found (length-fifo_remove at.level o found) settles)
