-- ===== src/PriceLevel.antt =====
-- MatchingEngine/include/PriceLevel.h: the orders at one price, oldest first. The intrusive list
-- from `head` along `next` is the list `orders`; an order is removed by its address.
pub mod Laws
use valyrian_stock_exchange.Prelude.{
  ℕ, ◌+◌, ◌-◌, Bool, true, false, Option, none, some, List, [], ◌∷◌, ◌++◌, ◌==◌, if◌then◌else◌,
}
use valyrian_stock_exchange.CoreTypes.{Order}

pub record PriceLevel : Type 0 where
  pub slot : ℕ
  pub price : ℕ
  pub aggregated_qty : ℕ
  pub orders : List Order

-- A level fresh from the pool, as `reset` leaves it.
unfoldable pub fresh : ℕ → PriceLevel
fresh slot = record { slot = slot; price = 0; aggregated_qty = 0; orders = [] }

-- `head`
abbrev pub front : List Order → Option Order
front [] = none
front (o ∷ os) = some o

-- The order that stands at an address.
abbrev pub find_slot : ℕ → List Order → Option Order
find_slot s [] = none
find_slot s (o ∷ os) = if o.slot == s then some o else find_slot s os

abbrev pub remove_slot : ℕ → List Order → List Order
remove_slot s [] = []
remove_slot s (o ∷ os) = if o.slot == s then os else o ∷ remove_slot s os

-- A write through an `Order *`.
abbrev pub write_slot : Order → List Order → List Order
write_slot o' [] = []
write_slot o' (o ∷ os) = if o.slot == o'.slot then o' ∷ os else o ∷ write_slot o' os

unfoldable pub fifo_push : PriceLevel → Order → PriceLevel
fifo_push level order = record level {
  orders = level.orders ++ (order ∷ []);
  aggregated_qty = level.aggregated_qty + order.remaining;
}

unfoldable pub fifo_remove : PriceLevel → Order → PriceLevel
fifo_remove level order = record level {
  orders = remove_slot order.slot level.orders;
  aggregated_qty = level.aggregated_qty - order.remaining;
}

unfoldable pub empty : PriceLevel → Bool
empty level = elim level.orders [ [] ↦ true | _ ∷ _ ↦ false ]
