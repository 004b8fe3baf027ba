-- ===== src/OrderBook/Find.antt =====
-- findOrder, when the index points to an order of a level.
use valyrian_stock_exchange.Prelude.{ℕ, ◌<◌, ◌≡◌, ap, ◌∙◌, some, List, [], ◌∷◌, arith}
use mathlib.Core.Path.{sym, subst₂}
use valyrian_stock_exchange.Prelude.Assoc.{lookup, All-lookup}
use valyrian_stock_exchange.CoreTypes.{Order}
use valyrian_stock_exchange.PriceLevel.{PriceLevel, find_slot}
use valyrian_stock_exchange.PriceLevel.Laws.{OrderOk, All-find}
use valyrian_stock_exchange.Containers.{Containers, OrderPtr, price_limit}
use valyrian_stock_exchange.OrderBook.{OrderBook, find_order, deref}
use valyrian_stock_exchange.OrderBook.Valid.{LevelOk, Valid, side_of, Valid-side}
use valyrian_stock_exchange.OrderBook.Views.{get_price_level-lookup}

find_slot-slot : (s : ℕ) (o : Order) (os : List Order) → find_slot s os ≡ some o → o.slot ≡ s
find_slot-slot s o [] h = absurd (cc)
find_slot-slot s o (x ∷ os) h = ground (arith, find_slot-slot s o os)

module _ (C : Containers) where
  -- The index leads to the order `o`, which stands in `level`.
  pub record PointsTo (b : OrderBook C) (id : ℕ) (o : Order) (level : PriceLevel) : Type 0 where
    pub ptr : OrderPtr
    pub indexed : C.find_id b.order_index id ≡ some ptr
    pub in_range : ptr.price < price_limit
    pub found : lookup ptr.price (side_of C b ptr.side) ≡ some level
    pub standing : find_slot ptr.slot level.orders ≡ some o

  pub find_order-found :
      {b : OrderBook C} {id : ℕ} {o : Order} {level : PriceLevel}
      → PointsTo b id o level
      → find_order C b id ≡ some o
  unfolding find_order deref
  find_order-found {b} {id} h = rw (
    h.indexed,
    find_order,
    get_price_level-lookup C b h.ptr.side h.ptr.price h.in_range ∙ h.found,
    deref,
    h.standing,
  )

  -- The order's own fields name the place where it stands.
  pub PointsTo-own :
      {held : ℕ} {b : OrderBook C} {id : ℕ} {o : Order} {level : PriceLevel}
      → Valid C held b
      → PointsTo b id o level
      → (lookup o.price (side_of C b o.side) ≡ some level)
        × (find_slot o.slot level.orders ≡ some o)
  PointsTo-own {b} {o} {level} v h =
      let fits : LevelOk h.ptr.side (h.ptr.price, level) =
        All-lookup (LevelOk h.ptr.side) h.ptr.price level (side_of C b h.ptr.side) h.found
          (Valid-side C v h.ptr.side).levels in
      let ok =
        All-find (OrderOk h.ptr.side h.ptr.price) h.ptr.slot o level.orders h.standing
          fits.all_ok in
      (
        subst₂ (λ s p. lookup p (side_of C b s) ≡ some level) (sym ok.on_side) (sym ok.at_price)
            h.found,
        ap (λ s. find_slot s level.orders) (find_slot-slot h.ptr.slot o level.orders h.standing)
            ∙ h.standing,
      )
