-- ===== src/PriceLevel/Laws.antt =====
-- What a price level holds: the sum of the remaining quantities, and the orders one by one.
use valyrian_stock_exchange.Prelude.{
  ℕ, ◌+◌, ◌≤◌, ◌<◌, ◌≡◌, refl, some, List, [], ◌∷◌, ◌++◌, All, length, arith,
}
use valyrian_stock_exchange.CoreTypes.{Order, Side, limit}
use valyrian_stock_exchange.PriceLevel.{find_slot, remove_slot, write_slot}

abbrev pub sum_remaining : List Order → ℕ
sum_remaining [] = 0
sum_remaining (o ∷ os) = o.remaining + sum_remaining os

-- An order may rest on a side at a price.
pub record OrderOk (s : Side) (p : ℕ) (o : Order) : Type 0 where
  pub on_side : o.side ≡ s
  pub at_price : o.price ≡ p
  pub open_quantity : 0 < o.remaining
  pub within : o.remaining ≤ o.quantity
  pub is_limit : o.type ≡ limit

pub length-push : (os : List Order) (o : Order) → length (os ++ (o ∷ [])) ≡ length os + 1
length-push [] o = omega arith
length-push (x ∷ os) o = omega (arith, length-push os o)

pub sum_remaining-push :
    (os : List Order) (o : Order) → sum_remaining (os ++ (o ∷ [])) ≡ sum_remaining os + o.remaining
sum_remaining-push [] o = omega arith
sum_remaining-push (x ∷ os) o = omega (arith, sum_remaining-push os o)

pub sum_remaining-remove :
    (s : ℕ) (o : Order) (os : List Order)
    → find_slot s os ≡ some o
    → sum_remaining (remove_slot s os) + o.remaining ≡ sum_remaining os
sum_remaining-remove s o [] h = absurd (cc)
sum_remaining-remove s o (x ∷ os) h = ground (arith, sum_remaining-remove s o os)

pub length-remove :
    (s : ℕ) (o : Order) (os : List Order)
    → find_slot s os ≡ some o
    → length (remove_slot s os) + 1 ≡ length os
length-remove s o [] h = absurd (cc)
length-remove s o (x ∷ os) h = ground (arith, length-remove s o os)

pub sum_remaining-write :
    (o' o : Order) (os : List Order)
    → find_slot o'.slot os ≡ some o
    → sum_remaining (write_slot o' os) + o.remaining ≡ sum_remaining os + o'.remaining
sum_remaining-write o' o [] h = absurd (cc)
sum_remaining-write o' o (x ∷ os) h = ground (arith, sum_remaining-write o' o os)

pub length-write : (o' : Order) (os : List Order) → length (write_slot o' os) ≡ length os
length-write o' [] = refl
length-write o' (x ∷ os) = ground (arith, length-write o' os)

module _ (P : Order → Type 0) where
  pub All-push : (os : List Order) (o : Order) → All P os → P o → All P (os ++ (o ∷ []))
  All-push [] o h p = (p, tt)
  All-push (x ∷ os) o h p = (h.0, All-push os o h.1 p)

  pub All-remove : (s : ℕ) (os : List Order) → All P os → All P (remove_slot s os)
  All-remove s [] h = tt
  All-remove s (x ∷ os) h = ground (arith, All-remove s os h.1)

  pub All-write : (o' : Order) (os : List Order) → P o' → All P os → All P (write_slot o' os)
  All-write o' [] p h = tt
  All-write o' (x ∷ os) p h = ground (arith, All-write o' os p h.1)

  pub All-find : (s : ℕ) (o : Order) (os : List Order) → find_slot s os ≡ some o → All P os → P o
  All-find s o [] e h = absurd (cc)
  All-find s o (x ∷ os) e h = ground (arith, All-find s o os)
