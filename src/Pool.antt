-- ===== src/Pool.antt =====
-- MatchingEngine/include/Pools.h: OrderPool and PriceLevelPool are one stack of free slots over a
-- fixed array. A slot's number stands for its address; `free_list` lists free_list[top - 1] first.
use valyrian_stock_exchange.Prelude.{
  ℕ, zero, suc, Option, none, some, List, [], ◌∷◌, length, leb, if◌then◌else◌,
}

abbrev pub max_orders : ℕ
max_orders = 1000000

abbrev pub min_req_pricelevels : ℕ
min_req_pricelevels = 1000000

pub record Pool : Type 0 where
  pub capacity : ℕ
  pub free_list : List ℕ

pub top : Pool → ℕ
top pool = length pool.free_list

slots_below : ℕ → List ℕ
slots_below zero = []
slots_below (suc n) = n ∷ slots_below n

-- The constructor of a pool of `n` slots.
pub init : ℕ → Pool
unfolding slots_below
init n = record { capacity = n; free_list = slots_below n }

-- `none`: "exhausted" is thrown.
unfoldable pub allocate : Pool → Option (ℕ × Pool)
allocate pool = elim pool.free_list [
  | [] ↦ none
  | slot ∷ rest ↦ some (slot, record pool { free_list = rest })
]

-- `none`: "overflow (double free?)" is thrown.
unfoldable pub deallocate : Pool → ℕ → Option Pool
unfolding top
deallocate pool slot =
    if leb pool.capacity (top pool)
    then none
    else some (record pool { free_list = slot ∷ pool.free_list })
