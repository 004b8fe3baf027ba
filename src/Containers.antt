-- ===== src/Containers.antt =====
-- The keyed containers that OrderBook.h works with. `Tree` is what the class AdaptiveRadixTree
-- (over libart) offers for price levels; `Index` is absl::flat_hash_map from order ids to orders.
-- Both come with what the book relies on, stated by the entries that a traversal would list.
pub mod Sample
use valyrian_stock_exchange.Prelude.{
  ℕ, ◌≤◌, ◌<◌, ◌^◌, ◌≡◌, Bool, true, false, Option, none, some, List, [], ◌==◌, All, if◌then◌else◌,
}
use valyrian_stock_exchange.Prelude.Assoc.{lookup, insert, write, delete}
use valyrian_stock_exchange.CoreTypes.{Side}
use valyrian_stock_exchange.PriceLevel.{PriceLevel}

-- Prices are int64_t; the tree's keys are their bit patterns.
abbrev pub price_limit : ℕ
price_limit = 2 ^ 63

-- An `Order *` held by the index: the book, the level and the address inside the level.
pub record OrderPtr : Type 0 where
  pub side : Side
  pub price : ℕ
  pub slot : ℕ

pub record Containers : Type 1 where
  pub Tree : Type 0
  pub new_tree : Tree
  pub entries : Tree → List (ℕ × PriceLevel)
  pub find_level : Tree → ℕ → Option PriceLevel
  -- `none`: the key is taken, and an exception is thrown
  pub insert_level : Tree → ℕ → PriceLevel → Option Tree
  -- `none`: the key is missing, and an exception is thrown
  pub erase_level : Tree → ℕ → Option Tree
  -- an assignment to the level that a key's pointer points to
  pub write_level : Tree → ℕ → PriceLevel → Tree
  pub max_price : Tree → ℕ
  pub min_price : Tree → ℕ
  pub is_empty : Tree → Bool
  pub Index : Type 0
  pub new_index : Index
  pub find_id : Index → ℕ → Option OrderPtr
  -- does not overwrite
  pub emplace : Index → ℕ → OrderPtr → Index
  pub erase_id : Index → ℕ → Index
  pub entries-new_tree : entries new_tree ≡ []
  pub find_level_lem : (t : Tree) (p : ℕ) → p < price_limit → find_level t p ≡ lookup p (entries t)
  pub insert_level_lem :
      (t : Tree) (p : ℕ) (level : PriceLevel)
      → p < price_limit
      → lookup p (entries t) ≡ none
      → (t' : Tree) × (insert_level t p level ≡ some t') × (entries t' ≡ insert p level (entries t))
  pub erase_level_lem :
      (t : Tree) (p : ℕ) (level : PriceLevel)
      → p < price_limit
      → lookup p (entries t) ≡ some level
      → (t' : Tree) × (erase_level t p ≡ some t') × (entries t' ≡ delete p (entries t))
  pub write_level_lem :
      (t : Tree) (p : ℕ) (level : PriceLevel)
      → p < price_limit
      → entries (write_level t p level) ≡ write p level (entries t)
  pub is_empty_lem : (t : Tree) → is_empty t ≡ true → entries t ≡ []
  pub max_price_lem :
      (t : Tree)
      → is_empty t ≡ false
      → ((level : PriceLevel) × (lookup (max_price t) (entries t) ≡ some level))
        × All (λ e. e.0 ≤ max_price t) (entries t)
  pub min_price_lem :
      (t : Tree)
      → is_empty t ≡ false
      → ((level : PriceLevel) × (lookup (min_price t) (entries t) ≡ some level))
        × All (λ e. min_price t ≤ e.0) (entries t)
  pub find_id-new_index : (id : ℕ) → find_id new_index id ≡ none
  pub find_id-emplace :
      (m : Index) (k id : ℕ) (o : OrderPtr)
      → find_id (emplace m k o) id ≡ (
          if k == id
          then elim (find_id m k) [ none ↦ some o | some old ↦ some old ]
          else find_id m id)
  pub find_id-erase_id :
      (m : Index) (k id : ℕ) → find_id (erase_id m k) id ≡ (if k == id then none else find_id m id)
