-- ===== src/OrderBook/Valid.antt =====
-- The invariant of the order book, by the entries of its two trees.
use valyrian_stock_exchange.Prelude.{
  ℕ, ◌+◌, ◌≤◌, ◌<◌, ◌≡◌, ◌≢◌, Option, none, some, List, [], ◌∷◌, All, length,
}
use valyrian_stock_exchange.Prelude.Assoc.{lookup, sum_by}
use valyrian_stock_exchange.CoreTypes.{Side, buy, sell, Order}
use valyrian_stock_exchange.PriceLevel.{PriceLevel}
use valyrian_stock_exchange.PriceLevel.Laws.{sum_remaining, OrderOk}
use valyrian_stock_exchange.Containers.{Containers, price_limit}
use valyrian_stock_exchange.OrderBook.{OrderBook, book_of, best_of}

-- A tree's entry: the level is kept under its own price, is not empty, and its orders belong there.
pub record LevelOk (s : Side) (e : ℕ × PriceLevel) : Type 0 where
  pub priced : e.1.price ≡ e.0
  pub in_range : e.0 < price_limit
  pub occupied : e.1.orders ≢ []
  pub covered : sum_remaining e.1.orders ≤ e.1.aggregated_qty
  pub all_ok : All (OrderOk s e.0) e.1.orders

-- `p` is at least as good as `q` for the other side.
abbrev pub NoBetter : Side → ℕ → ℕ → Type 0
NoBetter buy p q = q ≤ p
NoBetter sell p q = p ≤ q

-- The cached best price is the best of the tree.
abbrev pub BestOk : Side → Option ℕ → List (ℕ × PriceLevel) → Type 0
BestOk s none m = m ≡ []
BestOk s (some p) m =
    ((level : PriceLevel) × (lookup p m ≡ some level)) × All (λ e. NoBetter s p e.0) m

pub record SideValid (s : Side) (best : Option ℕ) (m : List (ℕ × PriceLevel)) : Type 0 where
  pub levels : All (LevelOk s) m
  pub best_ok : BestOk s best m

abbrev pub order_count : List (ℕ × PriceLevel) → ℕ
order_count = sum_by (λ level. length level.orders)

abbrev pub level_count : List (ℕ × PriceLevel) → ℕ
level_count = sum_by (λ level. 1)

-- `held` orders are allocated and do not rest in the book. The slots are counted; that those of
-- resting orders differ from each other and from the free ones is not part of the invariant.
pub record Valid (C : Containers) (held : ℕ) (b : OrderBook C) : Type 0 where
  pub bids : SideValid buy b.best_bid (C.entries b.buy_book)
  pub asks : SideValid sell b.best_ask (C.entries b.sell_book)
  pub orders_kept :
      length b.order_pool.free_list
        + order_count (C.entries b.buy_book)
        + order_count (C.entries b.sell_book)
        + held
      ≡ b.order_pool.capacity
  pub levels_kept :
      length b.price_level_pool.free_list
        + level_count (C.entries b.buy_book)
        + level_count (C.entries b.sell_book)
      ≡ b.price_level_pool.capacity

module _ (C : Containers) where
  -- The entries of one side.
  abbrev pub side_of : OrderBook C → Side → List (ℕ × PriceLevel)
  side_of b s = C.entries (book_of C b s)

  pub Valid-side :
      {held : ℕ} {b : OrderBook C}
      → Valid C held b
      → (s : Side) → SideValid s (best_of C b s) (side_of b s)
  Valid-side v buy = v.bids
  Valid-side v sell = v.asks

-- The order that `match` meets stands first at the best price `p` of its side.
pub record HeadAt (s : Side) (best : Option ℕ) (m : List (ℕ × PriceLevel)) (o : Order)
    : Type 0 where
  pub p : ℕ
  pub level : PriceLevel
  pub rest : List Order
  pub best_at : best ≡ some p
  pub found : lookup p m ≡ some level
  pub first : level.orders ≡ o ∷ rest
  pub level_ok : LevelOk s (p, level)
  pub order_ok : OrderOk s p o
  pub no_better : All (λ e. NoBetter s p e.0) m

abbrev pub HeadOk : Side → Option ℕ → List (ℕ × PriceLevel) → Option Order → Type 0
HeadOk s best m none = (best ≡ none) × (m ≡ [])
HeadOk s best m (some o) = HeadAt s best m o
