-- ===== src/OrderBook/Removal.antt =====
-- removePriceLevelIfEmpty in a book whose level at the price is known.
use valyrian_stock_exchange.Prelude.{
  ℕ, ◌+◌, ◌<◌, ◌≡◌, refl, ◌∙◌, true, false, Bool-cases, inl, inr, some, List, ◌∷◌, length, arith,
  if◌then◌else◌,
}
use valyrian_stock_exchange.Prelude.Assoc.{lookup, delete}
use valyrian_stock_exchange.CoreTypes.{Side, buy, sell, opposite}
use valyrian_stock_exchange.Outcome.{ok}
use valyrian_stock_exchange.Pool.{Pool, deallocate}
use valyrian_stock_exchange.PriceLevel.{PriceLevel, empty}
use valyrian_stock_exchange.Containers.{Containers, price_limit}
use valyrian_stock_exchange.OrderBook.{OrderBook, book_of, set_book, remove_price_level_if_empty}
use valyrian_stock_exchange.OrderBook.Valid.{side_of}

pub deallocate-room :
    (pool : Pool) (slot : ℕ)
    → length pool.free_list < pool.capacity
    → deallocate pool slot ≡ some (record pool { free_list = slot ∷ pool.free_list })
unfolding deallocate
deallocate-room pool slot h = ground arith

module _ (C : Containers) where
  -- The entries after a level was trimmed.
  abbrev pub trimmed_entries : ℕ → PriceLevel → List (ℕ × PriceLevel) → List (ℕ × PriceLevel)
  trimmed_entries p level m = if empty level then delete p m else m

  abbrev pub freed : PriceLevel → ℕ
  freed level = if empty level then 1 else 0

  -- The free list of the levels, with the slot of a level that has gone in front.
  abbrev pub freed_slots : PriceLevel → List ℕ → List ℕ
  freed_slots level free = if empty level then level.slot ∷ free else free

  pub length-freed_slots :
      (level : PriceLevel) (free : List ℕ)
      → length (freed_slots level free) ≡ length free + freed level
  length-freed_slots level free = elim (Bool-cases (empty level)) [
    | inl gone ↦ rw gone (omega arith)
    | inr stays ↦ rw stays (omega arith)
  ]

  pub record Trimmed (b : OrderBook C) (s : Side) (p : ℕ) (level : PriceLevel) (b' : OrderBook C)
      : Type 0 where
    pub trimmed : side_of C b' s ≡ trimmed_entries p level (side_of C b s)
    pub untouched : side_of C b' (opposite s) ≡ side_of C b (opposite s)
    pub same_bid : b'.best_bid ≡ b.best_bid
    pub same_ask : b'.best_ask ≡ b.best_ask
    pub same_orders : b'.order_pool ≡ b.order_pool
    pub same_index : b'.order_index ≡ b.order_index
    pub same_capacity : b'.price_level_pool.capacity ≡ b.price_level_pool.capacity
    pub freed_level : b'.price_level_pool.free_list ≡ freed_slots level b.price_level_pool.free_list

  pub trim_kept :
      (b : OrderBook C) (s : Side) (p : ℕ) (level : PriceLevel)
      → C.find_level (book_of C b s) p ≡ some level
      → empty level ≡ false
      → (b' : OrderBook C) × (remove_price_level_if_empty C b s p ≡ ok b') × Trimmed b s p level b'
  unfolding remove_price_level_if_empty
  trim_kept b s p level f e = (
    b,
    rw (f, remove_price_level_if_empty, e),
    record {
      trimmed = rw e;
      untouched = refl;
      same_bid = refl;
      same_ask = refl;
      same_orders = refl;
      same_index = refl;
      same_capacity = refl;
      freed_level = rw e refl;
    },
  )

  pub pushed_back : Pool → PriceLevel → Pool
  pushed_back pool level = record pool { free_list = level.slot ∷ pool.free_list }

  -- The book after the erasure of an empty level.
  pub dropped : OrderBook C → Side → C.Tree → PriceLevel → OrderBook C
  unfolding pushed_back
  dropped b s t level = record (set_book C b s t) {
    price_level_pool = pushed_back b.price_level_pool level;
  }

  pub dropped-Trimmed :
      (b : OrderBook C) (s : Side) (p : ℕ) (level : PriceLevel) (t : C.Tree)
      → empty level ≡ true
      → C.entries t ≡ delete p (side_of C b s)
      → Trimmed b s p level (dropped b s t level)
  unfolding dropped
  dropped-Trimmed b buy p level t e d = record {
    trimmed = rw e d;
    untouched = refl;
    same_bid = refl;
    same_ask = refl;
    same_orders = refl;
    same_index = refl;
    same_capacity = refl;
    freed_level = rw e refl;
  }
  dropped-Trimmed b sell p level t e d = record {
    trimmed = rw e d;
    untouched = refl;
    same_bid = refl;
    same_ask = refl;
    same_orders = refl;
    same_index = refl;
    same_capacity = refl;
    freed_level = rw e refl;
  }

  pub trim_dropped :
      (b : OrderBook C) (s : Side) (p : ℕ) (level : PriceLevel)
      → p < price_limit
      → level.price ≡ p
      → lookup p (side_of C b s) ≡ some level
      → empty level ≡ true
      → length b.price_level_pool.free_list < b.price_level_pool.capacity
      → (b' : OrderBook C) × (remove_price_level_if_empty C b s p ≡ ok b') × Trimmed b s p level b'
  unfolding remove_price_level_if_empty dropped
  trim_dropped b s p level h priced f e room =
      let (t, erases, d) = C.erase_level_lem (book_of C b s) p level h f in
      (
        dropped b s t level,
        rw
            (
              C.find_level_lem (book_of C b s) p h ∙ f,
              remove_price_level_if_empty,
              e,
              priced,
              erases,
              deallocate-room b.price_level_pool level.slot room,
            )
            refl,
        dropped-Trimmed b s p level t e d,
      )

  pub trim_lem :
      (b : OrderBook C) (s : Side) (p : ℕ) (level : PriceLevel)
      → p < price_limit
      → level.price ≡ p
      → lookup p (side_of C b s) ≡ some level
      → length b.price_level_pool.free_list < b.price_level_pool.capacity
      → (b' : OrderBook C) × (remove_price_level_if_empty C b s p ≡ ok b') × Trimmed b s p level b'
  trim_lem b s p level h priced f room = elim (Bool-cases (empty level)) [
    | inl e ↦ trim_dropped b s p level h priced f e room
    | inr e ↦ trim_kept b s p level (C.find_level_lem (book_of C b s) p h ∙ f) e
  ]
