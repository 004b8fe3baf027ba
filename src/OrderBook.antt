-- ===== src/OrderBook.antt =====
-- MatchingEngine/include/OrderBook.h. A level pointer is the price at which the tree holds the
-- level; what is written through it goes back to the tree.
pub mod Valid
pub mod Views
pub mod Removal
pub mod Removed
pub mod Refresh
pub mod Keeps
pub mod Settles
pub mod Remove
pub mod Fill
pub mod Drop
pub mod First
pub mod Insert
pub mod Rest
pub mod Place
pub mod Find
use valyrian_stock_exchange.Prelude.{ℕ, ◌-◌, Option, none, some, if◌then◌else◌}
use valyrian_stock_exchange.CoreTypes.{Side, buy, sell, Order}
use valyrian_stock_exchange.Outcome.{Outcome, ok, threw, aborted, ◌>>=◌}
use valyrian_stock_exchange.Pool.{Pool, allocate, deallocate}
use valyrian_stock_exchange.Pool
use valyrian_stock_exchange.PriceLevel.{
  PriceLevel, fresh, front, find_slot, write_slot, fifo_push, fifo_remove,
}
use valyrian_stock_exchange.PriceLevel
use valyrian_stock_exchange.Containers.{Containers, OrderPtr}

pub record OrderBook (C : Containers) : Type 0 where
  pub order_pool : Pool
  pub price_level_pool : Pool
  pub order_index : C.Index
  pub buy_book : C.Tree
  pub sell_book : C.Tree
  pub best_bid : Option ℕ
  pub best_ask : Option ℕ

module _ (C : Containers) where
  open C use {
    Tree, new_tree, find_level, insert_level, erase_level, write_level, max_price, min_price,
    is_empty, new_index, find_id, emplace, erase_id,
  }

  -- The constructor, with the capacities of the two pools.
  unfoldable pub new_book : ℕ → ℕ → OrderBook C
  new_book orders levels = record {
    order_pool = Pool.init orders;
    price_level_pool = Pool.init levels;
    order_index = new_index;
    buy_book = new_tree;
    sell_book = new_tree;
    best_bid = none;
    best_ask = none;
  }

  -- `(side == Side::BUY) ? buy_book : sell_book`
  abbrev pub book_of : OrderBook C → Side → Tree
  book_of b buy = b.buy_book
  book_of b sell = b.sell_book

  abbrev pub set_book : OrderBook C → Side → Tree → OrderBook C
  set_book b buy t = record b { buy_book = t }
  set_book b sell t = record b { sell_book = t }

  abbrev pub best_of : OrderBook C → Side → Option ℕ
  best_of b buy = b.best_bid
  best_of b sell = b.best_ask

  abbrev pub set_best : OrderBook C → Side → Option ℕ → OrderBook C
  set_best b buy p = record b { best_bid = p }
  set_best b sell p = record b { best_ask = p }

  -- The pointer that `find` returns.
  pub level_ptr : Tree → ℕ → Option ℕ
  level_ptr t p = elim (find_level t p) [ none ↦ none | some level ↦ some p ]

  -- `maxPrice` of the bids, `minPrice` of the asks
  abbrev pub best_price : Side → Tree → ℕ
  best_price buy t = max_price t
  best_price sell t = min_price t

  unfoldable pub get_price_level : OrderBook C → Side → ℕ → Option PriceLevel
  get_price_level b side p = find_level (book_of b side) p

  unfoldable pub write_price_level : OrderBook C → Side → ℕ → PriceLevel → OrderBook C
  write_price_level b side p level = set_book b side (write_level (book_of b side) p level)

  head_at : Tree → Option ℕ → Option Order
  head_at t none = none
  head_at t (some p) = elim (find_level t p) [ none ↦ none | some level ↦ front level.orders ]

  unfoldable pub get_order_at_best_price : OrderBook C → Side → Option Order
  unfolding head_at
  get_order_at_best_price b opposite_side =
      head_at (book_of b opposite_side) (best_of b opposite_side)

  unfoldable pub write_at : OrderBook C → Side → Order → OrderBook C
  unfolding get_price_level write_price_level
  write_at b side order = elim (get_price_level b side order.price) [
    | none ↦ b
    | some level ↦
        write_price_level b side order.price
          (record level { orders = write_slot order level.orders })
  ]

  -- The store through an `Order *`.
  abbrev pub write_order : OrderBook C → Order → OrderBook C
  write_order b order = write_at b order.side order

  unfoldable pub consume_at : OrderBook C → Side → Order → ℕ → OrderBook C
  unfolding get_price_level write_price_level
  consume_at b side order qty = elim (get_price_level b side order.price) [
    | none ↦ b
    | some level ↦ write_price_level b side order.price (record level {
      aggregated_qty = level.aggregated_qty - qty;
      orders = write_slot (record order { remaining = order.remaining - qty }) level.orders;
    })
  ]

  -- Returns the order as it stands after the call, too.
  abbrev pub consume_order : OrderBook C → Order → ℕ → OrderBook C × Order
  consume_order b order qty =
      (consume_at b order.side order qty, record order { remaining = order.remaining - qty })

  -- `none`: the pool is exhausted, and an exception is thrown.
  unfoldable pub request_allocation_of_order : OrderBook C → Option (ℕ × OrderBook C)
  request_allocation_of_order b = elim (allocate b.order_pool) [
    | none ↦ none
    | some (slot, pool) ↦ some (slot, record b { order_pool = pool })
  ]

  unfoldable pub request_deallocation_of_order : OrderBook C → Order → Outcome (OrderBook C)
  request_deallocation_of_order b order = elim (deallocate b.order_pool order.slot) [
    | none ↦ threw b
    | some pool ↦ ok (record b { order_pool = pool })
  ]

  -- The catch block: the level goes back to its pool, and the exception goes on.
  give_back : OrderBook C → Pool → ℕ → Outcome (OrderBook C)
  give_back b pool slot = elim (deallocate pool slot) [
    | none ↦ threw (record b { price_level_pool = pool })
    | some pool' ↦ threw (record b { price_level_pool = pool' })
  ]

  pub with_new_level : OrderBook C → Side → Pool → Tree → OrderBook C
  with_new_level b side pool t = set_book (record b { price_level_pool = pool }) side t

  pub create_price_level : OrderBook C → Side → ℕ → Outcome (OrderBook C)
  unfolding give_back with_new_level
  create_price_level b side p = elim (allocate b.price_level_pool) [
    | none ↦ threw b
    | some (slot, pool) ↦
        elim (insert_level (book_of b side) p (record (fresh slot) { price = p })) [
          | none ↦ give_back b pool slot
          | some t ↦ ok (with_new_level b side pool t)
        ]
  ]

  -- Afterwards there is a level at the price, if nothing is thrown.
  pub get_or_create_price_level : OrderBook C → Side → ℕ → Outcome (OrderBook C)
  unfolding create_price_level
  get_or_create_price_level b side p = elim (find_level (book_of b side) p) [
    | some level ↦ ok b
    | none ↦ create_price_level b side p
  ]

  -- From `level->fifoPush` on.
  pub link : OrderBook C → Side → PriceLevel → Order → OrderBook C
  unfolding write_price_level level_ptr
  link b side level order =
      let pushed = write_price_level b side order.price (fifo_push level order) in
      let ptr : OrderPtr = record { side = side; price = order.price; slot = order.slot } in
      let indexed = record pushed { order_index = emplace pushed.order_index order.order_id ptr } in
      let t = book_of indexed side in set_best indexed side (level_ptr t (best_price side t))

  pub push_order : OrderBook C → Side → Order → Outcome (OrderBook C)
  unfolding get_price_level link
  push_order b side order = elim (get_price_level b side order.price) [
    | none ↦ threw b
    | some level ↦ ok (link b side level order)
  ]

  unfoldable pub insert_at : OrderBook C → Side → Order → Outcome (OrderBook C)
  unfolding get_or_create_price_level push_order
  insert_at b side order = do
    created ← get_or_create_price_level b side order.price
    push_order created side order

  -- The rollback of the source finds no link to undo: only the creation of a level can throw.
  abbrev pub insert_order : OrderBook C → Order → Outcome (OrderBook C)
  insert_order b order = insert_at b order.side order

  -- `noexcept`: an exception in it ends the program.
  pub remove_price_level_if_empty : OrderBook C → Side → ℕ → Outcome (OrderBook C)
  remove_price_level_if_empty b side p = elim (find_level (book_of b side) p) [
    | none ↦ ok b
    | some level ↦
        if PriceLevel.empty level
        then elim (erase_level (book_of b side) level.price) [
          | none ↦ aborted b
          | some t ↦ elim (deallocate b.price_level_pool level.slot) [
            | none ↦ aborted (set_book b side t)
            | some pool ↦ ok (record (set_book b side t) { price_level_pool = pool })
          ]
        ]
        else ok b
  ]

  pub refresh_best : OrderBook C → Side → OrderBook C
  unfolding level_ptr
  refresh_best b side =
      let t = book_of b side in
      set_best b side (if is_empty t then none else level_ptr t (best_price side t))

  -- `level->fifoRemove(order)` and the removal from the index.
  pub unlink : OrderBook C → Side → PriceLevel → Order → OrderBook C
  unfolding write_price_level
  unlink b side level order =
      let unlinked = write_price_level b side order.price (fifo_remove level order) in
      record unlinked { order_index = erase_id unlinked.order_index order.order_id }

  unfoldable pub remove_at : OrderBook C → Side → Order → Outcome (OrderBook C)
  unfolding get_price_level unlink remove_price_level_if_empty refresh_best
      request_deallocation_of_order
  remove_at b side order = elim (get_price_level b side order.price) [
    | none ↦ threw b
    | some level ↦ do
      trimmed ← remove_price_level_if_empty (unlink b side level order) side order.price
      request_deallocation_of_order (refresh_best trimmed side) order
  ]

  abbrev pub remove_order : OrderBook C → Order → Outcome (OrderBook C)
  remove_order b order = remove_at b order.side order

  -- Reads the order that an index entry points to.
  deref : OrderBook C → OrderPtr → Option Order
  unfolding get_price_level
  deref b ptr = elim (get_price_level b ptr.side ptr.price) [
    | none ↦ none
    | some level ↦ find_slot ptr.slot level.orders
  ]

  unfoldable pub find_order : OrderBook C → ℕ → Option Order
  unfolding deref
  find_order b order_id = elim (find_id b.order_index order_id) [
    | none ↦ none
    | some ptr ↦ deref b ptr
  ]

  price_at : Tree → Option ℕ → ℕ
  price_at t none = 0
  price_at t (some p) = elim (find_level t p) [ none ↦ 0 | some level ↦ level.price ]

  unfoldable pub best_bid_price : OrderBook C → ℕ
  unfolding price_at
  best_bid_price b = price_at b.buy_book b.best_bid

  unfoldable pub best_ask_price : OrderBook C → ℕ
  unfolding price_at
  best_ask_price b = price_at b.sell_book b.best_ask
