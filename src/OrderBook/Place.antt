-- ===== src/OrderBook/Place.antt =====
-- insertOrder at a price that has no level yet, and in general.
use valyrian_stock_exchange.Prelude.{
  ℕ, suc, ◌+◌, ◌<◌, ◌≡◌, refl, ap, ◌∙◌, ◌⊎◌, inl, inr, none, some, Option-cases, List, [], ◌∷◌,
  length, arith, ==_self,
}
use valyrian_stock_exchange.Prelude.Assoc.{
  lookup, insert, write, lookup-insert, write-insert, All-insert, sum_by-insert,
}
use valyrian_stock_exchange.CoreTypes.{Side, buy, sell, opposite, Order}
use valyrian_stock_exchange.Outcome.{Outcome, ok, threw}
use valyrian_stock_exchange.Pool.{Pool, allocate}
use valyrian_stock_exchange.PriceLevel.{PriceLevel, fresh, fifo_push}
use valyrian_stock_exchange.PriceLevel.Laws.{OrderOk}
use valyrian_stock_exchange.Containers.{Containers, price_limit}
use valyrian_stock_exchange.OrderBook.{
  OrderBook, book_of, best_of, with_new_level, push_order, create_price_level,
  get_or_create_price_level, insert_at,
}
use valyrian_stock_exchange.OrderBook.Valid.{LevelOk, Valid, side_of, Valid-side, order_count}
use valyrian_stock_exchange.OrderBook.Keeps.{Valid-from_side, Valid-orders, Valid-levels}
use valyrian_stock_exchange.OrderBook.Refresh.{InRange}
use valyrian_stock_exchange.OrderBook.Remove.{LevelOk-InRange}
use valyrian_stock_exchange.OrderBook.Insert.{push_order-Pushed}
use valyrian_stock_exchange.OrderBook.Rest.{
  fifo_push-LevelOk, length-fifo_push, Rested, new_level, fifo_push-behind, push_to_old,
}

new_level-LevelOk :
    (s : Side) (slot : ℕ) (o : Order)
    → o.price < price_limit
    → OrderOk s o.price o
    → LevelOk s (o.price, fifo_push (new_level slot o.price) o)
unfolding fresh
new_level-LevelOk s slot o range fits =
    fifo_push-LevelOk s (new_level slot o.price) o refl range (omega arith) tt fits

length-new_level : (slot : ℕ) (o : Order) → length (fifo_push (new_level slot o.price) o).orders ≡ 1
unfolding fresh
length-new_level slot o = length-fifo_push (new_level slot o.price) o ∙ (omega arith)

pub allocate-cases :
    (pool : Pool)
    → (allocate pool ≡ none)
      ⊎ ((slot : ℕ) × (pool' : Pool) × (allocate pool ≡ some (slot, pool'))
          × (length pool.free_list ≡ suc (length pool'.free_list))
          × (pool'.capacity ≡ pool.capacity))
unfolding allocate
allocate-cases pool = go pool.free_list refl
  where
    go :
        (l : List ℕ)
        → pool.free_list ≡ l
        → (allocate pool ≡ none)
          ⊎ ((slot : ℕ) × (pool' : Pool) × (allocate pool ≡ some (slot, pool'))
              × (length pool.free_list ≡ suc (length pool'.free_list))
              × (pool'.capacity ≡ pool.capacity))
    go [] e = inl (rw (e, allocate))
    go (slot ∷ rest) e =
        inr (slot, record pool { free_list = rest }, rw (e, allocate), ap length e, refl)

module _ (C : Containers) where
  with_new_level_lem :
      (b : OrderBook C) (s : Side) (pool : Pool) (t : C.Tree)
      → (side_of C (with_new_level C b s pool t) s ≡ C.entries t)
        × (side_of C (with_new_level C b s pool t) (opposite s) ≡ side_of C b (opposite s))
        × (best_of C (with_new_level C b s pool t) (opposite s) ≡ best_of C b (opposite s))
        × ((with_new_level C b s pool t).order_pool ≡ b.order_pool)
        × ((with_new_level C b s pool t).price_level_pool ≡ pool)
  unfolding with_new_level
  with_new_level_lem b buy pool t = (refl, refl, refl, refl, refl)
  with_new_level_lem b sell pool t = (refl, refl, refl, refl, refl)

  InRange-insert :
      (p : ℕ) (l : PriceLevel) (m : List (ℕ × PriceLevel))
      → p < price_limit
      → InRange C m
      → InRange C (insert p l m)
  InRange-insert p l m h r = All-insert (λ (e : ℕ × PriceLevel). e.0 < price_limit) p l m h r

  push_to_new :
      {held : ℕ} (b : OrderBook C) (s : Side) (o : Order) (slot : ℕ) (pool : Pool) (t : C.Tree)
      → Valid C (suc held) b
      → OrderOk s o.price o
      → o.price < price_limit
      → lookup o.price (side_of C b s) ≡ none
      → C.entries t ≡ insert o.price (new_level slot o.price) (side_of C b s)
      → length b.price_level_pool.free_list ≡ suc (length pool.free_list)
      → pool.capacity ≡ b.price_level_pool.capacity
      → (b' : OrderBook C) × (push_order C (with_new_level C b s pool t) s o ≡ ok b')
        × Valid C held b'
        × Rested C b s o b'
  push_to_new b s o slot pool t v fits range f e taken cap =
      let m = side_of C b s in
      let side = Valid-side C v s in
      let b1 = with_new_level C b s pool t in
      let u = with_new_level_lem b s pool t in
      let l0 = new_level slot o.price in
      let l1 = fifo_push l0 o in
      let m1 : side_of C b1 s ≡ insert o.price l0 m = u.0 ∙ e in
      let f1 : lookup o.price (side_of C b1 s) ≡ some l0 =
        rw m1 (lookup-insert o.price o.price l0 m f ∙ (rw (==_self o.price))) in
      let range1 : InRange C (side_of C b1 s) =
        rw m1 (InRange-insert o.price l0 m range (LevelOk-InRange C s m side.levels)) in
      let (b', eq, r) = push_order-Pushed C b1 s o l0 range f1 range1 in
      let m' : side_of C b' s ≡ insert o.price l1 m =
        r.pushed ∙ ap (write o.price l1) m1 ∙ write-insert o.price l1 l0 m f in
      let count : order_count (insert o.price l1 m) ≡ order_count m + 1 = omega (
        arith,
        sum_by-insert (λ (x : PriceLevel). length x.orders) o.price l1 m,
        length-new_level slot o,
      ) in
      (
        b',
        eq,
        Valid-from_side C s
            (record {
              levels = rw m' (
                  All-insert (LevelOk s) o.price l1 m (new_level-LevelOk s slot o range fits)
                    side.levels);
              best_ok = r.best_ok;
            })
            (rw (r.other_side, r.other_best, u.1, u.2) (Valid-side C v (opposite s)))
            (rw (r.same_orders, m', r.other_side, u.1, u.3)
              (omega (arith, Valid-orders C v s, count)))
            (rw (r.same_levels, m', r.other_side, u.1, u.4)
              (omega (
                arith,
                Valid-levels C v s,
                sum_by-insert (λ (x : PriceLevel). 1) o.price l1 m,
                taken,
                cap,
              ))),
        record {
          rests = inr (slot, f, m' ∙ ap (λ x. insert o.price x m) (fifo_push-behind l0 o));
          one_more = rw m' count;
          other_side = r.other_side ∙ u.1;
          other_best = r.other_best ∙ u.2;
        },
      )

  -- What insertOrder comes to on a valid book.
  abbrev pub Placed : ℕ → OrderBook C → Side → Order → Outcome (OrderBook C) → Type 0
  Placed held b s o r =
      ((b' : OrderBook C) × (r ≡ ok b') × Valid C held b' × Rested C b s o b')
      ⊎ ((lookup o.price (side_of C b s) ≡ none)
          × (allocate b.price_level_pool ≡ none)
          × (r ≡ threw b))

  get_or_create-old :
      (b : OrderBook C) (s : Side) (p : ℕ) (l0 : PriceLevel)
      → p < price_limit
      → lookup p (side_of C b s) ≡ some l0
      → get_or_create_price_level C b s p ≡ ok b
  unfolding get_or_create_price_level
  get_or_create-old b s p l0 h f =
      rw (C.find_level_lem (book_of C b s) p h ∙ f, get_or_create_price_level)

  get_or_create-full :
      (b : OrderBook C) (s : Side) (p : ℕ)
      → p < price_limit
      → lookup p (side_of C b s) ≡ none
      → allocate b.price_level_pool ≡ none
      → get_or_create_price_level C b s p ≡ threw b
  unfolding get_or_create_price_level create_price_level
  get_or_create-full b s p h f none_left = rw (
    C.find_level_lem (book_of C b s) p h ∙ f,
    get_or_create_price_level,
    create_price_level,
    none_left,
  )

  get_or_create-new :
      (b : OrderBook C) (s : Side) (p slot : ℕ) (pool : Pool) (t : C.Tree)
      → p < price_limit
      → lookup p (side_of C b s) ≡ none
      → allocate b.price_level_pool ≡ some (slot, pool)
      → C.insert_level (book_of C b s) p (new_level slot p) ≡ some t
      → get_or_create_price_level C b s p ≡ ok (with_new_level C b s pool t)
  unfolding get_or_create_price_level create_price_level
  get_or_create-new b s p slot pool t h f taken inserted = rw (
    C.find_level_lem (book_of C b s) p h ∙ f,
    get_or_create_price_level,
    create_price_level,
    taken,
    inserted,
  )

  insert_at-new :
      {held : ℕ} (b : OrderBook C) (s : Side) (o : Order)
      → Valid C (suc held) b
      → OrderOk s o.price o
      → o.price < price_limit
      → lookup o.price (side_of C b s) ≡ none
      → Placed held b s o (insert_at C b s o)
  unfolding insert_at
  insert_at-new b s o v fits range f = elim (allocate-cases b.price_level_pool) [
    | inl full ↦ inr (f, full, rw (get_or_create-full b s o.price range f full))
    | inr (slot, pool, taken, fewer, cap) ↦
        let (t, inserted, e) =
          C.insert_level_lem (book_of C b s) o.price (new_level slot o.price) range f in
        let (b', eq, v', r) = push_to_new b s o slot pool t v fits range f e fewer cap in
        inl (b', rw (get_or_create-new b s o.price slot pool t range f taken inserted) eq, v', r)
  ]

  -- In a valid book on which the order is in flight, insertOrder of a limit order with something left
  -- of it and a price below 2^63 either succeeds: the book is valid with one order in flight fewer,
  -- the order rests last in the level of its price, which is made if it was missing, and the other
  -- side is untouched; or the pool of levels is exhausted, an exception is thrown and the book is as
  -- it was.
  pub insert_at-Placed :
      {held : ℕ} (b : OrderBook C) (s : Side) (o : Order)
      → Valid C (suc held) b
      → OrderOk s o.price o
      → o.price < price_limit
      → Placed held b s o (insert_at C b s o)
  unfolding insert_at
  insert_at-Placed b s o v fits range = elim (Option-cases (lookup o.price (side_of C b s))) [
    | inl f ↦ insert_at-new b s o v fits range f
    | inr (l0, f) ↦
        let (b', eq, v', r) = push_to_old C s o l0 v fits range f in
        inl (b', rw (get_or_create-old b s o.price l0 range f) eq, v', r)
  ]
