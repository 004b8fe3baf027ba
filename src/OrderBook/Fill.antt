-- ===== src/OrderBook/Fill.antt =====
-- consumeOrder on the first order of a level, the write of its new state, and its removal when
-- nothing is left of it.
use valyrian_stock_exchange.Prelude.{
  ℕ, ◌-◌, ◌<◌, ◌≡◌, refl, sym, ap, ◌∙◌, Option, none, some, inl, inr, Bool-cases, List, ◌∷◌, All,
  length, arith, ==_self, ◌==◌,
}
use mathlib.Core.Path.{subst, subst₂}
use valyrian_stock_exchange.Prelude.Assoc.{
  lookup, write, lookup-write, All-write, All-lookup, sum_by-write,
}
use valyrian_stock_exchange.CoreTypes.{Side, buy, sell, opposite, Order, OrderState}
use valyrian_stock_exchange.PriceLevel.{PriceLevel, write_slot}
use valyrian_stock_exchange.PriceLevel.Laws.{OrderOk, sum_remaining}
use valyrian_stock_exchange.Containers.{Containers}
use valyrian_stock_exchange.OrderBook.{OrderBook, best_of, write_order, consume_order, consume_at}
use valyrian_stock_exchange.OrderBook.Valid.{
  LevelOk, NoBetter, BestOk, Valid, side_of, Valid-side, HeadAt,
}
use valyrian_stock_exchange.OrderBook.Views.{
  Rewritten, Rewritten-trans, write_at-Rewritten, consume_at-Rewritten,
}
use valyrian_stock_exchange.OrderBook.Keeps.{Valid-from_side, Valid-orders, Valid-levels}

-- The order after `q` of it is consumed, in the state `st`.
abbrev pub after_fill : Order → ℕ → OrderState → Order
after_fill o q st = record o { remaining = o.remaining - q; state = st }

abbrev pub filled_level : PriceLevel → ℕ → Order → List Order → PriceLevel
filled_level level q o' rest = record level {
  aggregated_qty = level.aggregated_qty - q;
  orders = o' ∷ rest;
}

write_slot_first :
    (o' o : Order) (os : List Order) → o.slot ≡ o'.slot → write_slot o' (o ∷ os) ≡ o' ∷ os
write_slot_first o' o os h = ground arith

-- The order `o` stands first in the level at the price `p` of the side `s`.
pub record StandsAt (C : Containers) (b : OrderBook C) (s : Side) (p : ℕ) (o : Order) : Type 0 where
  pub level : PriceLevel
  pub rest : List Order
  pub found : lookup p (side_of C b s) ≡ some level
  pub first : level.orders ≡ o ∷ rest
  pub level_ok : LevelOk s (p, level)
  pub order_ok : OrderOk s p o

abbrev pub Stands : (C : Containers) → OrderBook C → Order → Type 0
Stands C b o = StandsAt C b o.side o.price o

pub HeadAt-Stands :
    (C : Containers) (b : OrderBook C) (s : Side) (o : Order)
    → HeadAt s (best_of C b s) (side_of C b s) o
    → Stands C b o
HeadAt-Stands C b s o h =
    subst₂ (λ t q. StandsAt C b t q o) (sym h.order_ok.on_side) (sym h.order_ok.at_price)
      (record {
        level = h.level;
        rest = h.rest;
        found = h.found;
        first = h.first;
        level_ok = h.level_ok;
        order_ok = h.order_ok;
      })

module _ (C : Containers) where
  -- The book after consumeOrder and the store of the order's new state.
  abbrev pub fill_book : OrderBook C → Order → ℕ → OrderState → OrderBook C
  fill_book b o q st = write_order C (consume_order C b o q).0 (after_fill o q st)

  pub fill_book-Rewritten :
      (b : OrderBook C) (o : Order) (q : ℕ) (st : OrderState) (at : Stands C b o)
      → Rewritten C b o.side o.price
          (filled_level at.level q (after_fill o q st) at.rest)
          (fill_book b o q st)
  fill_book-Rewritten b o q st at =
      let o1 = record o { remaining = o.remaining - q } in
      let l1 : PriceLevel = record (at.level) {
        aggregated_qty = at.level.aggregated_qty - q;
        orders = write_slot o1 at.level.orders;
      } in
      let r1 = consume_at-Rewritten C b o.side o q at.level at.level_ok.in_range at.found in
      let f1 : lookup o.price (side_of C (consume_at C b o.side o q) o.side) ≡ some l1 =
        rw r1.replaced (
          lookup-write o.price o.price l1 at.level (side_of C b o.side) at.found
          ∙ (rw (==_self o.price))) in
      let r2 =
        write_at-Rewritten C (consume_at C b o.side o q) o.side (after_fill o q st) l1
          at.level_ok.in_range f1 in
      let e : write_slot (after_fill o q st) (write_slot o1 at.level.orders)
          ≡ after_fill o q st ∷ at.rest =
        rw (at.first, write_slot_first o1 o at.rest refl)
          (write_slot_first (after_fill o q st) o1 at.rest refl) in
      subst
        (λ (os : List Order).
          Rewritten C b o.side o.price
            (record (at.level) { aggregated_qty = at.level.aggregated_qty - q; orders = os })
            (fill_book b o q st))
        e (Rewritten-trans C r1 r2)

  write-BestOk :
      (s : Side) (best : Option ℕ) (p : ℕ) (l u : PriceLevel) (m : List (ℕ × PriceLevel))
      → lookup p m ≡ some u
      → BestOk s best m
      → BestOk s best (write p l m)
  write-BestOk s none p l u m f h = rw h
  write-BestOk s (some q) p l u m f ((old, g), all) = (
    elim (Bool-cases (p == q)) [
      | inl e ↦ (l, lookup-write p q l u m f ∙ (rw e))
      | inr e ↦ (old, lookup-write p q l u m f ∙ (rw e g))
    ],
    All-write (λ (e : ℕ × PriceLevel). NoBetter s q e.0) p l m
        (All-lookup (λ (e : ℕ × PriceLevel). NoBetter s q e.0) p u m f all) all,
  )

  pub same_best :
      {b b' : OrderBook C} {s : Side} {p : ℕ} {l : PriceLevel}
      → Rewritten C b s p l b'
      → (t : Side) → best_of C b' t ≡ best_of C b t
  same_best r buy = r.same_bid
  same_best r sell = r.same_ask

  filled_level-LevelOk :
      (b : OrderBook C) (o : Order) (q : ℕ) (st : OrderState) (at : Stands C b o)
      → q < o.remaining
      → LevelOk o.side (o.price, filled_level at.level q (after_fill o q st) at.rest)
  filled_level-LevelOk b o q st at h =
      let all : All (OrderOk o.side o.price) (o ∷ at.rest) =
        subst (All (OrderOk o.side o.price)) at.first at.level_ok.all_ok in
      record {
        priced = at.level_ok.priced;
        in_range = at.level_ok.in_range;
        occupied = λ e. cc;
        covered = omega (arith, at.level_ok.covered, ap sum_remaining at.first);
        all_ok = (
          record {
            on_side = refl;
            at_price = refl;
            open_quantity = omega arith;
            within = omega (arith, at.order_ok.within);
            is_limit = at.order_ok.is_limit;
          },
          all.1,
        );
      }

  -- A fill that leaves something of the resting order keeps the invariant.
  pub fill_book-Valid :
      {held : ℕ} (b : OrderBook C) (o : Order) (q : ℕ) (st : OrderState)
      → Valid C held b
      → Stands C b o
      → q < o.remaining
      → Valid C held (fill_book b o q st)
  fill_book-Valid b o q st v at h =
      let r = fill_book-Rewritten b o q st at in
      let l = filled_level at.level q (after_fill o q st) at.rest in
      let m = side_of C b o.side in
      let side = Valid-side C v o.side in
      Valid-from_side C o.side
        (record {
          levels = rw r.replaced (
              All-write (LevelOk o.side) o.price l m (filled_level-LevelOk b o q st at h)
                side.levels);
          best_ok =
              rw (r.replaced, same_best r o.side)
                (write-BestOk o.side (best_of C b o.side) o.price l at.level m at.found
                  side.best_ok);
        })
        (rw (r.untouched, same_best r (opposite o.side)) (Valid-side C v (opposite o.side)))
        (rw (r.same_orders, r.replaced, r.untouched)
          (omega (
            arith,
            Valid-orders C v o.side,
            sum_by-write (λ (x : PriceLevel). length x.orders) o.price l at.level m at.found,
            ap length at.first,
          )))
        (rw (r.same_levels, r.replaced, r.untouched)
          (omega (
            arith,
            Valid-levels C v o.side,
            sum_by-write (λ (x : PriceLevel). 1) o.price l at.level m at.found,
          )))
