-- ===== src/Engine/Match/Rounds.antt =====
-- One round of the matching loop on a valid book.
use valyrian_stock_exchange.Prelude.{
  ℕ, ◌+◌, ◌-◌, ◌≤◌, ◌<◌, ◌≡◌, ap, min, Bool, true, false, arith, ◌==◌, if◌then◌else◌,
}
use native.Mathlib.Decide.{dec_lt}
use valyrian_stock_exchange.Prelude.{length}
use valyrian_stock_exchange.Prelude.Assoc.{sum_by-write}
use valyrian_stock_exchange.PriceLevel.{PriceLevel}
use valyrian_stock_exchange.CoreTypes.{Side, opposite, Order, is_filled}
use valyrian_stock_exchange.Outcome.{ok}
use valyrian_stock_exchange.Containers.{Containers}
use valyrian_stock_exchange.OrderBook.{OrderBook, best_of}
use valyrian_stock_exchange.OrderBook.Valid.{Valid, side_of, order_count}
use valyrian_stock_exchange.OrderBook.Fill.{
  after_fill, filled_level, Stands, fill_book, fill_book-Valid, fill_book-Rewritten, same_best,
}
use valyrian_stock_exchange.OrderBook.Drop.{drop_filled-Shrinks}
use valyrian_stock_exchange.Engine.State.{Engine, state_after, update_order_state}
use valyrian_stock_exchange.Engine.Emit.{emit_post_trade_events}
use valyrian_stock_exchange.Engine.Match.{goes_on, execute_trade, drop_filled, trade_with}

-- The incoming order after a trade of `q`.
abbrev pub taken : Order → ℕ → Order
taken o q = update_order_state (record o { remaining = o.remaining - q })

-- The resting order after it.
abbrev pub given : Order → ℕ → Order
given o q = update_order_state (record o { remaining = o.remaining - q })

abbrev pub quantity_traded : Order → Order → ℕ
quantity_traded incoming resting = min incoming.remaining resting.remaining

module _ {C : Containers} where
  pub execute_trade-book :
      (e : Engine C) (a r : Order) (p q : ℕ) → (execute_trade e a r p q).book ≡ e.book
  unfolding execute_trade
  execute_trade-book e a r p q = ground arith

  -- What a trade leaves, once the book after it is known.
  abbrev pub after_trade : Engine C → Order → Order → ℕ → OrderBook C → Engine C
  after_trade e incoming resting action_ts b =
      let q = quantity_traded incoming resting in
      emit_post_trade_events
        (record (execute_trade e incoming resting resting.price q) { book = b }) (taken incoming q)
        (given resting q) resting.price q action_ts

  pub trade_with_shape :
      (e : Engine C) (incoming resting : Order) (action_ts : ℕ) (b : OrderBook C)
      → drop_filled
          (fill_book C e.book resting
            (quantity_traded incoming resting)
            (state_after (resting.remaining - quantity_traded incoming resting) resting.quantity))
          (given resting (quantity_traded incoming resting))
        ≡ ok b
      → trade_with e incoming resting action_ts
        ≡ goes_on
            (after_trade e incoming resting action_ts b)
            (taken incoming (quantity_traded incoming resting))
  unfolding trade_with
  trade_with_shape e incoming resting action_ts b h = rw (
    execute_trade-book e incoming resting resting.price (quantity_traded incoming resting),
    trade_with,
    h,
  )

  -- The book after a fill: the resting order has gone exactly when it was consumed whole.
  pub record Consumed (b : OrderBook C) (s : Side) (whole : Bool) (b' : OrderBook C) : Type 0 where
    pub count :
        order_count (side_of C b' s) + (if whole then 1 else 0) ≡ order_count (side_of C b s)
    pub other_side : side_of C b' (opposite s) ≡ side_of C b (opposite s)
    pub other_best : best_of C b' (opposite s) ≡ best_of C b (opposite s)

  fill_whole :
      {held : ℕ} (b : OrderBook C) (o : Order) (q : ℕ)
      → Valid C held b
      → Stands C b o
      → q ≡ o.remaining
      → (b' : OrderBook C) × (drop_filled
            (fill_book C b o q (state_after (o.remaining - q) o.quantity))
            (given o q)
          ≡ ok b')
        × Valid C held b'
        × Consumed b o.side (q == o.remaining) b'
  unfolding drop_filled
  fill_whole b o q v at h =
      let st = state_after (o.remaining - q) o.quantity in
      let (b', e, v', s) = drop_filled-Shrinks C b o q st v at h in
      let gone : is_filled st ≡ true =
        unfold state_after in ground (arith, at.order_ok.within, at.order_ok.open_quantity) in
      let all : (q == o.remaining) ≡ true = ground arith in
      (
        b',
        rw gone e,
        v',
        record { count = rw all s.one_fewer; other_side = s.other_side; other_best = s.other_best },
      )

  fill_part :
      {held : ℕ} (b : OrderBook C) (o : Order) (q : ℕ)
      → Valid C held b
      → Stands C b o
      → q < o.remaining
      → (b' : OrderBook C) × (drop_filled
            (fill_book C b o q (state_after (o.remaining - q) o.quantity))
            (given o q)
          ≡ ok b')
        × Valid C held b'
        × Consumed b o.side (q == o.remaining) b'
  unfolding drop_filled
  fill_part b o q v at h =
      let st = state_after (o.remaining - q) o.quantity in
      let stays : is_filled st ≡ false = unfold state_after in ground arith in
      let part : (q == o.remaining) ≡ false = ground arith in
      let r = fill_book-Rewritten C b o q st at in
      (
        fill_book C b o q st,
        rw stays,
        fill_book-Valid C b o q st v at h,
        record {
          count =
              rw (part, r.replaced)
                (omega (
                  arith,
                  sum_by-write (λ (x : PriceLevel). length x.orders) o.price
                      (filled_level at.level q (after_fill o q st) at.rest) at.level
                      (side_of C b o.side) at.found,
                  ap length at.first,
                ));
          other_side = r.untouched;
          other_best = same_best C r (opposite o.side);
        },
      )

  pub fill_lem :
      {held : ℕ} (b : OrderBook C) (o : Order) (q : ℕ)
      → Valid C held b
      → Stands C b o
      → q ≤ o.remaining
      → (b' : OrderBook C) × (drop_filled
            (fill_book C b o q (state_after (o.remaining - q) o.quantity))
            (given o q)
          ≡ ok b')
        × Valid C held b'
        × Consumed b o.side (q == o.remaining) b'
  fill_lem b o q v at h = elim (dec_lt q o.remaining) [
    | yes part ↦ fill_part b o q v at part
    | no all ↦ fill_whole b o q v at (omega arith)
  ]
