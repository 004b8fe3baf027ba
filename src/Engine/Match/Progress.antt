-- ===== src/Engine/Match/Progress.antt =====
-- One round of the loop of MatchingEngine::match on a valid book, by its outcomes.
use mathlib.Core.Path.{subst}
use valyrian_stock_exchange.Prelude.{
  ℕ, ◌+◌, ◌≤◌, ◌<◌, ◌≡◌, refl, true, Bool-cases, ◌⊎◌, inl, inr, Option, none, some, [], arith, ◌==◌,
  if◌then◌else◌,
}
use valyrian_stock_exchange.CoreTypes.{Side, buy, sell, opposite, Order, cancelled}
use valyrian_stock_exchange.Containers.{Containers}
use valyrian_stock_exchange.OrderBook.{OrderBook, best_of, get_order_at_best_price}
use valyrian_stock_exchange.OrderBook.Valid.{
  Valid, HeadAt, HeadOk, side_of, Valid-side, order_count,
}
use valyrian_stock_exchange.OrderBook.Views.{get_order_at_best_price-HeadOk}
use valyrian_stock_exchange.OrderBook.First.{remove_first-Shrinks}
use valyrian_stock_exchange.OrderBook.Fill.{HeadAt-Stands}
use valyrian_stock_exchange.Engine.State.{Engine}
use valyrian_stock_exchange.Engine.Emit.{push_book_update, push_cancel_ack}
use valyrian_stock_exchange.Engine.Emit.Frame.{
  SameCore-trans, push_book_update-SameCore, push_cancel_ack-SameCore, push_db_cancel-SameCore,
  emit_post_trade_events-SameCore,
}
use valyrian_stock_exchange.Engine.Match.{
  Round, stops, goes_on, dies, beyond_limit, log_cancel_quietly, execute_trade, prevent_self_trade,
  trade_with, meet, match_round,
}
use valyrian_stock_exchange.Engine.Match.Rounds.{
  taken, given, quantity_traded, trade_with_shape, fill_lem,
}

pub opposite-opposite : (s : Side) → opposite (opposite s) ≡ s
opposite-opposite buy = refl
opposite-opposite sell = refl

module _ {C : Containers} where
  -- The book changed on the side that the incoming order meets, and on no other.
  pub record OtherKept (b : OrderBook C) (s : Side) (b' : OrderBook C) : Type 0 where
    pub own_side : side_of C b' s ≡ side_of C b s
    pub own_best : best_of C b' s ≡ best_of C b s

  -- The rounds that can still come, at most.
  abbrev pub rounds_left : Engine C → Order → ℕ
  rounds_left e o =
      order_count (side_of C e.book (opposite o.side)) + (if o.remaining == 0 then 0 else 1)

  pub record Advances (e : Engine C) (o : Order) (e' : Engine C) (o' : Order) : Type 0 where
    pub valid : Valid C 1 e'.book
    pub fewer : rounds_left e' o' < rounds_left e o
    pub same : o' ≡ record o { remaining = o'.remaining; state = o'.state }
    pub less : o'.remaining ≤ o.remaining
    pub kept : OtherKept e.book o.side e'.book

  -- Why the loop may stop.
  abbrev pub Stopped : Engine C → Order → Type 0
  Stopped e o =
      (o.remaining ≡ 0)
      ⊎ (side_of C e.book (opposite o.side) ≡ [])
      ⊎ ((resting : Order) × HeadAt (opposite o.side) (best_of C e.book (opposite o.side))
            (side_of C e.book (opposite o.side)) resting
          × (beyond_limit o resting.price ≡ true))

  abbrev pub RoundOk : Engine C → Order → Round C → Type 0
  RoundOk e o (stops e' o') = (e' ≡ e) × (o' ≡ o) × Stopped e o
  RoundOk e o (goes_on e' o') = Advances e o e' o'
  RoundOk e o dies = ⊥

  kept_of :
      {b b' : OrderBook C} (s t : Side)
      → t ≡ opposite s
      → side_of C b' (opposite t) ≡ side_of C b (opposite t)
      → best_of C b' (opposite t) ≡ best_of C b (opposite t)
      → OtherKept b s b'
  kept_of buy t h p q = record { own_side = rw h at p; own_best = rw h at q }
  kept_of sell t h p q = record { own_side = rw h at p; own_best = rw h at q }

  trade_with-RoundOk :
      (e : Engine C) (o r : Order) (ts : ℕ)
      → Valid C 1 e.book
      → HeadAt
          (opposite o.side)
          (best_of C e.book (opposite o.side))
          (side_of C e.book (opposite o.side))
          r
      → 0 < o.remaining
      → RoundOk e o (trade_with e o r ts)
  trade_with-RoundOk e o r ts v h positive =
      let at = HeadAt-Stands C e.book (opposite o.side) r h in
      let q = quantity_traded o r in
      let (b', f, v', c) = fill_lem e.book r q v at (omega arith) in
      let core =
        emit_post_trade_events-SameCore (record (execute_trade e o r r.price q) { book = b' })
          (taken o q) (given r q) r.price q ts in
      let count : order_count (side_of C b' (opposite o.side)) + (if q == r.remaining then 1 else 0)
          ≡ order_count (side_of C e.book (opposite o.side)) =
        subst
          (λ (t : Side).
            order_count (side_of C b' t) + (if q == r.remaining then 1 else 0)
            ≡ order_count (side_of C e.book t))
          h.order_ok.on_side c.count in
      rw (trade_with_shape e o r ts b' f) (record {
        valid = rw core.book v';
        fewer = rw core.book (ground (arith, count, h.order_ok.open_quantity));
        same = refl;
        less = omega arith;
        kept = rw core.book (kept_of o.side r.side h.order_ok.on_side c.other_side c.other_best);
      })

  log_cancel_quietly-book : (e : Engine C) (id : ℕ) → (log_cancel_quietly e id).book ≡ e.book
  unfolding log_cancel_quietly
  log_cancel_quietly-book e id = ground arith

  prevent_self_trade-RoundOk :
      (e : Engine C) (o r : Order) (ts : ℕ)
      → Valid C 1 e.book
      → HeadAt
          (opposite o.side)
          (best_of C e.book (opposite o.side))
          (side_of C e.book (opposite o.side))
          r
      → RoundOk e o (prevent_self_trade e o r ts)
  unfolding prevent_self_trade
  prevent_self_trade-RoundOk e o r ts v h =
      let at = HeadAt-Stands C e.book (opposite o.side) r h in
      let (b', f, v', s) = remove_first-Shrinks C r v at in
      let e1 = record (log_cancel_quietly e r.order_id) { book = b' } in
      let p1 = push_book_update-SameCore e1 ts in
      let p2 =
        push_cancel_ack-SameCore (push_book_update e1 ts) r.order_id r.user_id cancelled r.remaining
          ts in
      let p3 =
        push_db_cancel-SameCore
          (push_cancel_ack (push_book_update e1 ts) r.order_id r.user_id cancelled r.remaining ts)
          r.order_id r.user_id r.side r.type r.price r.quantity r.remaining ts in
      let core = SameCore-trans (SameCore-trans p1 p2) p3 in
      let count : order_count (side_of C b' (opposite o.side)) + 1
          ≡ order_count (side_of C e.book (opposite o.side)) =
        subst (λ (t : Side). order_count (side_of C b' t) + 1 ≡ order_count (side_of C e.book t))
          h.order_ok.on_side s.one_fewer in
      rw (log_cancel_quietly-book e r.order_id, prevent_self_trade, f)
        (record {
          valid = rw core.book v';
          fewer = rw core.book (omega (arith, count));
          same = refl;
          less = omega arith;
          kept = rw core.book (kept_of o.side r.side h.order_ok.on_side s.other_side s.other_best);
        })

  meet-RoundOk :
      (e : Engine C) (o r : Order) (ts : ℕ)
      → Valid C 1 e.book
      → HeadAt
          (opposite o.side)
          (best_of C e.book (opposite o.side))
          (side_of C e.book (opposite o.side))
          r
      → 0 < o.remaining
      → RoundOk e o (meet e o r ts)
  unfolding meet
  meet-RoundOk e o r ts v h positive = elim (Bool-cases (beyond_limit o r.price)) [
    | inl beyond ↦ rw beyond (refl, refl, inr (inr (r, h, beyond)))
    | inr within ↦ elim (Bool-cases (o.user_id == r.user_id)) [
      | inl own ↦ rw (within, own) (prevent_self_trade-RoundOk e o r ts v h)
      | inr others ↦ rw (within, others) (trade_with-RoundOk e o r ts v h positive)
    ]
  ]

  round_at-RoundOk :
      (e : Engine C) (o : Order) (ts : ℕ) (found : Option Order)
      → Valid C 1 e.book
      → HeadOk
          (opposite o.side)
          (best_of C e.book (opposite o.side))
          (side_of C e.book (opposite o.side))
          found
      → 0 < o.remaining
      → RoundOk e o (elim found [ none ↦ stops e o | some resting ↦ meet e o resting ts ])
  round_at-RoundOk e o ts none v h positive = (refl, refl, inr (inl h.1))
  round_at-RoundOk e o ts (some r) v h positive = meet-RoundOk e o r ts v h positive

  -- From a valid book on which one order is in flight, a round of the matching loop either stops it
  -- with nothing changed, because nothing is left of the incoming order, the other side is empty or
  -- its best order is beyond the limit; or it goes on with a valid book, the order's own side
  -- untouched, no more of it remaining, and fewer rounds left to come. It never calls terminate.
  pub match_round-RoundOk :
      (e : Engine C) (o : Order) (ts : ℕ) → Valid C 1 e.book → RoundOk e o (match_round e o ts)
  unfolding match_round
  match_round-RoundOk e o ts v = elim (Bool-cases (o.remaining == 0)) [
    | inl over ↦ rw over (refl, refl, inl (ground arith))
    | inr more ↦ rw more (
        round_at-RoundOk e o ts (get_order_at_best_price C e.book (opposite o.side)) v
          (get_order_at_best_price-HeadOk C e.book (opposite o.side)
            (Valid-side C v (opposite o.side)))
          (ground arith))
  ]
