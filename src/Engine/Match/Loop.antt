-- ===== src/Engine/Match/Loop.antt =====
-- The loop of MatchingEngine::match on a valid book.
use mathlib.Core.Path.{subst}
use valyrian_stock_exchange.Prelude.{ℕ, zero, suc, ◌≤◌, ◌<◌, ◌≡◌, refl, ap, ◌∙◌, arith}
use valyrian_stock_exchange.CoreTypes.{Side, Order}
use valyrian_stock_exchange.Containers.{Containers}
use valyrian_stock_exchange.OrderBook.Valid.{Valid}
use valyrian_stock_exchange.Engine.State.{Engine, Run, done, terminated}
use valyrian_stock_exchange.Engine.Match.{Round, stops, goes_on, dies, match_round, match_loop}
use valyrian_stock_exchange.Engine.Match.Progress.{
  OtherKept, rounds_left, Advances, Stopped, RoundOk, match_round-RoundOk,
}

module _ {C : Containers} where
  -- The end of matching: `o'` is what is left of the order `o`, and the loop has a reason to stop.
  pub record Matched (e : Engine C) (o : Order) (e' : Engine C) (o' : Order) : Type 0 where
    pub valid : Valid C 1 e'.book
    pub same : o' ≡ record o { remaining = o'.remaining; state = o'.state }
    pub less : o'.remaining ≤ o.remaining
    pub kept : OtherKept e.book o.side e'.book
    pub stopped : Stopped e' o'

  Advances-Matched :
      {e e1 e' : Engine C} {o o1 o' : Order}
      → Advances e o e1 o1
      → Matched e1 o1 e' o'
      → Matched e o e' o'
  Advances-Matched {e} {e1} {e'} {o} {o1} {o'} a m =
      let side : o1.side ≡ o.side = ap (λ (x : Order). x.side) a.same in
      let kept : OtherKept e1.book o.side e'.book =
        subst (λ (s : Side). OtherKept e1.book s e'.book) side m.kept in
      record {
        valid = m.valid;
        same =
            m.same
            ∙ ap (λ (x : Order). record x { remaining = o'.remaining; state = o'.state }) a.same;
        less = omega (arith, a.less, m.less);
        kept = record {
          own_side = kept.own_side ∙ a.kept.own_side;
          own_best = kept.own_best ∙ a.kept.own_best;
        };
        stopped = m.stopped;
      }

  -- The result of a run that returned.
  pub record Returns (e : Engine C) (o : Order) (r : Run (Engine C) Order) : Type 0 where
    pub engine : Engine C
    pub order : Order
    pub returned : r ≡ done engine order
    pub matched : Matched e o engine order

  -- From a valid book on which one order is in flight, and with more fuel than the orders of the
  -- other side plus one (plus none, if nothing is left of the incoming order), the matching loop
  -- returns. The book is valid again; of the incoming order only the remaining quantity, which does
  -- not grow, and the state have changed; its own side of the book is as before; and the loop ended
  -- because nothing is left of the order, the other side is empty, or the best order of the other
  -- side is beyond the order's limit.
  pub match_loop-Returns :
      (fuel : ℕ) (e : Engine C) (o : Order) (ts : ℕ)
      → Valid C 1 e.book
      → rounds_left e o < fuel
      → Returns e o (match_loop fuel e o ts)
  unfolding match_loop
  match_loop-Returns zero e o ts v h = absurd (omega arith)
  match_loop-Returns (suc fuel) e o ts v h =
      go (match_round e o ts) (match_round-RoundOk e o ts v)
        (λ e1 o1. match_loop-Returns fuel e1 o1 ts)
    where
      go :
          (r : Round C)
          → RoundOk e o r
          → ((e1 : Engine C) (o1 : Order)
              → Valid C 1 e1.book
              → rounds_left e1 o1 < fuel
              → Returns e1 o1 (match_loop fuel e1 o1 ts))
          → Returns e o (elim r [
            | stops e' o' ↦ done e' o'
            | goes_on e' o' ↦ match_loop fuel e' o' ts
            | dies ↦ terminated
          ])
      go (stops e' o') (pe, po, why) ih = record {
        engine = e;
        order = o;
        returned = cc;
        matched = record {
          valid = v;
          same = refl;
          less = omega arith;
          kept = record { own_side = refl; own_best = refl };
          stopped = why;
        };
      }
      go (goes_on e1 o1) a ih =
          let rest = ih e1 o1 a.valid (omega (arith, a.fewer)) in
          record {
            engine = rest.engine;
            order = rest.order;
            returned = rest.returned;
            matched = Advances-Matched a rest.matched;
          }
      go dies no_way ih = absurd no_way
