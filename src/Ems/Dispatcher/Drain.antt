-- ===== src/Ems/Dispatcher/Drain.antt =====
-- A backlog worked off.
use valyrian_stock_exchange.Prelude.{
  ℕ, ◌+◌, ◌≡◌, refl, ap, ◌∙◌, Option, none, some, List, [], ◌∷◌, length, arith, Option-cases, inl,
  inr,
}
use valyrian_stock_exchange.Ems.Types.{OrderSlot}
use valyrian_stock_exchange.Ems.Disruptor.{Disruptor}
use valyrian_stock_exchange.Ems.Dispatcher.{Handlers, Lane, deliver, after_turn, turn, run}
use valyrian_stock_exchange.Ems.Dispatcher.Backlog.{Backlog, turn-turned_down, turn-passed}
use valyrian_stock_exchange.Ems.Dispatcher.Items.{Item, turned_down, passed}

module _ (H : Handlers) where
  -- The specification: the engine gets the orders that passed, one after the other. An item goes
  -- with each reading of the clock; `none`: the engine ended the process.
  unfoldable pub deliver_all : H.State → List Item → List ℕ → Option H.State
  deliver_all engine [] nows = some engine
  deliver_all engine (item ∷ items) [] = some engine
  deliver_all engine (turned_down ∷ items) (now ∷ nows) = deliver_all engine items nows
  deliver_all engine (passed s ∷ items) (now ∷ nows) = elim (deliver H engine s now) [
    | none ↦ none
    | some engine' ↦ deliver_all engine' items nows
  ]

  deliver_all-passed :
      (engine next : H.State) (s : OrderSlot) (items : List Item) (now : ℕ) (nows : List ℕ)
      (last : H.State)
      → deliver H engine s now ≡ some next
      → deliver_all engine (passed s ∷ items) (now ∷ nows) ≡ some last
      → deliver_all next items nows ≡ some last
  unfolding deliver_all
  deliver_all-passed engine next s items now nows last took e = rw (deliver_all, took) at e

module _ {D : Disruptor} {H : Handlers} where
  -- The dispatcher is at the end of its backlog, and the engine is this one.
  pub record Drained (l l' : Lane D H) (count : ℕ) (engine : H.State) : Type 0 where
    pub done : Backlog l' []
    pub engine_is : l'.engine ≡ engine
    pub counted : l'.next_server_sequence ≡ l.next_server_sequence + count

  run-step :
      (l l' : Lane D H) (now : ℕ) (nows : List ℕ)
      → after_turn l (turn l now) ≡ some l'
      → run l (now ∷ nows) ≡ run l' nows
  unfolding run
  run-step l l' now nows e = rw (run, e) refl

  -- Let a backlog stand in front of the dispatcher. If the loop runs as many times as there are
  -- items, and the engine, given the orders that passed in the sequence of their numbers, does not
  -- end the process, then afterwards the backlog is empty, the engine is in the state in which these
  -- calls leave it, and the next server sequence has moved on by the number of items.
  pub run-Drained :
      (l : Lane D H) (items : List Item) (nows : List ℕ) (engine : H.State)
      → Backlog l items
      → length nows ≡ length items
      → deliver_all H l.engine items nows ≡ some engine
      → (l' : Lane D H) × (run l nows ≡ some l') × Drained l l' (length items) engine
  unfolding run deliver_all
  run-Drained l [] [] engine h len e =
      (l, refl, record { done = h; engine_is = cc; counted = omega arith })
  run-Drained l [] (now ∷ nows) engine h len e = absurd (omega (arith, len))
  run-Drained l (item ∷ items) [] engine h len e = absurd (omega (arith, len))
  run-Drained l (turned_down ∷ items) (now ∷ nows) engine h len e =
      let (l1, t, h1, same, next) = turn-turned_down l now items h in
      let e1 : deliver_all H l1.engine items nows ≡ some engine = rw same e in
      let (l', r, d) = run-Drained l1 items nows engine h1 (omega (arith, len)) e1 in
      (
        l',
        run-step l l1 now nows (ap (after_turn l) t) ∙ r,
        record { done = d.done; engine_is = d.engine_is; counted = omega (arith, d.counted, next) },
      )
  run-Drained l (passed s ∷ items) (now ∷ nows) engine h len e =
      elim (Option-cases (deliver H l.engine s now)) [
        | inl refused ↦ absurd (cc)
        | inr (engine1, took) ↦
            let (l1, t, h1, same, next) = turn-passed l now s items engine1 h took in
            let e1 : deliver_all H l1.engine items nows ≡ some engine =
              rw same (deliver_all-passed H l.engine engine1 s items now nows engine took e) in
            let (l', r, d) = run-Drained l1 items nows engine h1 (omega (arith, len)) e1 in
            (
              l',
              run-step l l1 now nows (ap (after_turn l) t) ∙ r,
              record {
                done = d.done;
                engine_is = d.engine_is;
                counted = omega (arith, d.counted, next);
              },
            )
      ]
