-- ===== src/Ems/IngressWorker/FromQueue.antt =====
-- A worker takes the orders from its queue.
use valyrian_stock_exchange.Prelude.{
  ℕ, ◌≡◌, refl, ◌∙◌, Option, none, some, Option-cases, inl, inr, List, [], ◌∷◌, ◌++◌,
}
use valyrian_stock_exchange.Ems.Types.{RawOrder}
use valyrian_stock_exchange.Ems.Disruptor.{Disruptor}
use valyrian_stock_exchange.Ems.Spsc.{Spsc}
use valyrian_stock_exchange.Ems.OrderQueue
use valyrian_stock_exchange.Ems.Dispatcher.{Handlers}
use valyrian_stock_exchange.Ems.IngressWorker.{
  Ingress, Intake, idle, taken, blocked, undefined, ingest, work,
}
use valyrian_stock_exchange.Ems.IngressWorker.Judge.{after_intake, ingest_all}

-- The orders without the times at which they are checked, and the times.
abbrev pub orders_of : List (RawOrder × ℕ) → List RawOrder
orders_of [] = []
orders_of ((o, now) ∷ orders) = o ∷ orders_of orders

abbrev pub times_of : List (RawOrder × ℕ) → List ℕ
times_of [] = []
times_of ((o, now) ∷ orders) = now ∷ times_of orders

module _ {D : Disruptor} {H : Handlers} (Q : Spsc RawOrder) where
  abbrev pub after_work : Intake (Ingress D H × Q.Queue) → Option (Ingress D H × Q.Queue)
  after_work idle = none
  after_work (taken next) = some next
  after_work (blocked next) = none
  after_work undefined = none

  -- Iterations that each deal with an order, one for every reading of the clock; `none`: one of them
  -- does not.
  unfoldable pub work_all : Ingress D H → Q.Queue → List ℕ → Option (Ingress D H × Q.Queue)
  unfolding work
  work_all w q [] = some (w, q)
  work_all w q (now ∷ nows) = elim (after_work (work Q w q now)) [
    | none ↦ none
    | some (w', q') ↦ work_all w' q' nows
  ]

  after_intake-taken :
      (i : Intake (Ingress D H)) (w : Ingress D H) → after_intake i ≡ some w → i ≡ taken w
  after_intake-taken idle w h = absurd (cc)
  after_intake-taken (taken w') w h = cc
  after_intake-taken (blocked w') w h = absurd (cc)
  after_intake-taken undefined w h = absurd (cc)

  -- An order that is dealt with leaves the queue, and those behind it stay.
  pub work-taken :
      (w w' : Ingress D H) (q : Q.Queue) (o : RawOrder) (rest : List RawOrder) (now : ℕ)
      → Q.contents q ≡ o ∷ rest
      → ingest w o now ≡ taken w'
      → (q' : Q.Queue) × (work Q w q now ≡ taken (w', q')) × (Q.contents q' ≡ rest)
  unfolding work OrderQueue.pop OrderQueue.release_slot
  work-taken w w' q o rest now holds e =
      (Q.pop q, rw (work, Q.front-some q o rest holds, e) refl, (Q.pop_lem q o rest holds).0)

  work_all-step :
      (w w' : Ingress D H) (q q' : Q.Queue) (now : ℕ) (nows : List ℕ)
      → work Q w q now ≡ taken (w', q')
      → work_all w q (now ∷ nows) ≡ work_all w' q' nows
  unfolding work_all
  work_all-step w w' q q' now nows e = rw (work_all, e) refl

  -- What the orders at the front of the queue lead to is what they lead to as a list, and they are
  -- gone from the queue.
  pub work_all-ingest_all :
      (w w' : Ingress D H) (q : Q.Queue) (orders : List (RawOrder × ℕ)) (behind : List RawOrder)
      → Q.contents q ≡ orders_of orders ++ behind
      → ingest_all w orders ≡ some w'
      → (q' : Q.Queue) × (work_all w q (times_of orders) ≡ some (w', q')) × (Q.contents q' ≡ behind)
  unfolding work_all ingest_all
  work_all-ingest_all w w' q [] behind holds e = (q, cc, holds)
  work_all-ingest_all w w' q ((o, now) ∷ orders) behind holds e =
      elim (Option-cases (after_intake (ingest w o now))) [
        | inl stopped ↦ let failed : none ≡ some w' = rw (ingest_all, stopped) at e in absurd (cc)
        | inr (w1, went) ↦
            let dealt = after_intake-taken (ingest w o now) w1 went in
            let (q1, worked, holds1) =
              work-taken w w1 q o (orders_of orders ++ behind) now holds dealt in
            let e1 : ingest_all w1 orders ≡ some w' = rw (ingest_all, went) at e in
            let (q', all, left) = work_all-ingest_all w1 w' q1 orders behind holds1 e1 in
            (q', work_all-step w w1 q q1 now (times_of orders) worked ∙ all, left)
      ]
