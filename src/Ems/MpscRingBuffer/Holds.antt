-- ===== src/Ems/MpscRingBuffer/Holds.antt =====
-- What a ring holds: the orders published and not yet given back, oldest first.
use valyrian_stock_exchange.Prelude.{
  ℕ, suc, ◌+◌, ◌-◌, ◌^◌, ◌≤◌, ◌<◌, ◌≡◌, true, false, List, [], ◌∷◌, length, ◌==◌, arith, Bool-cases,
  inl, inr, if◌then◌else◌,
}
use valyrian_stock_exchange.Ems.Types.{OrderSlot}
use valyrian_stock_exchange.Ems.Disruptor.{Disruptor, before}
use valyrian_stock_exchange.Ems.MpscRingBuffer.{is_available, not_before}

module _ (D : Disruptor) where
  -- From sequence `i` on the buffer has these orders published, and nothing after them.
  abbrev pub From : D.Buffer → ℕ → List OrderSlot → Type 0
  From b i [] = D.claimed b ≡ i
  From b i (s ∷ rest) = (D.is_published b i ≡ true) × (D.read b i ≡ s) × From b (suc i) rest

  -- `next` is the ring sequence of the consumer.
  pub record Holds (b : D.Buffer) (next : ℕ) (orders : List OrderSlot) : Type 0 where
    pub starts : 0 < next
    pub released : D.released b + 1 ≡ next
    pub fits : length orders ≤ D.size b
    pub from : From b (D.released b) orders
    pub fresh : (i : ℕ) → D.claimed b ≤ i → D.is_published b i ≡ false

  pub From-claimed :
      (b : D.Buffer) (i : ℕ) (orders : List OrderSlot)
      → From b i orders
      → D.claimed b ≡ i + length orders
  From-claimed b i [] h = omega arith
  From-claimed b i (s ∷ rest) h = omega (arith, From-claimed b (suc i) rest h.2)

  -- The last sequence before `i`, as isAvailable computes it.
  last_known : (i : ℕ) → i < 2 ^ 62 → (if i == 0 then 2 ^ 64 - 1 else before i) ≡ before i
  last_known i small = ground arith

  pub before-suc : (i : ℕ) → i < 2 ^ 62 → before (i + 1) ≡ i
  before-suc i small = omega arith

  not_before-before : (i : ℕ) → i < 2 ^ 62 → not_before (before i) i ≡ false
  not_before-before i small = ground arith

  not_before-later : (i m : ℕ) → i < 2 ^ 62 → i ≤ m → m < i + 2 ^ 62 → not_before m i ≡ true
  not_before-later i m small le lt = ground arith

  available_by :
      (b : D.Buffer) (i : ℕ)
      → i < 2 ^ 62
      → is_available D b (i + 1) ≡ not_before (D.last_published_after b (before i)) i
  unfolding is_available
  available_by b i small = rw (before-suc i small, last_known i small) (ground arith)

  pub is_available_lem :
      (b : D.Buffer) (i : ℕ)
      → i < 2 ^ 62
      → D.claimed b ≤ i + D.size b
      → is_available D b (i + 1) ≡ D.is_published b i
  is_available_lem b i small near = elim (Bool-cases (D.is_published b i)) [
    | inl is ↦
        let (m, le, lt, e) = D.last_published_after-some b i small is near in
        rw (available_by b i small, e, is) (not_before-later i m small le lt)
    | inr isnt ↦
        rw (available_by b i small, D.last_published_after-none b i small isnt, isnt)
          (not_before-before i small)
  ]
