-- ===== src/MarketData/CandleBuilder/Volume.antt =====
-- The volume of the trades in the candles.
use valyrian_stock_exchange.Prelude.{
  ℕ, ◌+◌, ◌*◌, ◌<◌, ◌≡◌, refl, ap, ◌∙◌, false, Option, none, some, List, [], ◌∷◌, length, ◌==◌,
  ==_self, ◌≤◌, ◌⊎◌, ltb, true, inl, inr, arith, if◌then◌else◌, Bool-cases,
}
use valyrian_stock_exchange.MarketData.CandleBuilder.{
  Candle, CandleBuilder, Trade, windows, in_window, on_window, put_candle, add_closed, on_windows,
  on_trade,
}

-- An open candle counts with its volume, and a closed one too.
abbrev pub volume_of : Candle → ℕ
volume_of c = if c.open_ns == 0 then 0 else c.volume

abbrev pub volume_of_closed : List Candle → ℕ
volume_of_closed [] = 0
volume_of_closed (c ∷ closed) = c.volume + volume_of_closed closed

-- The candles from index `i` on, as many as there are windows
abbrev pub volume_from : CandleBuilder → ℕ → List ℕ → ℕ
volume_from b i [] = 0
volume_from b i (seconds ∷ rest) = volume_of (b.candles i) + volume_from b (i + 1) rest

abbrev volume_of_option : Option Candle → ℕ
volume_of_option none = 0
volume_of_option (some c) = c.volume

on_window-volume :
    (c : Candle) (seconds : ℕ) (t : Trade)
    → 0 < t.ts
    → volume_of (on_window c seconds t).0 + volume_of_option (on_window c seconds t).1
      ≡ volume_of c + t.qty
unfolding on_window
on_window-volume c seconds t pos = elim (Bool-cases (c.open_ns == 0)) [
  | inl fresh ↦ rw (on_window, fresh) (ground (arith, fresh))
  | inr open_now ↦ elim (Bool-cases (in_window c seconds t.ts)) [
    | inl inside ↦ rw (on_window, open_now, inside, open_now) (ground (arith, open_now))
    | inr over ↦ rw (on_window, open_now, over) (ground (arith, open_now))
  ]
]

volume_from-put :
    (b : CandleBuilder) (i j : ℕ) (c : Candle) (seconds : List ℕ)
    → i < j
    → volume_from (put_candle b i c) j seconds ≡ volume_from b j seconds
volume_from-put b i j c [] lt = refl
volume_from-put b i j c (s ∷ rest) lt =
    let away : (j == i) ≡ false = ground arith in
    rw (away, volume_from-put b i (j + 1) c rest (omega arith)) refl

on_windows-before :
    (b : CandleBuilder) (i j : ℕ) (seconds : List ℕ) (t : Trade)
    → i < j
    → (on_windows b j seconds t).1.candles i ≡ b.candles i
unfolding on_windows
on_windows-before b i j [] t lt = refl
on_windows-before b i j (s ∷ rest) t lt =
    let away : (i == j) ≡ false = ground arith in
    let b1 = put_candle b j (on_window (b.candles j) s t).0 in
    on_windows-before b1 i (j + 1) rest t (omega arith) ∙ rw away refl

add_closed-volume :
    (done : Option Candle) (closed : List Candle)
    → volume_of_closed (add_closed done closed) ≡ volume_of_option done + volume_of_closed closed
add_closed-volume none closed = omega arith
add_closed-volume (some c) closed = refl

on_windows-volume :
    (b : CandleBuilder) (i : ℕ) (seconds : List ℕ) (t : Trade)
    → 0 < t.ts
    → volume_from (on_windows b i seconds t).1 i seconds
        + volume_of_closed (on_windows b i seconds t).0
      ≡ volume_from b i seconds + length seconds * t.qty
unfolding on_windows
on_windows-volume b i [] t pos = omega arith
on_windows-volume b i (s ∷ rest) t pos =
    let w = on_window (b.candles i) s t in
    let b1 = put_candle b i w.0 in
    let b' = (on_windows b1 (i + 1) rest t).1 in
    let later = on_windows-volume b1 (i + 1) rest t pos in
    let now = on_window-volume (b.candles i) s t pos in
    let others = volume_from-put b i (i + 1) w.0 rest (omega arith) in
    let put_here : b1.candles i ≡ w.0 = rw (==_self i) refl in
    let here : volume_of (b'.candles i) ≡ volume_of w.0 =
      ap volume_of (on_windows-before b1 i (i + 1) rest t (omega arith) ∙ put_here) in
    let closed = add_closed-volume w.1 (on_windows b1 (i + 1) rest t).0 in
    omega (arith, later, now, others, here, closed)

-- The candle is one of those that the trade closes.
abbrev pub IsClosed : Candle → List Candle → Type 0
IsClosed c [] = ⊥
IsClosed c (d ∷ closed) = (c ≡ d) ⊎ IsClosed c closed

-- From the candle of a window to the one after a trade: it counts the trade too, or it is closed and
-- the new one counts the trade alone.
abbrev pub Counts : Candle → Candle → ℕ → List Candle → Type 0
Counts c c' qty closed =
    (volume_of c' ≡ volume_of c + qty)
    ⊎ ((volume_of c' ≡ qty) × ((c.open_ns == 0) ≡ false) × IsClosed c closed)

-- So it is for the candle of every window, from index `i` on.
abbrev pub EachCounts : CandleBuilder → CandleBuilder → ℕ → List ℕ → ℕ → List Candle → Type 0
EachCounts b b' i [] qty closed = Unit
EachCounts b b' i (seconds ∷ rest) qty closed =
    Counts (b.candles i) (b'.candles i) qty closed × EachCounts b b' (i + 1) rest qty closed

IsClosed-add_closed :
    (c : Candle) (last : Option Candle) (closed : List Candle)
    → IsClosed c closed
    → IsClosed c (add_closed last closed)
IsClosed-add_closed c none closed h = h
IsClosed-add_closed c (some d) closed h = inr h

Counts-add_closed :
    (c c' : Candle) (qty : ℕ) (last : Option Candle) (closed : List Candle)
    → Counts c c' qty closed
    → Counts c c' qty (add_closed last closed)
Counts-add_closed c c' qty last closed (inl same) = inl same
Counts-add_closed c c' qty last closed (inr (alone, open_before, h)) =
    inr (alone, open_before, IsClosed-add_closed c last closed h)

on_window-Counts :
    (c : Candle) (seconds : ℕ) (t : Trade) (closed : List Candle)
    → 0 < t.ts
    → Counts c (on_window c seconds t).0 t.qty (add_closed (on_window c seconds t).1 closed)
unfolding on_window
on_window-Counts c seconds t closed pos = elim (Bool-cases (c.open_ns == 0)) [
  | inl fresh ↦ rw (on_window, fresh) (inl (ground (arith, fresh)))
  | inr open_now ↦ elim (Bool-cases (in_window c seconds t.ts)) [
    | inl inside ↦ rw (on_window, open_now, inside) (inl (ground (arith, open_now)))
    | inr over ↦ rw (on_window, open_now, over) (inr (ground arith, refl, inl refl))
  ]
]

-- The candles of later windows do not depend on the one written now.
EachCounts-put_candle :
    (b b' : CandleBuilder) (i j : ℕ) (c : Candle) (seconds : List ℕ) (qty : ℕ)
    (last : Option Candle) (closed : List Candle)
    → i < j
    → EachCounts (put_candle b i c) b' j seconds qty closed
    → EachCounts b b' j seconds qty (add_closed last closed)
EachCounts-put_candle b b' i j c [] qty last closed lt h = tt
EachCounts-put_candle b b' i j c (s ∷ rest) qty last closed lt h =
    let away : (j == i) ≡ false = ground arith in
    let now : Counts (b.candles j) (b'.candles j) qty closed = rw away at h.0 in
    (
      Counts-add_closed (b.candles j) (b'.candles j) qty last closed now,
      EachCounts-put_candle b b' i (j + 1) c rest qty last closed (omega arith) h.1,
    )

on_windows-EachCounts :
    (b : CandleBuilder) (i : ℕ) (seconds : List ℕ) (t : Trade)
    → 0 < t.ts
    → EachCounts b (on_windows b i seconds t).1 i seconds t.qty (on_windows b i seconds t).0
unfolding on_windows
on_windows-EachCounts b i [] t pos = tt
on_windows-EachCounts b i (s ∷ rest) t pos =
    let w = on_window (b.candles i) s t in
    let b1 = put_candle b i w.0 in
    let later = on_windows b1 (i + 1) rest t in
    let put_here : b1.candles i ≡ w.0 = rw (==_self i) refl in
    let here : later.1.candles i ≡ w.0 =
      on_windows-before b1 i (i + 1) rest t (omega arith) ∙ put_here in
    (
      rw here (on_window-Counts (b.candles i) s t later.0 pos),
      EachCounts-put_candle b later.1 i (i + 1) w.0 rest t.qty w.1 later.0 (omega arith)
          (on_windows-EachCounts b1 (i + 1) rest t pos),
    )

on_windows-after :
    (b : CandleBuilder) (i j : ℕ) (seconds : List ℕ) (t : Trade)
    → i + length seconds ≤ j
    → (on_windows b i seconds t).1.candles j ≡ b.candles j
unfolding on_windows
on_windows-after b i j [] t le = refl
on_windows-after b i j (s ∷ rest) t le =
    let away : (j == i) ≡ false = ground (arith, le) in
    let b1 = put_candle b i (on_window (b.candles i) s t).0 in
    on_windows-after b1 (i + 1) j rest t (omega (arith, le)) ∙ rw away refl

-- What a trade does to the volumes.
pub record Volumes (b : CandleBuilder) (t : Trade) : Type 0 where
  pub closed : List Candle
  pub after : CandleBuilder
  pub returned : on_trade b t ≡ some (closed, after)
  pub each : EachCounts b after (t.symbol_id * 3) windows t.qty closed
  pub total :
      volume_from after (t.symbol_id * 3) windows + volume_of_closed closed
      ≡ volume_from b (t.symbol_id * 3) windows + 3 * t.qty
  pub below : (j : ℕ) → j < t.symbol_id * 3 → after.candles j ≡ b.candles j
  pub above : (j : ℕ) → t.symbol_id * 3 + 3 ≤ j → after.candles j ≡ b.candles j

-- A trade at a time other than zero, of a symbol that has candles, is counted once in each of the
-- three windows: the volume of the window's candle grows by the quantity of the trade, or the candle
-- is open before, it is among those closed, and the new one has the quantity as its volume. No volume
-- is lost: that of the symbol's candles after the trade and of the closed ones is the volume before
-- and three times the quantity. The candles of the other symbols are as they were.
pub on_trade-Volumes :
    (b : CandleBuilder) (t : Trade) → 0 < t.ts → t.symbol_id * 3 + 2 < b.size → Volumes b t
unfolding on_trade
on_trade-Volumes b t pos inside =
    let i = t.symbol_id * 3 in
    let there : ltb (i + 2) b.size ≡ true = ground arith in
    record {
      closed = (on_windows b i windows t).0;
      after = (on_windows b i windows t).1;
      returned = rw (on_trade, there) refl;
      each = on_windows-EachCounts b i windows t pos;
      total = on_windows-volume b i windows t pos;
      below = λ j lt. on_windows-before b j i windows t lt;
      above = λ j le. on_windows-after b i j windows t le;
    }
