-- ===== src/MarketData/CandleBuilder/Good.antt =====
-- The prices of a candle.
use valyrian_stock_exchange.Prelude.{
  ℕ, ◌+◌, ◌*◌, ◌≤◌, ◌<◌, ◌≡◌, refl, true, ltb, Option, none, some, List, [], ◌∷◌, All, ◌==◌, ◌⊎◌,
  inl, inr, arith, Bool-cases,
}
use valyrian_stock_exchange.MarketData.CandleBuilder.{
  Candle, CandleBuilder, Trade, windows, opened, extended, in_window, on_window, put_candle,
  add_closed, on_windows, on_trade,
}

-- An open candle has its first and its last price between its lowest and its highest one.
abbrev pub Good : Candle → Type 0
Good c = (c.low ≤ c.open_price) × (c.open_price ≤ c.high) × (c.low ≤ c.close) × (c.close ≤ c.high)

abbrev pub GoodIfOpen : Candle → Type 0
GoodIfOpen c = (c.open_ns ≡ 0) ⊎ Good c

abbrev pub AllGood : CandleBuilder → Type 0
AllGood b = (i : ℕ) → GoodIfOpen (b.candles i)

Good-extended : (c : Candle) (t : Trade) → Good c → Good (extended c t)
Good-extended c t h = ground (arith, h.0, h.1, h.2, h.3)

abbrev GoodClosed : Option Candle → Type 0
GoodClosed none = Unit
GoodClosed (some c) = Good c

Good-opened : (t : Trade) (seconds : ℕ) → Good (opened t seconds)
Good-opened t seconds = (omega arith, omega arith, omega arith, omega arith)

on_window-Good :
    (c : Candle) (seconds : ℕ) (t : Trade)
    → GoodIfOpen c
    → GoodIfOpen (on_window c seconds t).0 × GoodClosed (on_window c seconds t).1
unfolding on_window
on_window-Good c seconds t (inl fresh) = rw (on_window, fresh) (inr (Good-opened t seconds), tt)
on_window-Good c seconds t (inr good) = elim (Bool-cases (c.open_ns == 0)) [
  | inl fresh ↦ rw (on_window, fresh) (inr (Good-opened t seconds), tt)
  | inr open_now ↦ elim (Bool-cases (in_window c seconds t.ts)) [
    | inl inside ↦ rw (on_window, open_now, inside) (inr (Good-extended c t good), tt)
    | inr over ↦ rw (on_window, open_now, over) (inr (Good-opened t seconds), good)
  ]
]

put_candle-AllGood :
    (b : CandleBuilder) (i : ℕ) (c : Candle) → AllGood b → GoodIfOpen c → AllGood (put_candle b i c)
put_candle-AllGood b i c h g j = elim (Bool-cases (j == i)) [
  | inl here ↦ rw here g
  | inr away ↦ rw away (h j)
]

add_closed-Good :
    (done : Option Candle) (closed : List Candle)
    → GoodClosed done
    → All Good closed
    → All Good (add_closed done closed)
add_closed-Good none closed g h = h
add_closed-Good (some c) closed g h = (g, h)

on_windows-Good :
    (b : CandleBuilder) (i : ℕ) (seconds : List ℕ) (t : Trade)
    → AllGood b
    → All Good (on_windows b i seconds t).0 × AllGood (on_windows b i seconds t).1
unfolding on_windows
on_windows-Good b i [] t h = (tt, h)
on_windows-Good b i (s ∷ rest) t h =
    let (now, done) = on_window-Good (b.candles i) s t (h i) in
    let b1 = put_candle b i (on_window (b.candles i) s t).0 in
    let (closed, after) =
      on_windows-Good b1 (i + 1) rest t
        (put_candle-AllGood b i (on_window (b.candles i) s t).0 h now) in
    (add_closed-Good (on_window (b.candles i) s t).1 _ done closed, after)

pub on_windows-size :
    (b : CandleBuilder) (i : ℕ) (seconds : List ℕ) (t : Trade)
    → (on_windows b i seconds t).1.size ≡ b.size
unfolding on_windows
on_windows-size b i [] t = refl
on_windows-size b i (s ∷ rest) t =
    on_windows-size (put_candle b i (on_window (b.candles i) s t).0) (i + 1) rest t

-- If every open candle has its first and its last price between its lowest and its highest one, then
-- so it is after any trade of a symbol that has candles, and for the candles that the trade closes.
pub on_trade-Good :
    (b : CandleBuilder) (t : Trade)
    → t.symbol_id * 3 + 2 < b.size
    → AllGood b
    → (closed : List Candle) × (b' : CandleBuilder) × (on_trade b t ≡ some (closed, b'))
      × (b'.size ≡ b.size)
      × All Good closed
      × AllGood b'
unfolding on_trade
on_trade-Good b t inside h =
    let (closed, after) = on_windows-Good b (t.symbol_id * 3) windows t h in
    let there : ltb (t.symbol_id * 3 + 2) b.size ≡ true = ground arith in
    (
      (on_windows b (t.symbol_id * 3) windows t).0,
      (on_windows b (t.symbol_id * 3) windows t).1,
      rw (on_trade, there) refl,
      on_windows-size b (t.symbol_id * 3) windows t,
      closed,
      after,
    )
