-- ===== src/MarketData/CandleBuilder.antt =====
-- market_data/CandleBuilder.h and CandleBuilder.cpp: the candles of every symbol over three windows.
-- `on_trade` returns the candles that the trade closes; the text that is made of them is left out.
-- Prices and quantities are the non-negative values of int64_t, and volumes are not bounded.
pub mod Good
pub mod Volume
use valyrian_stock_exchange.Prelude.{
  ℕ, ◌+◌, ◌-◌, ◌*◌, ◌%◌, ◌^◌, Bool, true, false, Option, none, some, List, [], ◌∷◌, ◌==◌, ltb,
  if◌then◌else◌,
}

-- A candle whose `open_ns` is zero has not been opened.
pub record Candle : Type 0 where
  pub open_ns : ℕ
  pub open_price : ℕ
  pub high : ℕ
  pub low : ℕ
  pub close : ℕ
  pub volume : ℕ
  pub symbol_id : ℕ
  pub window_seconds : ℕ

-- `size` is that of the vector.
pub record CandleBuilder : Type 0 where
  pub size : ℕ
  pub candles : ℕ → Candle

pub record Trade : Type 0 where
  pub symbol_id : ℕ
  pub price : ℕ
  pub qty : ℕ
  pub ts : ℕ

abbrev pub windows : List ℕ
windows = 60 ∷ 300 ∷ 900 ∷ []

abbrev pub ns_per_second : ℕ
ns_per_second = 1000000000

abbrev pub blank_candle : Candle
blank_candle = record {
  open_ns = 0;
  open_price = 0;
  high = 0;
  low = 0;
  close = 0;
  volume = 0;
  symbol_id = 0;
  window_seconds = 0;
}

unfoldable pub new_builder : ℕ → CandleBuilder
new_builder num_symbols = record { size = num_symbols * 3; candles = λ i. blank_candle }

abbrev pub opened : Trade → ℕ → Candle
opened t window_seconds = record {
  open_ns = t.ts;
  open_price = t.price;
  high = t.price;
  low = t.price;
  close = t.price;
  volume = t.qty;
  symbol_id = t.symbol_id;
  window_seconds = window_seconds;
}

-- The difference of the times is that of unsigned words.
abbrev pub in_window : Candle → ℕ → ℕ → Bool
in_window c window_seconds ts =
    ltb ((ts + (2 ^ 64 - c.open_ns)) % 2 ^ 64) (window_seconds * ns_per_second)

abbrev pub extended : Candle → Trade → Candle
extended c t = record c {
  high = if ltb c.high t.price then t.price else c.high;
  low = if ltb t.price c.low then t.price else c.low;
  close = t.price;
  volume = c.volume + t.qty;
}

-- One window: the candle after the trade, and the one that the trade closes.
unfoldable pub on_window : Candle → ℕ → Trade → Candle × Option Candle
on_window c window_seconds t =
    if c.open_ns == 0
    then (opened t window_seconds, none)
    else if in_window c window_seconds t.ts
    then (extended c t, none)
    else (opened t window_seconds, some c)

abbrev pub put_candle : CandleBuilder → ℕ → Candle → CandleBuilder
put_candle b i c = record b { candles = λ j. if j == i then c else b.candles j }

abbrev pub add_closed : Option Candle → List Candle → List Candle
add_closed none closed = closed
add_closed (some c) closed = c ∷ closed

-- The loop over the windows, from the one at index `i` on.
unfoldable pub on_windows : CandleBuilder → ℕ → List ℕ → Trade → List Candle × CandleBuilder
unfolding on_window
on_windows b i [] t = ([], b)
on_windows b i (seconds ∷ rest) t =
    let (c, done) = on_window (b.candles i) seconds t in
    let (closed, b') = on_windows (put_candle b i c) (i + 1) rest t in (add_closed done closed, b')

-- `none`: an element past the end of the vector is used, and the behaviour is undefined.
unfoldable pub on_trade : CandleBuilder → Trade → Option (List Candle × CandleBuilder)
unfolding on_windows
on_trade b t =
    if ltb (t.symbol_id * 3 + 2) b.size
    then some (on_windows b (t.symbol_id * 3) windows t)
    else none
