-- ===== src/Ems/SymbolCache.antt =====
-- db/SymbolCache.cpp: the symbols by id and by ticker. loadFromDB reads them from a database and
-- is not modelled; `tick_size` is an int64_t that stands for its non-negative values.
use valyrian_stock_exchange.Prelude.{
  ℕ, ◌+◌, ◌%◌, max, Bool, false, ◌==◌, ltb, leb, ◌&&◌, Option, none, some, List, [], ◌∷◌,
  if◌then◌else◌,
}
use valyrian_stock_exchange.Prelude.Int.{ℤ, pos_part, neg_part}

-- A ticker is known by a number; zero is the empty string.
pub record SymbolInfo : Type 0 where
  pub symbol_id : ℕ
  pub ticker : ℕ
  pub tick_size : ℕ
  pub lot_size : ℕ
  pub is_active : Bool

pub record SymbolCache : Type 0 where
  pub size : ℕ
  pub symbols_by_id : ℕ → SymbolInfo
  pub ids_by_ticker : ℕ → Option ℕ

blank_info : SymbolInfo
blank_info = record { symbol_id = 0; ticker = 0; tick_size = 0; lot_size = 0; is_active = false }

max_id : List SymbolInfo → ℕ
max_id [] = 0
max_id (s ∷ rest) = max s.symbol_id (max_id rest)

put_symbol : SymbolCache → SymbolInfo → SymbolCache
put_symbol c s = record c {
  symbols_by_id = λ id. if id == s.symbol_id then s else c.symbols_by_id id;
  ids_by_ticker = λ t. if t == s.ticker then some s.symbol_id else c.ids_by_ticker t;
}

put_all : SymbolCache → List SymbolInfo → SymbolCache
unfolding put_symbol
put_all c [] = c
put_all c (s ∷ rest) = put_all (put_symbol c s) rest

unfoldable pub load_from_list : List SymbolInfo → SymbolCache
unfolding put_all max_id blank_info
load_from_list symbols =
    put_all
      (record {
        size = max_id symbols + 1;
        symbols_by_id = λ id. blank_info;
        ids_by_ticker = λ t. none;
      })
      symbols

pub find_by_ticker : SymbolCache → ℕ → Option ℕ
find_by_ticker c ticker = c.ids_by_ticker ticker

unfoldable pub find_by_id : SymbolCache → ℕ → Option SymbolInfo
find_by_id c id =
    if leb c.size id
    then none
    else if (c.symbols_by_id id).ticker == 0
    then none
    else some (c.symbols_by_id id)

-- The remainder of a negative price is zero exactly when that of its absolute value is.
unfoldable pub is_valid_tick : SymbolCache → ℕ → ℤ → Bool
unfolding find_by_id
is_valid_tick c symbol_id price = elim (find_by_id c symbol_id) [
  | none ↦ false
  | some info ↦ ltb 0 info.tick_size && ((pos_part price + neg_part price) % info.tick_size == 0)
]

unfoldable pub is_valid_lot : SymbolCache → ℕ → ℕ → Bool
unfolding find_by_id
is_valid_lot c symbol_id qty = elim (find_by_id c symbol_id) [
  | none ↦ false
  | some info ↦ ltb 0 info.lot_size && (qty % info.lot_size == 0)
]
