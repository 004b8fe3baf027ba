-- ===== src/Ems/MarketState.antt =====
-- ems/pipeline/MarketState.h: which symbols are open.
use valyrian_stock_exchange.Prelude.{ℕ, Bool, false, ◌==◌, leb, if◌then◌else◌}

pub record MarketState : Type 0 where
  pub symbol_count : ℕ
  pub open_at : ℕ → Bool

unfoldable pub new_market : ℕ → Bool → MarketState
new_market num_symbols default_open = record {
  symbol_count = num_symbols;
  open_at = λ s. default_open;
}

unfoldable pub is_symbol_open : MarketState → ℕ → Bool
is_symbol_open m symbol_id = if leb m.symbol_count symbol_id then false else m.open_at symbol_id

unfoldable pub set_symbol_open : MarketState → ℕ → Bool → MarketState
set_symbol_open m symbol_id is_open =
    if leb m.symbol_count symbol_id
    then m
    else record m { open_at = λ s. if s == symbol_id then is_open else m.open_at s }
