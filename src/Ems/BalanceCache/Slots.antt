-- ===== src/Ems/BalanceCache/Slots.antt =====
-- Where the holdings of a user in a symbol are kept.
use valyrian_stock_exchange.Prelude.{ℕ, zero, suc, ◌+◌, ◌*◌, ◌/◌, ◌%◌, ◌<◌, ◌≡◌, refl, ap, arith}
use valyrian_stock_exchange.Ems.Types.{max_users}
use valyrian_stock_exchange.Ems.BalanceCache.{BalanceCache, holdings_flat_index, holdings_slot}

-- A row and a column below `n` are determined by the index that they make.
rows_apart : (u u' n s s' : ℕ) → s < n → s' < n → u * n + s ≡ u' * n + s' → (u ≡ u') × (s ≡ s')
rows_apart zero zero n s s' h h' e = (refl, omega arith)
rows_apart zero (suc u') n s s' h h' e = absurd (omega arith)
rows_apart (suc u) zero n s s' h h' e = absurd (omega arith)
rows_apart (suc u) (suc u') n s s' h h' e =
    let (p, q) = rows_apart u u' n s s' h h' (omega arith) in (ap suc p, q)

digits_apart : (x y : ℕ) → x / 8 ≡ y / 8 → x % 8 ≡ y % 8 → x ≡ y
digits_apart x y h h' = omega arith

-- For two symbols below the number of symbols, the holdings of two users are kept in the same slot
-- of the same group only if the symbols are the same and the users agree modulo MAX_USERS.
pub holdings_slot-distinct :
    (c : BalanceCache) (user user' symbol symbol' : ℕ)
    → symbol < c.num_symbols
    → symbol' < c.num_symbols
    → holdings_slot c user symbol ≡ holdings_slot c user' symbol'
    → (user % max_users ≡ user' % max_users) × (symbol ≡ symbol')
unfolding holdings_slot holdings_flat_index
holdings_slot-distinct c user user' symbol symbol' h h' same =
    rows_apart (user % max_users) (user' % max_users) c.num_symbols symbol symbol' h h' (
      digits_apart (user % max_users * c.num_symbols + symbol)
        (user' % max_users * c.num_symbols + symbol') (ap (λ (p : ℕ × ℕ). p.0) same)
        (ap (λ (p : ℕ × ℕ). p.1) same))
