-- ===== src/Ems/BalanceCache.antt =====
-- ems/pipeline/BalanceCache.h, one thread at a time. A loop of compare-exchanges is the update that
-- succeeds. The arrays are functions of their indices.
pub mod Funds
pub mod Slots
use valyrian_stock_exchange.Prelude.{
  ℕ, ◌+◌, ◌*◌, ◌/◌, ◌%◌, Bool, true, false, ◌==◌, ◌&&◌, if◌then◌else◌,
}
use valyrian_stock_exchange.Prelude.Int.{ℤ, pos, ◌+ℤ◌, ◌-ℤ◌, ◌*ℤ◌, ltb_ℤ, leb_ℤ}
use valyrian_stock_exchange.Ems.Types.{max_users, int64, int32}

pub record BalanceEntry : Type 0 where
  pub available : ℤ
  pub blocked : ℤ

pub record HoldingSlot : Type 0 where
  pub available_qty : ℤ
  pub blocked_qty : ℤ

-- `holdings` takes the number of a group and of a slot in it.
pub record BalanceCache : Type 0 where
  pub num_symbols : ℕ
  pub balances : ℕ → BalanceEntry
  pub holdings : ℕ → ℕ → HoldingSlot

pub new_cache : ℕ → BalanceCache
new_cache num_symbols = record {
  num_symbols = num_symbols;
  balances = λ u. record { available = pos 0; blocked = pos 0 };
  holdings = λ g i. record { available_qty = pos 0; blocked_qty = pos 0 };
}

unfoldable pub holdings_flat_index : BalanceCache → ℕ → ℕ → ℕ
holdings_flat_index c user_id symbol_id = user_id % max_users * c.num_symbols + symbol_id

-- The place of a user's holdings of a symbol: group and slot.
unfoldable pub holdings_slot : BalanceCache → ℕ → ℕ → ℕ × ℕ
unfolding holdings_flat_index
holdings_slot c user_id symbol_id =
    let flat = holdings_flat_index c user_id symbol_id in (flat / 8, flat % 8)

abbrev pub entry_of : BalanceCache → ℕ → BalanceEntry
entry_of c user_id = c.balances (user_id % max_users)

abbrev pub put_entry : BalanceCache → ℕ → BalanceEntry → BalanceCache
put_entry c user_id e = record c {
  balances = λ u. if u == user_id % max_users then e else c.balances u;
}

abbrev pub holding_of : BalanceCache → ℕ → ℕ → HoldingSlot
holding_of c user_id symbol_id = let (g, i) = holdings_slot c user_id symbol_id in c.holdings g i

abbrev pub put_holding : BalanceCache → ℕ → ℕ → HoldingSlot → BalanceCache
put_holding c user_id symbol_id h =
    let (g, i) = holdings_slot c user_id symbol_id in
    record c { holdings = λ a b. if (a == g) && (b == i) then h else c.holdings a b }

unfoldable pub try_block_funds : BalanceCache → ℕ → ℤ → Bool × BalanceCache
try_block_funds c user_id amount =
    if leb_ℤ amount (pos 0)
    then (true, c)
    else if ltb_ℤ (entry_of c user_id).available amount
    then (false, c)
    else (
      true,
      put_entry c user_id (record {
        available = int64 ((entry_of c user_id).available -ℤ amount);
        blocked = int64 ((entry_of c user_id).blocked +ℤ amount);
      }),
    )

unfoldable pub try_block_holdings : BalanceCache → ℕ → ℕ → ℤ → Bool × BalanceCache
try_block_holdings c user_id symbol_id qty =
    if leb_ℤ qty (pos 0)
    then (true, c)
    else if ltb_ℤ (holding_of c user_id symbol_id).available_qty qty
    then (false, c)
    else (
      true,
      put_holding c user_id symbol_id (record {
        available_qty = int32 ((holding_of c user_id symbol_id).available_qty -ℤ qty);
        blocked_qty = int32 ((holding_of c user_id symbol_id).blocked_qty +ℤ qty);
      }),
    )

abbrev pub sub_blocked : BalanceCache → ℕ → ℤ → BalanceCache
sub_blocked c user_id amount =
    put_entry c user_id
      (record (entry_of c user_id) { blocked = int64 ((entry_of c user_id).blocked -ℤ amount) })

abbrev pub credit : BalanceCache → ℕ → ℤ → BalanceCache
credit c user_id amount =
    put_entry c user_id
      (record (entry_of c user_id) { available = int64 ((entry_of c user_id).available +ℤ amount) })

abbrev pub credit_holdings : BalanceCache → ℕ → ℕ → ℤ → BalanceCache
credit_holdings c user_id symbol_id qty =
    put_holding c user_id symbol_id (record (holding_of c user_id symbol_id) {
      available_qty = int32 ((holding_of c user_id symbol_id).available_qty +ℤ qty);
    })

abbrev pub sub_blocked_holdings : BalanceCache → ℕ → ℕ → ℤ → BalanceCache
sub_blocked_holdings c user_id symbol_id qty =
    put_holding c user_id symbol_id (record (holding_of c user_id symbol_id) {
      blocked_qty = int32 ((holding_of c user_id symbol_id).blocked_qty -ℤ qty);
    })

unfoldable pub settle_trade : BalanceCache → ℕ → ℕ → ℕ → ℤ → ℤ → BalanceCache
settle_trade c buy_user_id sell_user_id symbol_id price qty =
    if leb_ℤ qty (pos 0)
    then c
    else (let notional = int64 (price *ℤ qty) in
        let c1 = sub_blocked c buy_user_id notional in
        let c2 = credit_holdings c1 buy_user_id symbol_id (int32 qty) in
        let c3 = sub_blocked_holdings c2 sell_user_id symbol_id (int32 qty) in
        credit c3 sell_user_id notional)

unfoldable pub unblock_funds : BalanceCache → ℕ → ℤ → BalanceCache
unblock_funds c user_id amount =
    if leb_ℤ amount (pos 0)
    then c
    else (let blocked = (entry_of c user_id).blocked in
        let actual = if ltb_ℤ blocked amount then blocked else amount in
        credit (sub_blocked c user_id actual) user_id actual)

unfoldable pub unblock_holdings : BalanceCache → ℕ → ℕ → ℤ → BalanceCache
unblock_holdings c user_id symbol_id qty =
    if leb_ℤ qty (pos 0)
    then c
    else credit_holdings (sub_blocked_holdings c user_id symbol_id qty) user_id symbol_id qty

unfoldable pub add_available : BalanceCache → ℕ → ℤ → BalanceCache
add_available c user_id amount = if leb_ℤ amount (pos 0) then c else credit c user_id amount

unfoldable pub add_holdings : BalanceCache → ℕ → ℕ → ℤ → BalanceCache
add_holdings c user_id symbol_id qty =
    if leb_ℤ qty (pos 0) then c else credit_holdings c user_id symbol_id qty

unfoldable pub set_balance : BalanceCache → ℕ → ℤ → ℤ → BalanceCache
set_balance c user_id available blocked =
    put_entry c user_id (record { available = available; blocked = blocked })

unfoldable pub set_holdings : BalanceCache → ℕ → ℕ → ℤ → ℤ → BalanceCache
set_holdings c user_id symbol_id available_qty blocked_qty =
    put_holding c user_id symbol_id
      (record { available_qty = available_qty; blocked_qty = blocked_qty })

pub available_balance : BalanceCache → ℕ → ℤ
available_balance c user_id = (entry_of c user_id).available

pub blocked_balance : BalanceCache → ℕ → ℤ
blocked_balance c user_id = (entry_of c user_id).blocked

pub available_holdings : BalanceCache → ℕ → ℕ → ℤ
available_holdings c user_id symbol_id = (holding_of c user_id symbol_id).available_qty

pub blocked_holdings : BalanceCache → ℕ → ℕ → ℤ
blocked_holdings c user_id symbol_id = (holding_of c user_id symbol_id).blocked_qty
