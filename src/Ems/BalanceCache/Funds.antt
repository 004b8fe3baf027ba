-- ===== src/Ems/BalanceCache/Funds.antt =====
-- The totals of the balances in ems/pipeline/BalanceCache.h.
use valyrian_stock_exchange.Prelude.{
  ℕ, ◌+◌, ◌-◌, ◌<◌, ◌≤◌, ◌^◌, ◌%◌, ◌≡◌, refl, ap, ◌∙◌, true, arith, ◌==◌, Bool-cases, inl, inr,
}
use valyrian_stock_exchange.Prelude.Int.{ℤ, pos, negsuc, leb_ℤ, ltb_ℤ, ◌-ℤ◌, ◌+ℤ◌}
use valyrian_stock_exchange.Ems.Types.{max_users, int64, wrap_at}
use valyrian_stock_exchange.Ems.BalanceCache.{BalanceCache, put_entry, try_block_funds}

pub int64_pos : (n : ℕ) → n < 2 ^ 63 → int64 (pos n) ≡ pos n
unfolding wrap_at
int64_pos n h = ground arith

pos-sub : (a q : ℕ) → q ≤ a → pos a -ℤ pos q ≡ pos (a - q)
unfolding ◌-ℤ◌
pos-sub a q h = ground arith

pos-add : (a q : ℕ) → pos a +ℤ pos q ≡ pos (a + q)
unfolding ◌+ℤ◌
pos-add a q = ground arith

-- Both halves of every balance are at least zero, and add up to `total`.
abbrev pub Funded : BalanceCache → (ℕ → ℕ) → Type 0
Funded c total =
    (u : ℕ)
    → (a : ℕ) × (b : ℕ) × (c.balances u ≡ record { available = pos a; blocked = pos b })
      × (a + b ≡ total u)

put_entry-Funded :
    (c : BalanceCache) (user_id a b : ℕ) (total : ℕ → ℕ)
    → Funded c total
    → a + b ≡ total (user_id % max_users)
    → Funded (put_entry c user_id (record { available = pos a; blocked = pos b })) total
put_entry-Funded c user_id a b total h sum u = elim (Bool-cases (u == user_id % max_users)) [
  | inl here ↦ rw here (a, b, refl, sum ∙ ap total (ground (arith, here)))
  | inr there ↦ rw there (h u)
]

moved-Funded :
    (c : BalanceCache) (user_id a b q : ℕ) (total : ℕ → ℕ)
    → Funded c total
    → a + b ≡ total (user_id % max_users)
    → total (user_id % max_users) < 2 ^ 63
    → q ≤ a
    → Funded
        (put_entry c user_id
          (record { available = int64 (pos a -ℤ pos q); blocked = int64 (pos b +ℤ pos q) }))
        total
moved-Funded c user_id a b q total h sum range enough =
    rw
      (
        pos-sub a q enough,
        pos-add b q,
        int64_pos (a - q) (omega arith),
        int64_pos (b + q) (omega arith),
      )
      (put_entry-Funded c user_id (a - q) (b + q) total h (omega arith))

negative : (n : ℕ) → leb_ℤ (negsuc n) (pos 0) ≡ true
negative n = ground arith

-- If the two halves of every balance are at least zero and each user's total is below 2^63, then an
-- attempt to block any amount, whether it succeeds or not, keeps every total and leaves no half of
-- a balance below zero.
pub try_block_funds-Funded :
    (c : BalanceCache) (user_id : ℕ) (amount : ℤ) (total : ℕ → ℕ)
    → Funded c total
    → ((u : ℕ) → total u < 2 ^ 63)
    → Funded (try_block_funds c user_id amount).1 total
unfolding try_block_funds
try_block_funds-Funded c user_id (negsuc n) total h range = rw (try_block_funds, negative n) h
try_block_funds-Funded c user_id (pos q) total h range =
    let (a, b, e, sum) = h (user_id % max_users) in
    elim (Bool-cases (leb_ℤ (pos q) (pos 0))) [
      | inl nothing ↦ rw (try_block_funds, nothing) h
      | inr some_amount ↦ elim (Bool-cases (ltb_ℤ (pos a) (pos q))) [
        | inl short ↦ rw (try_block_funds, some_amount, e, short) h
        | inr enough ↦
            rw (try_block_funds, some_amount, e, enough)
              (moved-Funded c user_id a b q total h sum (range (user_id % max_users))
                (ground arith))
      ]
    ]
