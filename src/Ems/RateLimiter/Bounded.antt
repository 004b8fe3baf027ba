-- ===== src/Ems/RateLimiter/Bounded.antt =====
-- The counts of the slots of ems/pipeline/RateLimiter.h.
use valyrian_stock_exchange.Prelude.{ℕ, ◌≤◌, ◌≡◌, ◌%◌, arith, leb, Bool-cases, inl, inr}
use valyrian_stock_exchange.Ems.Types.{max_users}
use valyrian_stock_exchange.Ems.RateLimiter.{
  RateSlot, RateLimiter, maybe_advance_epoch, in_epoch, take_token, check_and_increment,
}

abbrev pub Bounded : RateLimiter → Type 0
Bounded r = (u : ℕ) → (r.slots u).count ≤ r.max_in_window

maybe_advance_epoch-slots :
    (r : RateLimiter) (now : ℕ)
    → ((maybe_advance_epoch r now).slots ≡ r.slots)
      × ((maybe_advance_epoch r now).max_in_window ≡ r.max_in_window)
unfolding maybe_advance_epoch
maybe_advance_epoch-slots r now = ground arith

in_epoch-count : (epoch : ℕ) (slot : RateSlot) → (in_epoch epoch slot).count ≤ slot.count
in_epoch-count epoch slot = ground arith

take_token-Bounded :
    (r : RateLimiter) (user_id : ℕ) (slot : RateSlot)
    → Bounded r
    → slot.count ≤ r.max_in_window
    → Bounded (take_token r user_id slot).1
unfolding take_token
take_token-Bounded r user_id slot h fits u = elim (Bool-cases (leb r.max_in_window slot.count)) [
  | inl full ↦ rw (take_token, full) (ground (arith, h u))
  | inr room ↦ rw (take_token, room) (ground (arith, h u))
]

-- If no slot counts more than the allowed number of orders, then none does after an order of any
-- user at any time, whether it is let through or not.
pub check_and_increment-Bounded :
    (r : RateLimiter) (user_id now : ℕ) → Bounded r → Bounded (check_and_increment r user_id now).1
unfolding check_and_increment
check_and_increment-Bounded r user_id now h =
    let r1 = maybe_advance_epoch r now in
    let (slots, limit) = maybe_advance_epoch-slots r now in
    let h1 : Bounded r1 = λ u. rw (slots, limit) (h u) in
    let slot = r1.slots (user_id % max_users) in
    take_token-Bounded r1 user_id (in_epoch r1.current_epoch slot) h1
      (omega (arith, in_epoch-count r1.current_epoch slot, h1 (user_id % max_users)))
