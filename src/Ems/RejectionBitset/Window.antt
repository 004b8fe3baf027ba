-- ===== src/Ems/RejectionBitset/Window.antt =====
-- Which sequence numbers share a bit, and what a consumer sees.
use valyrian_stock_exchange.Prelude.{
  ℕ, ◌%◌, ◌/◌, ◌≡◌, true, false, ◌==◌, ◌&&◌, arith, if◌then◌else◌,
}
use valyrian_stock_exchange.Ems.RejectionBitset.{
  RejectionBitset, zero_based, word_idx, bit_idx, put_bit, mark_rejected, try_consume_rejected,
}

pub place-digits :
    (x y : ℕ) → ((x / 64 % 64 == y / 64 % 64) && (x % 64 == y % 64)) ≡ (x % 4096 == y % 4096)
place-digits x y = ground arith

consumed :
    (b : RejectionBitset) (t : ℕ) → (try_consume_rejected b t).0 ≡ b.words (word_idx t) (bit_idx t)
unfolding try_consume_rejected
consumed b t = ground arith

-- After a sequence number is marked, any number is found rejected exactly if the two, each less one
-- as 64-bit words, agree modulo 4096, the size of the ring, or if it would have been found rejected
-- before.
pub try_consume_rejected-mark_rejected :
    (b : RejectionBitset) (s t : ℕ)
    → (try_consume_rejected (mark_rejected b s) t).0
      ≡ (if zero_based t % 4096 == zero_based s % 4096 then true else (try_consume_rejected b t).0)
unfolding mark_rejected
try_consume_rejected-mark_rejected b s t =
    rw (consumed (put_bit b s true) t, consumed b t, place-digits (zero_based t) (zero_based s))

-- A rejection is consumed once: right after an attempt to consume a sequence number, successful or
-- not, a second attempt fails.
pub try_consume_rejected-twice :
    (b : RejectionBitset) (t : ℕ) → (try_consume_rejected (try_consume_rejected b t).1 t).0 ≡ false
unfolding try_consume_rejected
try_consume_rejected-twice b t = ground arith
