-- ===== src/Ems/RejectionBitset.antt =====
-- ems/queues/RejectionBitset.h: a bit for every place of the ring of orders. A word is a function
-- from the numbers of its bits; sequence numbers are 64-bit words.
pub mod Window
use valyrian_stock_exchange.Prelude.{
  ℕ, ◌+◌, ◌-◌, ◌/◌, ◌%◌, ◌^◌, Bool, true, false, ◌==◌, ◌&&◌, if◌then◌else◌,
}

abbrev pub rejection_words : ℕ
rejection_words = 64

pub record RejectionBitset : Type 0 where
  pub words : ℕ → ℕ → Bool

unfoldable pub no_rejections : RejectionBitset
no_rejections = record { words = λ w i. false }

-- `serverSeq - 1`, which wraps around at zero
abbrev pub zero_based : ℕ → ℕ
zero_based seq = (seq + (2 ^ 64 - 1)) % 2 ^ 64

abbrev pub word_idx : ℕ → ℕ
word_idx seq = zero_based seq / 64 % rejection_words

abbrev pub bit_idx : ℕ → ℕ
bit_idx seq = zero_based seq % 64

abbrev pub put_bit : RejectionBitset → ℕ → Bool → RejectionBitset
put_bit b seq v = record {
  words = λ w i. if (w == word_idx seq) && (i == bit_idx seq) then v else b.words w i;
}

unfoldable pub mark_rejected : RejectionBitset → ℕ → RejectionBitset
mark_rejected b server_seq = put_bit b server_seq true

unfoldable pub try_consume_rejected : RejectionBitset → ℕ → Bool × RejectionBitset
try_consume_rejected b expected_seq =
    if b.words (word_idx expected_seq) (bit_idx expected_seq)
    then (true, put_bit b expected_seq false)
    else (false, b)
