-- ===== src/Ems/Dispatcher/Items.antt =====
-- The orders that the checks passed or turned down, and the marks of their numbers.
use valyrian_stock_exchange.Prelude.{
  ℕ, suc, ◌+◌, ◌%◌, ◌^◌, ◌≤◌, ◌<◌, ◌≡◌, refl, Bool, true, false, List, [], ◌∷◌, length, ◌==◌,
  ==_iff, arith, Bool-cases, inl, inr,
}
use valyrian_stock_exchange.Ems.Types.{OrderSlot}
use valyrian_stock_exchange.Ems.RejectionBitset.{
  RejectionBitset, zero_based, word_idx, bit_idx, put_bit,
}
use valyrian_stock_exchange.Ems.RejectionBitset.Window.{place-digits}

-- What the checks made of an order.
pub data Item : Type 0 where
  turned_down : Item
  passed : OrderSlot → Item

abbrev pub passed_of : List Item → List OrderSlot
passed_of [] = []
passed_of (turned_down ∷ items) = passed_of items
passed_of (passed s ∷ items) = s ∷ passed_of items

abbrev pub is_marked : RejectionBitset → ℕ → Bool
is_marked bits seq = bits.words (word_idx seq) (bit_idx seq)

-- The items have the server sequences from `seq` on.
abbrev pub Numbered : RejectionBitset → ℕ → List Item → Type 0
Numbered bits seq [] = Unit
Numbered bits seq (turned_down ∷ items) =
    (is_marked bits seq ≡ true) × Numbered bits (suc seq) items
Numbered bits seq (passed s ∷ items) =
    (is_marked bits seq ≡ false) × (s.sequence ≡ seq) × Numbered bits (suc seq) items

other_place :
    (s t : ℕ)
    → 0 < s
    → s < 2 ^ 63
    → s < t
    → t < s + 4096
    → (zero_based t % 4096 == zero_based s % 4096) ≡ false
other_place s t pos small lt near = ground arith

pub is_marked-put_bit :
    (bits : RejectionBitset) (s t : ℕ) (v : Bool)
    → 0 < s
    → s < 2 ^ 63
    → s < t
    → t < s + 4096
    → is_marked (put_bit bits s v) t ≡ is_marked bits t
is_marked-put_bit bits s t v pos small lt near =
    rw (place-digits (zero_based t) (zero_based s), other_place s t pos small lt near) refl

pub is_marked-put_bit_same :
    (bits : RejectionBitset) (s : ℕ) (v : Bool) → is_marked (put_bit bits s v) s ≡ v
is_marked-put_bit_same bits s v = ground arith

pub Numbered-put_bit :
    (bits : RejectionBitset) (s seq : ℕ) (v : Bool) (items : List Item)
    → 0 < s
    → s < 2 ^ 63
    → s < seq
    → seq + length items ≤ s + 4096
    → Numbered bits seq items
    → Numbered (put_bit bits s v) seq items
Numbered-put_bit bits s seq v [] pos small lt near h = tt
Numbered-put_bit bits s seq v (turned_down ∷ items) pos small lt near h = (
  rw (is_marked-put_bit bits s seq v pos small lt (omega arith)) h.0,
  Numbered-put_bit bits s (suc seq) v items pos small (omega arith) (omega arith) h.1,
)
Numbered-put_bit bits s seq v (passed o ∷ items) pos small lt near h = (
  rw (is_marked-put_bit bits s seq v pos small lt (omega arith)) h.0,
  h.1,
  Numbered-put_bit bits s (suc seq) v items pos small (omega arith) (omega arith) h.2,
)

pub next_word : (n : ℕ) → n < 2 ^ 62 → (n + 1) % 2 ^ 64 ≡ suc n
next_word n small = omega arith

-- The number just taken leaves the window, and the next one enters it unmarked.
pub unmarked_after :
    (bits : RejectionBitset) (next behind seq : ℕ)
    → 0 < next
    → next < 2 ^ 62
    → ((s : ℕ) → next + behind ≤ s → s < next + 4096 → is_marked bits s ≡ false)
    → next + behind ≤ seq
    → seq < suc next + 4096
    → is_marked (put_bit bits next false) seq ≡ false
unmarked_after bits next behind seq pos small unmarked from to =
    rw (place-digits (zero_based seq) (zero_based next)) (ground (arith, unmarked seq))

pub unmarked_passed :
    (bits : RejectionBitset) (next behind seq : ℕ)
    → 0 < next
    → next < 2 ^ 62
    → is_marked bits next ≡ false
    → ((s : ℕ) → next + behind ≤ s → s < next + 4096 → is_marked bits s ≡ false)
    → next + behind ≤ seq
    → seq < suc next + 4096
    → is_marked bits seq ≡ false
unmarked_passed bits next behind seq pos small clear unmarked from to =
    elim (Bool-cases (seq == next + 4096)) [
      | inl around ↦
          let same : seq ≡ next + 4096 = (==_iff seq (next + 4096)).0 around in
          let words : word_idx seq ≡ word_idx next = omega (arith, same) in
          let bit : bit_idx seq ≡ bit_idx next = omega (arith, same) in
          rw (is_marked, words, bit) clear
      | inr inside ↦ unmarked seq from (ground (arith, inside))
    ]
