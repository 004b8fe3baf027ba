-- ===== src/Ems/Disruptor.antt =====
-- The parts of the disruptorplus library (third party) that ems/queues/MPSCRingBuffer.h calls:
-- ring_buffer, multi_threaded_claim_strategy and the sequence_barrier of its consumer. Sequence
-- numbers are unsigned 64-bit words that start at 0; the laws speak of those below 2^62.
pub mod Sample
use valyrian_stock_exchange.Prelude.{
  ℕ, suc, ◌+◌, ◌-◌, ◌%◌, ◌^◌, ◌≤◌, ◌<◌, ◌≡◌, Bool, true, false, Option, none, some, ◌==◌,
  if◌then◌else◌,
}
use valyrian_stock_exchange.Ems.Types.{OrderSlot}

abbrev pub word_limit : ℕ
word_limit = 2 ^ 64

-- `(sequence_t)(seq - 1)`
abbrev pub before : ℕ → ℕ
before seq = (seq + (2 ^ 64 - 1)) % 2 ^ 64

pub record Disruptor : Type 1 where
  pub Buffer : Type 0
  pub new_buffer : ℕ → Buffer
  -- what the library keeps: the number of slots, how many sequences were claimed and how many the
  -- consumer gave back, and which sequences were ever published
  pub size : Buffer → ℕ
  pub claimed : Buffer → ℕ
  pub released : Buffer → ℕ
  pub is_published : Buffer → ℕ → Bool
  -- `none`: every slot is in use, and the call waits
  pub claim_one : Buffer → Option (ℕ × Buffer)
  pub publish : Buffer → ℕ → Buffer
  pub last_published_after : Buffer → ℕ → ℕ
  pub publish_consumed : Buffer → ℕ → Buffer
  pub read : Buffer → ℕ → OrderSlot
  pub write : Buffer → ℕ → OrderSlot → Buffer
  pub new_buffer_lem :
      (n : ℕ)
      → (size (new_buffer n) ≡ n)
        × (claimed (new_buffer n) ≡ 0)
        × (released (new_buffer n) ≡ 0)
        × ((i : ℕ) → is_published (new_buffer n) i ≡ false)
  pub claim_one_lem :
      (b : Buffer)
      → claimed b < released b + size b
      → (b' : Buffer) × (claim_one b ≡ some (claimed b, b'))
        × (size b' ≡ size b)
        × (claimed b' ≡ suc (claimed b))
        × (released b' ≡ released b)
        × ((i : ℕ) → is_published b' i ≡ is_published b i)
        × ((i : ℕ) → read b' i ≡ read b i)
  pub claim_one-full : (b : Buffer) → released b + size b ≤ claimed b → claim_one b ≡ none
  pub publish_lem :
      (b : Buffer) (n : ℕ)
      → (size (publish b n) ≡ size b)
        × (claimed (publish b n) ≡ claimed b)
        × (released (publish b n) ≡ released b)
        × ((i : ℕ) → is_published (publish b n) i ≡ (if i == n then true else is_published b i))
        × ((i : ℕ) → read (publish b n) i ≡ read b i)
  -- the highest sequence up to which all after the given one are published. One that was published
  -- is found as long as its slot is not claimed again
  pub last_published_after-none :
      (b : Buffer) (n : ℕ)
      → n < 2 ^ 62
      → is_published b n ≡ false
      → last_published_after b (before n) ≡ before n
  pub last_published_after-some :
      (b : Buffer) (n : ℕ)
      → n < 2 ^ 62
      → is_published b n ≡ true
      → claimed b ≤ n + size b
      → (m : ℕ) × (n ≤ m) × (m < n + 2 ^ 62) × (last_published_after b (before n) ≡ m)
  pub publish_consumed_lem :
      (b : Buffer) (n : ℕ)
      → (size (publish_consumed b n) ≡ size b)
        × (claimed (publish_consumed b n) ≡ claimed b)
        × (released (publish_consumed b n) ≡ suc n)
        × ((i : ℕ) → is_published (publish_consumed b n) i ≡ is_published b i)
        × ((i : ℕ) → read (publish_consumed b n) i ≡ read b i)
  pub write_lem :
      (b : Buffer) (n : ℕ) (s : OrderSlot)
      → (size (write b n s) ≡ size b)
        × (claimed (write b n s) ≡ claimed b)
        × (released (write b n s) ≡ released b)
        × ((i : ℕ) → is_published (write b n s) i ≡ is_published b i)
        × (read (write b n s) n ≡ s)
  -- fewer than `size` sequences apart, the slots are different
  pub read-write_ne :
      (b : Buffer) (n i : ℕ) (s : OrderSlot)
      → i < n
      → n < i + size b
      → read (write b n s) i ≡ read b i
