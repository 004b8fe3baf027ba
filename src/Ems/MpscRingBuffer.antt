-- ===== src/Ems/MpscRingBuffer.antt =====
-- ems/queues/MPSCRingBuffer.h: a ring of orders between the ingress workers and the dispatcher of a
-- symbol. Its sequence numbers are those of disruptorplus plus one. A member function is one step.
pub mod Holds
pub mod Moves
pub mod Size
use valyrian_stock_exchange.Prelude.{
  ℕ, zero, suc, ◌+◌, ◌-◌, ◌*◌, ◌%◌, ◌^◌, Bool, true, false, Option, none, some, ◌==◌, ltb, max,
  if◌then◌else◌,
}
use valyrian_stock_exchange.Ems.Types.{OrderSlot}
use valyrian_stock_exchange.Ems.Disruptor.{Disruptor, word_limit, before}

-- The loop of normalizeSize: doubles `s` until it is the requested number at least.
unfoldable pub double_until : ℕ → ℕ → ℕ → ℕ
double_until zero s requested = s
double_until (suc fuel) s requested =
    let rest = double_until fuel (s * 2) requested in if ltb s requested then rest else s

-- A number below 2^63 is reached by at most 63 doublings of one.
unfoldable pub normalize_size : ℕ → ℕ
unfolding double_until
normalize_size requested = double_until 64 1 (if ltb requested 2 then 2 else requested)

-- `disruptorplus::difference(a, b) >= 0`, a signed difference of words
abbrev pub not_before : ℕ → ℕ → Bool
not_before a b = ltb ((a + (2 ^ 64 - b)) % 2 ^ 64) (2 ^ 63)

module _ (D : Disruptor) where
  abbrev pub new_ring : ℕ → D.Buffer
  new_ring size = D.new_buffer (normalize_size size)

  -- The sequence and the buffer in which its slot may be written; `none`: the call waits.
  unfoldable pub claim_slot : D.Buffer → Option (ℕ × D.Buffer)
  claim_slot b = elim (D.claim_one b) [
    | none ↦ none
    | some (internal, b1) ↦ some ((internal + 1) % 2 ^ 64, b1)
  ]

  unfoldable pub publish : D.Buffer → ℕ → D.Buffer
  publish b seq = D.publish b (before seq)

  unfoldable pub is_available : D.Buffer → ℕ → Bool
  is_available b seq =
      if seq == 0
      then false
      else (let internal = before seq in
          let last_known = if internal == 0 then 2 ^ 64 - 1 else before internal in
          not_before (D.last_published_after b last_known) internal)

  unfoldable pub release_slot : D.Buffer → ℕ → D.Buffer
  release_slot b seq = D.publish_consumed b (before seq)

  unfoldable pub get : D.Buffer → ℕ → OrderSlot
  get b seq = D.read b (before seq)

  -- The stores through the pointer that claimSlot returned.
  unfoldable pub fill : D.Buffer → ℕ → OrderSlot → D.Buffer
  fill b seq s = D.write b (before seq) s
