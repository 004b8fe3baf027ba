-- ===== src/Ems/Disruptor/Sample.antt =====
-- The instance of the ring library at which the examples are run: a slot for every sequence number,
-- of which no more than the size are in use.
use valyrian_stock_exchange.Prelude.{
  ℕ, suc, ◌+◌, ◌%◌, ◌^◌, ◌≤◌, ◌<◌, ◌≡◌, refl, Bool, true, false, Option, none, some, ◌==◌, ltb,
  arith, if◌then◌else◌, ==_self,
}
use valyrian_stock_exchange.Prelude.Int.{pos}
use valyrian_stock_exchange.Ems.Types.{OrderSlot}
use valyrian_stock_exchange.Ems.Disruptor.{Disruptor, before}

pub record Ring : Type 0 where
  pub size : ℕ
  pub claimed : ℕ
  pub released : ℕ
  pub is_published : ℕ → Bool
  pub slots : ℕ → OrderSlot

abbrev blank : OrderSlot
blank = record {
  sequence = 0;
  order_id = 0;
  timestamp = 0;
  user_id = 0;
  symbol_id = 0;
  price = pos 0;
  qty = 0;
  side = 0;
  type = 0;
  cancel_flag = 0;
  modify_flag = 0;
}

pub claim : Ring → Option (ℕ × Ring)
claim b =
    if ltb b.claimed (b.released + b.size)
    then some (b.claimed, record b { claimed = suc b.claimed })
    else none

pub last_after : Ring → ℕ → ℕ
last_after b k = let n = (k + 1) % 2 ^ 64 in if b.is_published n then n else k

pub claim-room :
    (b : Ring)
    → b.claimed < b.released + b.size
    → claim b ≡ some (b.claimed, record b { claimed = suc b.claimed })
unfolding claim
claim-room b h = ground arith

pub claim-full : (b : Ring) → b.released + b.size ≤ b.claimed → claim b ≡ none
unfolding claim
claim-full b h = ground arith

after_before : (n : ℕ) → n < 2 ^ 62 → (before n + 1) % 2 ^ 64 ≡ n
after_before n small = omega arith

pub last_after-none :
    (b : Ring) (n : ℕ) → n < 2 ^ 62 → b.is_published n ≡ false → last_after b (before n) ≡ before n
unfolding last_after
last_after-none b n small h = rw (last_after, after_before n small, h) refl

pub last_after-some :
    (b : Ring) (n : ℕ) → n < 2 ^ 62 → b.is_published n ≡ true → last_after b (before n) ≡ n
unfolding last_after
last_after-some b n small h = rw (last_after, after_before n small, h) refl

pub other_slot :
    (b : Ring) (n i : ℕ) (s : OrderSlot) → i < n → (if i == n then s else b.slots i) ≡ b.slots i
other_slot b n i s lt = ground arith

unfoldable pub sample_ring : Disruptor
unfolding claim last_after
sample_ring = record {
  Buffer = Ring;
  new_buffer = λ n. record {
    size = n;
    claimed = 0;
    released = 0;
    is_published = λ i. false;
    slots = λ i. blank;
  };
  size = λ b. b.size;
  claimed = λ b. b.claimed;
  released = λ b. b.released;
  is_published = λ b i. b.is_published i;
  claim_one = claim;
  publish = λ b n. record b { is_published = λ i. if i == n then true else b.is_published i };
  last_published_after = last_after;
  publish_consumed = λ b n. record b { released = suc n };
  read = λ b i. b.slots i;
  write = λ b n s. record b { slots = λ i. if i == n then s else b.slots i };
  new_buffer_lem = λ n. (refl, refl, refl, λ i. refl);
  claim_one_lem = λ b h. (
    record b { claimed = suc b.claimed },
    claim-room b h,
    refl,
    refl,
    refl,
    λ i. refl,
    λ i. refl,
  );
  claim_one-full = claim-full;
  publish_lem = λ b n. (refl, refl, refl, λ i. refl, λ i. refl);
  last_published_after-none = last_after-none;
  last_published_after-some =
      λ b n small h near. (n, omega arith, omega arith, last_after-some b n small h);
  publish_consumed_lem = λ b n. (refl, refl, refl, λ i. refl, λ i. refl);
  write_lem = λ b n s. (refl, refl, refl, λ i. refl, rw (==_self n) refl);
  read-write_ne = λ b n i s lt near. other_slot b n i s lt;
}
