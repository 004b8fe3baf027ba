-- ===== src/Ems/Dispatcher/Fresh.antt =====
-- The lane of a symbol as EMSCore (ems/core/EMSCore.h) builds it.
use valyrian_stock_exchange.Prelude.{ℕ, refl, [], arith}
use valyrian_stock_exchange.Ems.Disruptor.{Disruptor}
use valyrian_stock_exchange.Ems.RejectionBitset.{no_rejections}
use valyrian_stock_exchange.Ems.MpscRingBuffer.{normalize_size}
use valyrian_stock_exchange.Ems.MpscRingBuffer.Holds.{Holds}
use valyrian_stock_exchange.Ems.Dispatcher.{Handlers, new_lane}
use valyrian_stock_exchange.Ems.Dispatcher.Backlog.{Backlog}
use valyrian_stock_exchange.Ems.Dispatcher.Order.{History, InOrder}

abbrev pub nothing_yet : History
nothing_yet = record { accepted = []; handed = [] }

module _ {D : Disruptor} where
  new_ring-Holds : (n : ℕ) → Holds D (D.new_buffer n) 1 []
  new_ring-Holds n =
      let (size, claimed, released, published) = D.new_buffer_lem n in
      record {
        starts = omega arith;
        released = omega (arith, released);
        fits = omega arith;
        from = omega (arith, claimed, released);
        fresh = λ i le. published i;
      }

module _ {D : Disruptor} {H : Handlers} where
  pub new_lane-Backlog : (n : ℕ) (engine : H.State) → Backlog (new_lane {D = D} {H = H} n engine) []
  unfolding new_lane no_rejections
  new_lane-Backlog n engine = record {
    starts = omega arith;
    small = omega arith;
    ring_small = omega arith;
    window = omega arith;
    ring = new_ring-Holds (normalize_size n);
    numbered = tt;
    unmarked = λ seq from to. refl;
  }

  pub new_lane-InOrder :
      (n : ℕ) (engine : H.State) → InOrder engine (new_lane {D = D} {H = H} n engine) nothing_yet
  unfolding new_lane no_rejections
  new_lane-InOrder n engine = record {
    pending = [];
    split = refl;
    ring = new_ring-Holds (normalize_size n);
    small = omega (arith, (D.new_buffer_lem (normalize_size n)).1);
    rising = omega arith;
    engine = refl;
  }
