-- ===== src/Ems/IngressWorker/Queued.antt =====
-- What an ingress worker adds to the backlog of a dispatcher.
use mathlib.Core.List.{append-nil}
use valyrian_stock_exchange.Prelude.{
  ℕ, suc, ◌+◌, ◌%◌, ◌^◌, ◌≤◌, ◌<◌, ◌≡◌, refl, ap, true, false, some, List, [], ◌∷◌, ◌++◌, length,
  length-append, ◌==◌, arith,
}
use valyrian_stock_exchange.Ems.Types.{RawOrder, OrderSlot}
use valyrian_stock_exchange.Ems.Disruptor.{Disruptor}
use valyrian_stock_exchange.Ems.RejectionBitset.{
  RejectionBitset, zero_based, put_bit, mark_rejected,
}
use valyrian_stock_exchange.Ems.RejectionBitset.Window.{place-digits}
use valyrian_stock_exchange.Ems.MpscRingBuffer.Moves.{put_order, put_order-Holds}
use valyrian_stock_exchange.Ems.ValidationPipeline.{Verdict, accepted, rejected}
use valyrian_stock_exchange.Ems.Dispatcher.{Handlers, Lane}
use valyrian_stock_exchange.Ems.Dispatcher.Backlog.{Backlog}
use valyrian_stock_exchange.Ems.Dispatcher.Items.{
  Item, turned_down, passed, passed_of, is_marked, Numbered, is_marked-put_bit_same,
  is_marked-put_bit,
}
use valyrian_stock_exchange.Ems.IngressWorker.{slot_of}

-- What becomes of an order by the verdict on it.
abbrev pub item_of : RawOrder → Verdict → Item
item_of o accepted = passed (slot_of o)
item_of o (rejected reason) = turned_down

earlier_place :
    (s t : ℕ)
    → 0 < t
    → s < 2 ^ 63
    → t < s
    → s < t + 4096
    → (zero_based t % 4096 == zero_based s % 4096) ≡ false
earlier_place s t pos small lt near = ground arith

is_marked-mark :
    (bits : RejectionBitset) (s t : ℕ)
    → 0 < t
    → s < 2 ^ 63
    → t < s
    → s < t + 4096
    → is_marked (put_bit bits s true) t ≡ is_marked bits t
is_marked-mark bits s t pos small lt near =
    rw (place-digits (zero_based t) (zero_based s), earlier_place s t pos small lt near) refl

-- A number behind the items is marked, and the item behind them was turned down.
Numbered-mark :
    (bits : RejectionBitset) (s seq : ℕ) (items : List Item)
    → 0 < seq
    → s < 2 ^ 63
    → seq + length items ≡ s
    → length items < 4096
    → Numbered bits seq items
    → Numbered (put_bit bits s true) seq (items ++ (turned_down ∷ []))
Numbered-mark bits s seq [] pos small at fits h =
    let here : seq ≡ s = omega (arith, at) in (rw here (is_marked-put_bit_same bits s true), tt)
Numbered-mark bits s seq (turned_down ∷ items) pos small at fits h = (
  rw (is_marked-mark bits s seq pos small (omega arith) (omega arith)) h.0,
  Numbered-mark bits s (suc seq) items (omega arith) small (omega arith) (omega arith) h.1,
)
Numbered-mark bits s seq (passed o ∷ items) pos small at fits h = (
  rw (is_marked-mark bits s seq pos small (omega arith) (omega arith)) h.0,
  h.1,
  Numbered-mark bits s (suc seq) items (omega arith) small (omega arith) (omega arith) h.2,
)

Numbered-passed :
    (bits : RejectionBitset) (s seq : ℕ) (items : List Item) (o : OrderSlot)
    → seq + length items ≡ s
    → o.sequence ≡ s
    → is_marked bits s ≡ false
    → Numbered bits seq items
    → Numbered bits seq (items ++ (passed o ∷ []))
Numbered-passed bits s seq [] o at is clear h =
    let here : seq ≡ s = omega (arith, at) in (rw here clear, rw here is, tt)
Numbered-passed bits s seq (turned_down ∷ items) o at is clear h =
    (h.0, Numbered-passed bits s (suc seq) items o (omega arith) is clear h.1)
Numbered-passed bits s seq (passed p ∷ items) o at is clear h =
    (h.0, h.1, Numbered-passed bits s (suc seq) items o (omega arith) is clear h.2)

passed_of-append :
    (items : List Item) (item : Item)
    → passed_of (items ++ (item ∷ [])) ≡ passed_of items ++ passed_of (item ∷ [])
passed_of-append [] item = refl
passed_of-append (turned_down ∷ items) item = passed_of-append items item
passed_of-append (passed o ∷ items) item = ap (λ r. o ∷ r) (passed_of-append items item)

length-passed_of : (items : List Item) → length (passed_of items) ≤ length items
length-passed_of [] = omega arith
length-passed_of (turned_down ∷ items) = omega (arith, length-passed_of items)
length-passed_of (passed o ∷ items) = omega (arith, length-passed_of items)

module _ {D : Disruptor} {H : Handlers} where
  -- An order whose number comes next is turned down.
  pub mark-Backlog :
      (l : Lane D H) (items : List Item) (seq : ℕ)
      → Backlog l items
      → seq ≡ l.next_server_sequence + length items
      → length items < 4096
      → seq + 1 < 2 ^ 62
      → l.next_ring_sequence + length items + 1 < 2 ^ 62
      → Backlog (record l { rejected = mark_rejected l.rejected seq }) (items ++ (turned_down ∷ []))
  unfolding mark_rejected
  mark-Backlog l items seq h at room small ring_small =
      let len : length (items ++ (turned_down ∷ [])) ≡ length items + 1 =
        length-append items (turned_down ∷ []) in
      record {
        starts = h.starts;
        small = omega (arith, len);
        ring_small = omega (arith, len);
        window = omega (arith, len);
        ring = rw (passed_of-append items turned_down, append-nil (passed_of items)) h.ring;
        numbered =
            Numbered-mark l.rejected seq l.next_server_sequence items h.starts (omega arith)
              (omega (arith, at)) room h.numbered;
        unmarked = λ s from to.
            rw
              (is_marked-put_bit l.rejected seq s true (omega (arith, h.starts)) (omega arith)
                (omega (arith, len, at)) (omega (arith, at)))
              (h.unmarked s (omega (arith, len)) to);
      }

  -- An order whose number comes next passes, and is put into the ring.
  pub put-Backlog :
      (l : Lane D H) (items : List Item) (s : OrderSlot)
      → Backlog l items
      → s.sequence ≡ l.next_server_sequence + length items
      → length items < 4096
      → length items < D.size l.ring
      → s.sequence + 1 < 2 ^ 62
      → l.next_ring_sequence + length items + 1 < 2 ^ 62
      → (ring : D.Buffer) × (put_order D l.ring s ≡ some ring)
        × Backlog (record l { ring = ring }) (items ++ (passed s ∷ []))
        × (D.size ring ≡ D.size l.ring)
  put-Backlog l items s h at room ring_room small ring_small =
      let len : length (items ++ (passed s ∷ [])) ≡ length items + 1 =
        length-append items (passed s ∷ []) in
      let shorter = length-passed_of items in
      let (ring, e, holds, size) =
        put_order-Holds D l.ring l.next_ring_sequence (passed_of items) s h.ring (omega arith)
          (omega arith) in
      (
        ring,
        e,
        record {
          starts = h.starts;
          small = omega (arith, len);
          ring_small = omega (arith, len);
          window = omega (arith, len);
          ring = rw (passed_of-append items (passed s)) holds;
          numbered =
              Numbered-passed l.rejected s.sequence l.next_server_sequence items s
                (omega (arith, at)) refl
                (h.unmarked s.sequence (omega (arith, at)) (omega (arith, at))) h.numbered;
          unmarked = λ t from to. h.unmarked t (omega (arith, len)) to;
        },
        size,
      )
