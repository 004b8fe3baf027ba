-- ===== src/Ems/Dispatcher/Order.antt =====
-- The orders that a dispatcher hands to its engine, over any interleaving with the ingress workers.
use mathlib.Core.List.{append_assoc}
use valyrian_stock_exchange.Prelude.{
  ℕ, suc, ◌+◌, ◌^◌, ◌≤◌, ◌<◌, ◌≡◌, sym, some, List, [], ◌∷◌, ◌++◌, length-append, arith, refl,
}
use valyrian_stock_exchange.Ems.Types.{OrderSlot}
use valyrian_stock_exchange.Ems.Disruptor.{Disruptor}
use valyrian_stock_exchange.Ems.RejectionBitset.{mark_rejected}
use valyrian_stock_exchange.Ems.MpscRingBuffer.Holds.{Holds, From-claimed}
use valyrian_stock_exchange.Ems.MpscRingBuffer.Moves.{
  put_order, put_order-room, put_order-Holds, get-Holds, not_available-Holds, release_slot-Holds,
  release_slot-claimed,
}
use valyrian_stock_exchange.Ems.Dispatcher.Items.{next_word}
use valyrian_stock_exchange.Ems.Dispatcher.Turns.{TurnOk, turn-TurnOk}
use valyrian_stock_exchange.Ems.Dispatcher.{Handlers, Lane, skipped, delivered, turn, deliver}

-- The orders put into the ring and those handed to the engine, oldest first.
pub record History : Type 0 where
  pub accepted : List OrderSlot
  pub handed : List OrderSlot

-- Strictly rising server sequences below a bound.
abbrev pub Rising : ℕ → List OrderSlot → ℕ → Type 0
Rising low [] bound = low ≤ bound
Rising low (s ∷ rest) bound = (low ≤ s.sequence) × Rising (suc s.sequence) rest bound

Rising-bound :
    (low : ℕ) (orders : List OrderSlot) (bound bound' : ℕ)
    → bound ≤ bound'
    → Rising low orders bound
    → Rising low orders bound'
Rising-bound low [] bound bound' le r = omega (arith, r)
Rising-bound low (s ∷ rest) bound bound' le r =
    (r.0, Rising-bound (suc s.sequence) rest bound bound' le r.1)

Rising-append :
    (low : ℕ) (orders : List OrderSlot) (s : OrderSlot) (bound : ℕ)
    → Rising low orders s.sequence
    → s.sequence < bound
    → Rising low (orders ++ (s ∷ [])) bound
Rising-append low [] s bound r lt = (r, lt)
Rising-append low (o ∷ rest) s bound r lt =
    (r.0, Rising-append (suc o.sequence) rest s bound r.1 lt)

-- The engine gets the orders one after the other, each at some time, and goes from one state to the
-- other without ending the process.
abbrev pub Delivers : (H : Handlers) → H.State → List OrderSlot → H.State → Type 0
Delivers H e [] e' = e ≡ e'
Delivers H e (s ∷ rest) e' =
    (now : ℕ) × (e1 : H.State) × (deliver H e s now ≡ some e1) × Delivers H e1 rest e'

Delivers-append :
    (H : Handlers) (e e1 e' : H.State) (orders : List OrderSlot) (s : OrderSlot) (now : ℕ)
    → Delivers H e orders e1
    → deliver H e1 s now ≡ some e'
    → Delivers H e (orders ++ (s ∷ [])) e'
Delivers-append H e e1 e' [] s now same step = (now, e', rw same step, refl)
Delivers-append H e e1 e' (o ∷ rest) s now (at, e2, first, later) step =
    (at, e2, first, Delivers-append H e2 e1 e' rest s now later step)

module _ {D : Disruptor} {H : Handlers} where
  -- What an ingress worker or the dispatcher does to the lane of a symbol. Putting an order into the
  -- ring is one step: states in which a slot is claimed and not yet published are left out. Histories in which a
  -- counter reaches 2^62 are left out.
  pub data Step (l l' : Lane D H) (h h' : History) : Type 0 where
    rejects :
        (seq : ℕ)
        → l' ≡ record l { rejected = mark_rejected l.rejected seq }
        → h' ≡ h
        → Step l l' h h'
    accepts :
        (s : OrderSlot) (ring : D.Buffer)
        → put_order D l.ring s ≡ some ring
        → D.claimed l.ring + 1 < 2 ^ 62
        → l' ≡ record l { ring = ring }
        → h' ≡ record h { accepted = h.accepted ++ (s ∷ []) }
        → Step l l' h h'
    skips :
        (now : ℕ)
        → turn l now ≡ skipped l'
        → l.next_server_sequence < 2 ^ 62
        → h' ≡ h
        → Step l l' h h'
    delivers :
        (now : ℕ) (s : OrderSlot)
        → turn l now ≡ delivered s l'
        → l.next_server_sequence < 2 ^ 62
        → h' ≡ record h { handed = h.handed ++ (s ∷ []) }
        → Step l l' h h'

  pub data Reach (l0 : Lane D H) (h0 : History) : Lane D H → History → Type 0 where
    here : Reach l0 h0 l0 h0
    next : {l l' : Lane D H} {h h' : History} → Reach l0 h0 l h → Step l l' h h' → Reach l0 h0 l' h'

  -- The orders handed over are the first of those accepted, the ring holds the others, and the
  -- server sequences of those handed over rise strictly, below the next one. The calls of the engine
  -- with the orders handed over, and no others, took it from `start` to its state.
  pub record InOrder (start : H.State) (l : Lane D H) (h : History) : Type 0 where
    pub pending : List OrderSlot
    pub split : h.accepted ≡ h.handed ++ pending
    pub ring : Holds D l.ring l.next_ring_sequence pending
    pub small : D.claimed l.ring < 2 ^ 62
    pub rising : Rising 0 h.handed l.next_server_sequence
    pub engine : Delivers H start h.handed l.engine

  accept-InOrder :
      (start : H.State) (l : Lane D H) (h : History) (s : OrderSlot) (ring : D.Buffer)
      → put_order D l.ring s ≡ some ring
      → D.claimed l.ring + 1 < 2 ^ 62
      → InOrder start l h
      → InOrder start (record l { ring = ring }) (record h { accepted = h.accepted ++ (s ∷ []) })
  accept-InOrder start l h s ring put small i =
      let len = From-claimed D l.ring (D.released l.ring) i.pending i.ring.from in
      let room = put_order-room D l.ring ring s put in
      let (b, e, holds, size) =
        put_order-Holds D l.ring l.next_ring_sequence i.pending s i.ring (omega arith)
          (omega (arith, i.ring.released)) in
      let same : b ≡ ring = cc in
      let holds1 : Holds D ring l.next_ring_sequence (i.pending ++ (s ∷ [])) = rw same at holds in
      let len1 = From-claimed D ring (D.released ring) (i.pending ++ (s ∷ [])) holds1.from in
      record {
        pending = i.pending ++ (s ∷ []);
        split = rw i.split (append_assoc h.handed i.pending (s ∷ []));
        ring = holds1;
        small = omega (arith, holds1.released, i.ring.released, length-append i.pending (s ∷ []));
        rising = i.rising;
        engine = i.engine;
      }

  skip-InOrder :
      (start : H.State) (l l' : Lane D H) (h : History)
      → l.next_server_sequence < 2 ^ 62
      → InOrder start l h
      → TurnOk l (skipped l')
      → InOrder start l' h
  unfolding TurnOk
  skip-InOrder start l l' h small i (same, ring, at, moved) = record {
    engine = rw same i.engine;
    pending = i.pending;
    split = i.split;
    ring = rw (ring, at) i.ring;
    small = rw ring i.small;
    rising =
        rw (moved, next_word l.next_server_sequence small)
          (Rising-bound 0 h.handed l.next_server_sequence (suc l.next_server_sequence) (omega arith)
            i.rising);
  }

  deliver-InOrder :
      (start : H.State) (l l' : Lane D H) (h : History) (s : OrderSlot)
      → l.next_server_sequence < 2 ^ 62
      → (pending : List OrderSlot) → h.accepted ≡ h.handed ++ pending
      → Holds D l.ring l.next_ring_sequence pending
      → D.claimed l.ring < 2 ^ 62
      → Rising 0 h.handed l.next_server_sequence
      → Delivers H start h.handed l.engine
      → TurnOk l (delivered s l')
      → InOrder start l' (record h { handed = h.handed ++ (s ∷ []) })
  unfolding TurnOk
  deliver-InOrder start l l' h s small [] split holds claimed rising ran t =
      let available = t.0 in
      let empty =
        not_available-Holds D l.ring l.next_ring_sequence holds
          (omega (arith, holds.released, holds.from)) in
      absurd (cc)
  deliver-InOrder start l l' h s small (o ∷ rest) split holds claimed rising ran
        (available, front, (now, called), turn_is, ring, at, moved) =
      let bound : l.next_ring_sequence < 2 ^ 62 =
        omega (
          arith,
          holds.released,
          From-claimed D l.ring (D.released l.ring) (o ∷ rest) holds.from,
        ) in
      let (there, got) = get-Holds D l.ring l.next_ring_sequence o rest holds bound in
      let same : s ≡ o = cc in
      record {
        pending = rest;
        engine = Delivers-append H start l.engine l'.engine h.handed s now ran called;
        split = rw (split, same) (sym (append_assoc h.handed (o ∷ []) rest));
        ring =
            rw (ring, at, next_word l.next_ring_sequence bound)
              (release_slot-Holds D l.ring l.next_ring_sequence o rest holds bound);
        small = rw (ring, release_slot-claimed D l.ring l.next_ring_sequence) claimed;
        rising =
            rw (moved, next_word l.next_server_sequence small)
              (Rising-append 0 h.handed s (suc l.next_server_sequence) (rw turn_is rising)
                (omega (arith, turn_is)));
      }

  -- A step of a worker or of the dispatcher keeps the order.
  pub Step-InOrder :
      {start : H.State} {l l' : Lane D H} {h h' : History}
      → Step l l' h h'
      → InOrder start l h
      → InOrder start l' h'
  Step-InOrder {start} {l} {l'} {h} {h'} (rejects seq el eh) i =
      rw (el, eh)
        (record {
          pending = i.pending;
          split = i.split;
          ring = i.ring;
          small = i.small;
          rising = i.rising;
          engine = i.engine;
        })
  Step-InOrder {start} {l} {l'} {h} {h'} (accepts s ring put small el eh) i =
      rw (el, eh) (accept-InOrder start l h s ring put small i)
  Step-InOrder {start} {l} {l'} {h} {h'} (skips now t small eh) i =
      rw eh (skip-InOrder start l l' h small i (rw t at (turn-TurnOk l now)))
  Step-InOrder {start} {l} {l'} {h} {h'} (delivers now s t small eh) i = rw eh (
      deliver-InOrder start l l' h s small i.pending i.split i.ring i.small i.rising i.engine
        (rw t at (turn-TurnOk l now)))

  -- Let any worker reject orders or put accepted ones into the ring, each put being one step, and the
  -- dispatcher take its turns, in any order, from a lane that is in order, below 2^62 of every counter.
  -- At every point, the orders handed to the engine so far are the first of those put into the ring,
  -- in that order, each handed over once, the ring holds the others, and the server sequences of
  -- those handed over rise strictly and are below the next one. The state of the engine is the one in
  -- which calls with exactly these orders, in that order, leave it.
  pub Reach-InOrder :
      {start : H.State} {l0 : Lane D H} {h0 : History} {l : Lane D H} {h : History}
      → InOrder start l0 h0
      → Reach l0 h0 l h
      → InOrder start l h
  Reach-InOrder i here = i
  Reach-InOrder i (next r st) = Step-InOrder st (Reach-InOrder i r)
