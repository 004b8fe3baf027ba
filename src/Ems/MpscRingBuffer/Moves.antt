-- ===== src/Ems/MpscRingBuffer/Moves.antt =====
-- One order put into the ring, and one taken out.
use native.Mathlib.Decide.{dec_lt}
use valyrian_stock_exchange.Prelude.{
  ℕ, suc, ◌+◌, ◌%◌, ◌^◌, ◌≤◌, ◌<◌, ◌≡◌, refl, sym, true, false, Option, none, some, List, [], ◌∷◌,
  ◌++◌, length, length-append, ◌==◌, arith, if◌then◌else◌,
}
use valyrian_stock_exchange.Ems.Types.{OrderSlot}
use valyrian_stock_exchange.Ems.Disruptor.{Disruptor, before}
use valyrian_stock_exchange.Ems.MpscRingBuffer.{
  claim_slot, publish, is_available, release_slot, get, fill,
}
use valyrian_stock_exchange.Ems.MpscRingBuffer.Holds.{From, Holds, From-claimed, is_available_lem}

module _ (D : Disruptor) where
  -- claimSlot, the stores into the slot and publish, as an ingress worker calls them one after the
  -- other. What other threads do between them is not modelled.
  unfoldable pub put_order : D.Buffer → OrderSlot → Option D.Buffer
  put_order b s = elim (claim_slot D b) [
    | none ↦ none
    | some (seq, b1) ↦ some (publish D (fill D b1 seq s) seq)
  ]

  From-put :
      (b b' : D.Buffer) (s : OrderSlot) (i : ℕ) (orders : List OrderSlot)
      → D.claimed b' ≡ suc (D.claimed b)
      → D.is_published b' (D.claimed b) ≡ true
      → D.read b' (D.claimed b) ≡ s
      → ((j : ℕ) → D.is_published b j ≡ true → D.is_published b' j ≡ true)
      → ((j : ℕ) → i ≤ j → j < D.claimed b → D.read b' j ≡ D.read b j)
      → From D b i orders
      → From D b' i (orders ++ (s ∷ []))
  From-put b b' s i [] c p r keeps reads h = (rw (sym h) p, rw (sym h) r, rw (c, h) refl)
  From-put b b' s i (o ∷ rest) c p r keeps reads h =
      let len = From-claimed D b (suc i) rest h.2 in
      (
        keeps i h.0,
        rw (reads i (omega arith) (omega arith)) h.1,
        From-put b b' s (suc i) rest c p r keeps (λ j le lt. reads j (omega arith) lt) h.2,
      )

  -- What the library does to a buffer with room when an order is put into it.
  record PutIn (b : D.Buffer) (s : OrderSlot) : Type 0 where
    after : D.Buffer
    is : put_order b s ≡ some after
    size : D.size after ≡ D.size b
    claimed : D.claimed after ≡ suc (D.claimed b)
    released : D.released after ≡ D.released b
    published :
        (i : ℕ) → D.is_published after i ≡ (if i == D.claimed b then true else D.is_published b i)
    here : D.read after (D.claimed b) ≡ s
    reads : (i : ℕ) → i < D.claimed b → D.claimed b < i + D.size b → D.read after i ≡ D.read b i

  put_order-PutIn :
      (b : D.Buffer) (s : OrderSlot)
      → D.claimed b < 2 ^ 62
      → D.claimed b < D.released b + D.size b
      → PutIn b s
  unfolding put_order claim_slot publish fill
  put_order-PutIn b s small room =
      let n = D.claimed b in
      let (b1, e, size1, claimed1, released1, published1, read1) = D.claim_one_lem b room in
      let (size2, claimed2, released2, published2, here2) = D.write_lem b1 n s in
      let (size3, claimed3, released3, published3, read3) = D.publish_lem (D.write b1 n s) n in
      let at : (n + 1) % 2 ^ 64 ≡ suc n = omega arith in
      let back : before (suc n) ≡ n = omega arith in
      record {
        after = D.publish (D.write b1 n s) n;
        is = rw (put_order, claim_slot, e, publish, fill, at, back) refl;
        size = rw (size3, size2) size1;
        claimed = rw (claimed3, claimed2) claimed1;
        released = rw (released3, released2) released1;
        published = λ i. rw (published3 i, published2 i, published1 i) refl;
        here = rw (read3 n) here2;
        reads = λ i lt near. rw (read3 i, D.read-write_ne b1 n i s lt (rw size1 near)) (read1 i);
      }

  From-same :
      (b b' : D.Buffer) (i : ℕ) (orders : List OrderSlot)
      → D.claimed b' ≡ D.claimed b
      → ((j : ℕ) → D.is_published b' j ≡ D.is_published b j)
      → ((j : ℕ) → D.read b' j ≡ D.read b j)
      → From D b i orders
      → From D b' i orders
  From-same b b' i [] c p r h = rw c h
  From-same b b' i (o ∷ rest) c p r h =
      (rw (p i) h.0, rw (r i) h.1, From-same b b' (suc i) rest c p r h.2)

  -- A ring that holds fewer orders than it has slots takes another one, behind the others.
  pub put_order-Holds :
      (b : D.Buffer) (next : ℕ) (orders : List OrderSlot) (s : OrderSlot)
      → Holds D b next orders
      → length orders < D.size b
      → next + length orders < 2 ^ 62
      → (b' : D.Buffer) × (put_order b s ≡ some b')
        × Holds D b' next (orders ++ (s ∷ []))
        × (D.size b' ≡ D.size b)
  put_order-Holds b next orders s h room small =
      let len = From-claimed D b (D.released b) orders h.from in
      let p = put_order-PutIn b s (omega (arith, h.released)) (omega arith) in
      (
        p.after,
        p.is,
        record {
          starts = h.starts;
          released = rw p.released h.released;
          fits = rw (p.size, length-append orders (s ∷ [])) (omega arith);
          from = rw p.released (
              From-put b p.after s (D.released b) orders p.claimed
                (rw (p.published (D.claimed b)) (ground arith)) p.here
                (λ j is. rw (p.published j, is) (ground arith))
                (λ j le lt. p.reads j lt (omega arith)) h.from);
          fresh = λ j le.
              rw (p.published j, h.fresh j (omega (arith, p.claimed))) (ground (arith, p.claimed));
        },
        p.size,
      )

  pub get-Holds :
      (b : D.Buffer) (next : ℕ) (s : OrderSlot) (rest : List OrderSlot)
      → Holds D b next (s ∷ rest)
      → next < 2 ^ 62
      → (is_available D b next ≡ true) × (get D b next ≡ s)
  unfolding get
  get-Holds b next s rest h small =
      let len = From-claimed D b (D.released b) (s ∷ rest) h.from in
      let here : before next ≡ D.released b = omega (arith, h.released) in
      (
        rw
            (
              sym h.released,
              is_available_lem D b (D.released b) (omega (arith, h.released))
                  (omega (arith, len, h.fits)),
            )
            h.from.0,
        rw (get, here) h.from.1,
      )

  pub not_available-Holds :
      (b : D.Buffer) (next : ℕ) → Holds D b next [] → next ≤ 2 ^ 62 → is_available D b next ≡ false
  not_available-Holds b next h small =
      rw
        (
          sym h.released,
          is_available_lem D b (D.released b) (omega (arith, h.released)) (omega (arith, h.from)),
        )
        (h.fresh (D.released b) (omega (arith, h.from)))

  pub release_slot-Holds :
      (b : D.Buffer) (next : ℕ) (s : OrderSlot) (rest : List OrderSlot)
      → Holds D b next (s ∷ rest)
      → next < 2 ^ 62
      → Holds D (release_slot D b next) (suc next) rest
  unfolding release_slot
  release_slot-Holds b next s rest h small =
      let here : before next ≡ D.released b = omega (arith, h.released) in
      let (size, claimed, released, published, reads) = D.publish_consumed_lem b (before next) in
      let b' = D.publish_consumed b (before next) in
      let fresh : (i : ℕ) → D.claimed b' ≤ i → D.is_published b' i ≡ false =
        λ i le. rw (published i) (h.fresh i (omega (arith, claimed))) in
      record {
        starts = omega arith;
        released = omega (arith, released, here, h.released);
        fits = omega (arith, size, h.fits);
        from =
            rw (released, here)
              (From-same b b' (suc (D.released b)) rest claimed published reads h.from.2);
        fresh = fresh;
      }

  -- Only a ring with room takes an order.
  pub put_order-room :
      (b b' : D.Buffer) (s : OrderSlot)
      → put_order b s ≡ some b'
      → D.claimed b < D.released b + D.size b
  unfolding put_order claim_slot
  put_order-room b b' s e = elim (dec_lt (D.claimed b) (D.released b + D.size b)) [
    | yes room ↦ room
    | no full ↦
        let waits : put_order b s ≡ none =
          rw (put_order, claim_slot, D.claim_one-full b (omega arith)) refl in
        absurd (cc)
  ]

  pub release_slot-claimed :
      (b : D.Buffer) (seq : ℕ) → D.claimed (release_slot D b seq) ≡ D.claimed b
  unfolding release_slot
  release_slot-claimed b seq = (D.publish_consumed_lem b (before seq)).1
