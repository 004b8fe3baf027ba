-- ===== src/TradeServer/ConnTable/Assign.antt =====
-- Slots taken and given back.
use valyrian_stock_exchange.Prelude.{
  ℕ, ◌+◌, ◌%◌, ◌^◌, ◌<◌, ◌≡◌, refl, true, false, List, [], ◌∷◌, All, length, ◌==◌, ==_self, leb,
  ◌||◌, arith,
}
use valyrian_stock_exchange.Ems.Types.{max_users}
use valyrian_stock_exchange.TradeServer.ConnTable.{
  ConnState, ConnTable, put, assign, release, find_by_user,
}
use valyrian_stock_exchange.TradeServer.ConnTable.FreeList.{Chain, FreeList}

-- Links at slots outside the list do not matter.
Chain-put :
    (links : ℕ → ℕ) (i v top : ℕ) (ids : List ℕ)
    → All (λ j. (j == i) ≡ false) ids
    → Chain links top ids
    → Chain (put links i v) top ids
Chain-put links i v top [] away h = h
Chain-put links i v top (id ∷ ids) away h =
    (h.0, rw away.0 (Chain-put links i v (links id) ids away.1 h.1))

inactive-put :
    (slots : ℕ → ConnState) (i : ℕ) (s : ConnState) (ids : List ℕ)
    → All (λ j. (j == i) ≡ false) ids
    → All (λ j. (slots j).is_active ≡ false) ids
    → All (λ j. (put slots i s j).is_active ≡ false) ids
inactive-put slots i s [] away h = tt
inactive-put slots i s (id ∷ ids) away h = (rw away.0 h.0, inactive-put slots i s ids away.1 h.1)

-- A slot with a connection is not in the list.
active_away :
    (slots : ℕ → ConnState) (i : ℕ) (ids : List ℕ)
    → (slots i).is_active ≡ true
    → All (λ j. (slots j).is_active ≡ false) ids
    → All (λ j. (j == i) ≡ false) ids
active_away slots i [] is h = tt
active_away slots i (id ∷ ids) is h = (ground (arith, is, h.0), active_away slots i ids is h.1)

-- What assign makes of the table: the connection `id` of the user, and the others as they were.
pub record Assigned (t t' : ConnTable) (id user_id : ℕ) : Type 0 where
  pub fresh : (t.slots id).is_active ≡ false
  pub state : t'.slots id ≡ record { user_id = user_id; last_client_seq = 0; is_active = true }
  pub found : find_by_user t' user_id ≡ id
  pub others : (j : ℕ) → (j == id) ≡ false → t'.slots j ≡ t.slots j

-- In a table with these free slots, assign takes the first of them for the user: it was free, it is
-- neither zero nor outside the table, it is active with the user's number and no message seen, the
-- user is found at it, the other slots are as before and the rest of the list stays free.
pub assign-Assigned :
    (k_max : ℕ) (t : ConnTable) (user_id id : ℕ) (ids : List ℕ)
    → FreeList k_max t (id ∷ ids)
    → length ids < 2 ^ 31
    → ((assign t user_id).0 ≡ id)
      × Assigned t (assign t user_id).1 id user_id
      × FreeList k_max (assign t user_id).1 ids
unfolding assign find_by_user
assign-Assigned k_max t user_id id ids f few =
    let top : t.free_top ≡ id = f.chain.0 in
    let some_free : (id == 0) ≡ false = ground (arith, f.inside.0.0) in
    rw (assign, top, some_free)
      (
        refl,
        record {
          fresh = f.free.0;
          state = rw (==_self id) refl;
          found = rw (find_by_user, ==_self (user_id % max_users)) refl;
          others = λ j away. rw away refl;
        },
        record {
          chain = f.chain.1;
          inside = f.inside.1;
          distinct = f.distinct.1;
          counted = omega (arith, f.counted);
          free = inactive-put t.slots id _ ids f.distinct.0 f.free.1;
        },
      )

-- Without a free slot assign returns zero and leaves the table alone.
pub assign-none :
    (k_max : ℕ) (t : ConnTable) (user_id : ℕ) → FreeList k_max t [] → assign t user_id ≡ (0, t)
unfolding assign
assign-none k_max t user_id f = rw (assign, f.chain) refl

-- In a table with these free slots, release of a slot that has a connection puts it in front of them,
-- and the other slots are as before.
pub release-FreeList :
    (k_max : ℕ) (t : ConnTable) (id : ℕ) (ids : List ℕ)
    → FreeList k_max t ids
    → 0 < id
    → id < k_max
    → (t.slots id).is_active ≡ true
    → length ids + 1 < 2 ^ 32
    → FreeList k_max (release k_max t id) (id ∷ ids)
      × ((j : ℕ) → (j == id) ≡ false → (release k_max t id).slots j ≡ t.slots j)
unfolding release
release-FreeList k_max t id ids f pos inside active few =
    let within : ((id == 0) || leb k_max id) ≡ false = ground arith in
    let away = active_away t.slots id ids active f.free in
    rw (release, within)
      (
        record {
          chain = (
            refl,
            rw (==_self id) (Chain-put t.next_free id t.free_top t.free_top ids away f.chain),
          );
          inside = ((pos, inside), f.inside);
          distinct = (away, f.distinct);
          counted = omega (arith, f.counted);
          free = (rw (==_self id) refl, inactive-put t.slots id _ ids away f.free);
        },
        λ j other. rw other refl,
      )
