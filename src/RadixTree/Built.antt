-- ===== src/RadixTree/Built.antt =====
-- The trees that insertions and removals make of a new one.
use valyrian_stock_exchange.Prelude.{
  ℕ, ◌^◌, ◌<◌, ◌≡◌, refl, ◌∙◌, true, false, none, some, if◌then◌else◌, Option-cases, Bool-cases,
  inl, inr, ◌==◌,
}
use valyrian_stock_exchange.RadixTree.{Art, same_key, make_key, insert, find, erase}
use valyrian_stock_exchange.RadixTree.Keys.{same_key-eq, same_key-make_key}
use valyrian_stock_exchange.RadixTree.Prices.{after, returns, Priced}

module _ {V : Type 0} (A : Art V) where
  -- The calls that changed the tree, also those that threw.
  pub data Built : A.Tree → Type 0 where
    fresh : Built A.new_tree
    inserted :
        {t : A.Tree} (p : ℕ) (level : V) → p < 2 ^ 64 → Built t → Built (after (insert A t p level))
    erased : {t : A.Tree} (p : ℕ) → p < 2 ^ 64 → Built t → Built (after (erase A t p))

  after-insert :
      (t : A.Tree) (p : ℕ) (level : V)
      → after (insert A t p level) ≡ (A.insert t (make_key p) level).1
  unfolding insert
  after-insert t p level = elim (Option-cases (A.insert t (make_key p) level).0) [
    | inl free ↦ rw (insert, free) refl
    | inr (before, taken) ↦ rw (insert, taken) refl
  ]

  after-erase : (t : A.Tree) (p : ℕ) → after (erase A t p) ≡ (A.delete t (make_key p)).1
  unfolding erase
  after-erase t p = elim (Option-cases (A.delete t (make_key p)).0) [
    | inl missing ↦ rw (erase, missing) refl
    | inr (level, there) ↦ rw (erase, there) refl
  ]

  insert-Priced :
      (t : A.Tree) (p : ℕ) (level : V)
      → p < 2 ^ 64
      → Priced A t
      → Priced A (after (insert A t p level))
  insert-Priced t p level small priced = rw (after-insert t p level) (record {
    key_price = λ k v found. elim (Bool-cases (same_key (make_key p) k)) [
      | inl same ↦ (p, small, rw (same_key-eq (make_key p) k same) refl)
      | inr other ↦
          priced.key_price k v (rw ((A.insert_lem t (make_key p) level).1 k, other) at found)
    ];
  })

  erase-Priced : (t : A.Tree) (p : ℕ) → Priced A t → Priced A (after (erase A t p))
  erase-Priced t p priced = rw (after-erase t p) (record {
    key_price = λ k v found. elim (Bool-cases (same_key (make_key p) k)) [
      | inl same ↦
          let gone : none ≡ some v = rw ((A.delete_lem t (make_key p)).1 k, same) at found in
          absurd (cc)
      | inr other ↦ priced.key_price k v (rw ((A.delete_lem t (make_key p)).1 k, other) at found)
    ];
  })

  -- Every key of a tree that insertions and removals made of a new one, whether they threw or not,
  -- is the key of a price.
  pub Built-Priced : (t : A.Tree) → Built t → Priced A t
  Built-Priced t fresh = record {
    key_price = λ k v found.
        let none_there : none ≡ some v = rw (A.search-new_tree k) at found in absurd (cc);
  }
  Built-Priced t (inserted {t = t0} p level small before) =
      insert-Priced t0 p level small (Built-Priced t0 before)
  Built-Priced t (erased {t = t0} p small before) = erase-Priced t0 p (Built-Priced t0 before)

  -- After a removal the price finds nothing, and any other price what it found before; the removal
  -- returns exactly if the price had a level.
  pub find-erase :
      (t : A.Tree) (p q : ℕ)
      → p < 2 ^ 64
      → q < 2 ^ 64
      → (find A (after (erase A t p)) q ≡ (if p == q then none else find A t q))
        × (returns (erase A t p) ≡ (elim (find A t p) [ none ↦ false | some l ↦ true ]))
  unfolding find erase
  find-erase t p q small_p small_q =
      let (removed, searched) = A.delete_lem t (make_key p) in
      let found : A.search (A.delete t (make_key p)).1 (make_key q)
          ≡ (if p == q then none else A.search t (make_key q)) =
        searched (make_key q) ∙ rw (same_key-make_key p q small_p small_q) refl in
      elim (Option-cases (A.search t (make_key p))) [
        | inl none_there ↦ rw (erase, removed, find, none_there) (found, refl)
        | inr (level, there) ↦ rw (erase, removed, find, there) (found, refl)
      ]
