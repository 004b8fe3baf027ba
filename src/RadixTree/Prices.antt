-- ===== src/RadixTree/Prices.antt =====
-- The operations of the tree by price.
use valyrian_stock_exchange.Prelude.{
  ℕ, ◌^◌, ◌≤◌, ◌<◌, ◌≡◌, refl, ◌∙◌, Bool, true, false, none, some, List, ◌==◌, if◌then◌else◌,
  Option-cases, inl, inr,
}
use valyrian_stock_exchange.Outcome.{Outcome, ok, threw, aborted}
use valyrian_stock_exchange.RadixTree.{Art, make_key, insert, find, max_price, min_price, empty}
use valyrian_stock_exchange.RadixTree.Keys.{price_from-make_key, make_key-KeyLe, same_key-make_key}

-- What a call leaves, whether it throws or not.
abbrev pub after {ℓ} : {A : Type ℓ} → Outcome A → A
after (ok a) = a
after (threw a) = a
after (aborted a) = a

abbrev pub returns {ℓ} : {A : Type ℓ} → Outcome A → Bool
returns (ok a) = true
returns (threw a) = false
returns (aborted a) = false

module _ {V : Type 0} (A : Art V) where
  -- All keys are keys of prices.
  pub record Priced (t : A.Tree) : Type 0 where
    pub key_price :
        (k : List ℕ) (v : V) → A.search t k ≡ some v → (p : ℕ) × (p < 2 ^ 64) × (k ≡ make_key p)

  -- After an insertion a price finds the level inserted if it is the price of the insertion, and what
  -- it found before otherwise; the insertion returns exactly if the price had no level.
  pub find-insert :
      (t : A.Tree) (p q : ℕ) (level : V)
      → p < 2 ^ 64
      → q < 2 ^ 64
      → (find A (after (insert A t p level)) q ≡ (if p == q then some level else find A t q))
        × (returns (insert A t p level) ≡ (elim (find A t p) [ none ↦ true | some l ↦ false ]))
  unfolding find insert
  find-insert t p q level small_p small_q =
      let (old, searched) = A.insert_lem t (make_key p) level in
      let found : A.search (A.insert t (make_key p) level).1 (make_key q)
          ≡ (if p == q then some level else A.search t (make_key q)) =
        searched (make_key q) ∙ rw (same_key-make_key p q small_p small_q) refl in
      elim (Option-cases (A.search t (make_key p))) [
        | inl none_there ↦ rw (insert, old, find, none_there) (found, refl)
        | inr (before, there) ↦ rw (insert, old, find, there) (found, refl)
      ]

  -- The price that minPrice reads from a leaf has a level, and no price with a level is below it.
  pub min_price-least :
      (t : A.Tree)
      → Priced t
      → empty A t ≡ false
      → ((level : V) × (find A t (min_price A t) ≡ some level))
        × ((q : ℕ) (level : V) → q < 2 ^ 64 → find A t q ≡ some level → min_price A t ≤ q)
  unfolding find min_price empty
  min_price-least t priced some_level =
      let (k, v, leaf, there, least) = A.minimum_lem t some_level in
      let (p, small, key) = priced.key_price k v there in
      let price : min_price A t ≡ p =
        rw (min_price, some_level, leaf, key) (price_from-make_key p small) in
      (
        (v, rw price (rw key at there)),
        λ q level small_q found.
            rw price
              (make_key-KeyLe p q small small_q (rw key at (least (make_key q) level found))),
      )

  -- The price that maxPrice reads from a leaf has a level, and no price with a level is above it.
  pub max_price-greatest :
      (t : A.Tree)
      → Priced t
      → empty A t ≡ false
      → ((level : V) × (find A t (max_price A t) ≡ some level))
        × ((q : ℕ) (level : V) → q < 2 ^ 64 → find A t q ≡ some level → q ≤ max_price A t)
  unfolding find max_price empty
  max_price-greatest t priced some_level =
      let (k, v, leaf, there, greatest) = A.maximum_lem t some_level in
      let (p, small, key) = priced.key_price k v there in
      let price : max_price A t ≡ p =
        rw (max_price, some_level, leaf, key) (price_from-make_key p small) in
      (
        (v, rw price (rw key at there)),
        λ q level small_q found.
            rw price
              (make_key-KeyLe q p small_q small (rw key at (greatest (make_key q) level found))),
      )
