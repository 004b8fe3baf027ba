-- ===== src/RadixTree.antt =====
-- MatchingEngine/include/AdaptiveRadixTree.h: the class over libart, a git submodule, that holds the
-- levels of a book by price. `Art` is libart with keys of bytes and values of a type.
pub mod Keys
pub mod Prices
pub mod Built
pub mod Sample
use valyrian_stock_exchange.Prelude.{
  ℕ, ◌+◌, ◌*◌, ◌/◌, ◌%◌, ◌^◌, ◌≤◌, ◌<◌, ◌≡◌, Bool, true, false, Option, none, some, List, [], ◌∷◌,
  ◌==◌, ◌&&◌, ◌⊎◌, if◌then◌else◌,
}
use valyrian_stock_exchange.Outcome.{Outcome, ok, threw}

abbrev pub same_key : List ℕ → List ℕ → Bool
same_key [] [] = true
same_key [] (b ∷ ys) = false
same_key (a ∷ xs) [] = false
same_key (a ∷ xs) (b ∷ ys) = (a == b) && same_key xs ys

-- The order of memcmp on keys of one length.
abbrev pub KeyLe : List ℕ → List ℕ → Type 0
KeyLe [] ys = Unit
KeyLe (a ∷ xs) [] = Unit
KeyLe (a ∷ xs) (b ∷ ys) = (a < b) ⊎ ((a ≡ b) × KeyLe xs ys)

pub record Art (V : Type 0) : Type 1 where
  pub Tree : Type 0
  pub new_tree : Tree
  pub size : Tree → ℕ
  pub search : Tree → List ℕ → Option V
  -- with the value that was there before
  pub insert : Tree → List ℕ → V → Option V × Tree
  pub delete : Tree → List ℕ → Option V × Tree
  -- the key and the value of a leaf
  pub minimum : Tree → Option (List ℕ × V)
  pub maximum : Tree → Option (List ℕ × V)
  pub search-new_tree : (k : List ℕ) → search new_tree k ≡ none
  pub insert_lem :
      (t : Tree) (k : List ℕ) (v : V)
      → ((insert t k v).0 ≡ search t k)
        × ((j : List ℕ) → search (insert t k v).1 j ≡ (if same_key k j then some v else search t j))
  pub delete_lem :
      (t : Tree) (k : List ℕ)
      → ((delete t k).0 ≡ search t k)
        × ((j : List ℕ) → search (delete t k).1 j ≡ (if same_key k j then none else search t j))
  pub size_lem : (t : Tree) (k : List ℕ) → size t ≡ 0 → search t k ≡ none
  pub minimum_lem :
      (t : Tree)
      → (size t == 0) ≡ false
      → (k : List ℕ) × (v : V) × (minimum t ≡ some (k, v))
        × (search t k ≡ some v)
        × ((j : List ℕ) (u : V) → search t j ≡ some u → KeyLe k j)
  pub maximum_lem :
      (t : Tree)
      → (size t == 0) ≡ false
      → (k : List ℕ) × (v : V) × (maximum t ≡ some (k, v))
        × (search t k ≡ some v)
        × ((j : List ℕ) (u : V) → search t j ≡ some u → KeyLe j k)

-- The eight bytes of a price, the highest first.
unfoldable pub make_key : ℕ → List ℕ
make_key price =
    price / 2 ^ 56 % 256
    ∷ price / 2 ^ 48 % 256
    ∷ price / 2 ^ 40 % 256
    ∷ price / 2 ^ 32 % 256
    ∷ price / 2 ^ 24 % 256
    ∷ price / 2 ^ 16 % 256
    ∷ price / 2 ^ 8 % 256
    ∷ price % 256
    ∷ []

-- The loop of maxPrice and minPrice: a byte is put behind the price so far.
unfoldable pub price_from : ℕ → List ℕ → ℕ
price_from price [] = price
price_from price (byte ∷ bytes) = price_from (price * 2 ^ 8 % 2 ^ 64 + byte) bytes

module _ {V : Type 0} (A : Art V) where
  abbrev pub leaf_price : Option (List ℕ × V) → ℕ
  leaf_price none = 0
  leaf_price (some (key, v)) = price_from 0 key

  -- An exception is thrown if there was a level, which is replaced all the same.
  unfoldable pub insert : A.Tree → ℕ → V → Outcome A.Tree
  insert t price level =
      let (old, t') = A.insert t (make_key price) level in
      elim old [ none ↦ ok t' | some before ↦ threw t' ]

  unfoldable pub find : A.Tree → ℕ → Option V
  find t price = A.search t (make_key price)

  unfoldable pub erase : A.Tree → ℕ → Outcome A.Tree
  erase t price =
      let (removed, t') = A.delete t (make_key price) in
      elim removed [ none ↦ threw t' | some level ↦ ok t' ]

  unfoldable pub max_price : A.Tree → ℕ
  max_price t = if A.size t == 0 then 0 else leaf_price (A.maximum t)

  unfoldable pub min_price : A.Tree → ℕ
  min_price t = if A.size t == 0 then 0 else leaf_price (A.minimum t)

  unfoldable pub empty : A.Tree → Bool
  empty t = A.size t == 0
