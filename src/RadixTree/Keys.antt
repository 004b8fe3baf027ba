-- ===== src/RadixTree/Keys.antt =====
-- Prices and their keys.
use valyrian_stock_exchange.Prelude.{
  ℕ, ◌+◌, ◌*◌, ◌^◌, ◌≤◌, ◌<◌, ◌≡◌, refl, sym, ◌∙◌, true, false, List, [], ◌∷◌, All, length, ◌==◌,
  ==_iff, ==_self, inl, inr, arith, Bool-cases,
}
use valyrian_stock_exchange.RadixTree.{same_key, KeyLe, make_key, price_from}

-- The number that the bytes are the digits of.
value_from : ℕ → List ℕ → ℕ
value_from n [] = n
value_from n (byte ∷ bytes) = value_from (n * 256 + byte) bytes

-- The price is read back from its key.
pub price_from-make_key : (p : ℕ) → p < 2 ^ 64 → price_from 0 (make_key p) ≡ p
unfolding make_key price_from
price_from-make_key p small = omega arith

value_from-make_key : (p : ℕ) → p < 2 ^ 64 → value_from 0 (make_key p) ≡ p
unfolding make_key value_from
value_from-make_key p small = omega arith

abbrev Bytes : List ℕ → Type 0
Bytes key = All (λ byte. byte < 256) key

make_key-Bytes : (p : ℕ) → Bytes (make_key p)
unfolding make_key
make_key-Bytes p = (
  omega arith,
  (
    omega arith,
    (omega arith, (omega arith, (omega arith, (omega arith, (omega arith, (omega arith, tt)))))),
  ),
)

value_from-lt :
    (n m : ℕ) (xs ys : List ℕ)
    → n < m
    → length xs ≡ length ys
    → Bytes xs
    → value_from n xs < value_from m ys
unfolding value_from
value_from-lt n m [] [] lt len h = lt
value_from-lt n m [] (b ∷ ys) lt len h = absurd (omega (arith, len))
value_from-lt n m (a ∷ xs) [] lt len h = absurd (omega (arith, len))
value_from-lt n m (a ∷ xs) (b ∷ ys) lt len h =
    value_from-lt (n * 256 + a) (m * 256 + b) xs ys (omega (arith, h.0)) (omega (arith, len)) h.1

value_from-le :
    (n : ℕ) (xs ys : List ℕ)
    → length xs ≡ length ys
    → Bytes xs
    → KeyLe xs ys
    → value_from n xs ≤ value_from n ys
unfolding value_from
value_from-le n [] [] len h le = omega arith
value_from-le n [] (b ∷ ys) len h le = absurd (omega (arith, len))
value_from-le n (a ∷ xs) [] len h le = absurd (omega (arith, len))
value_from-le n (a ∷ xs) (b ∷ ys) len h (inl lt) =
    let below =
      value_from-lt (n * 256 + a) (n * 256 + b) xs ys (omega arith) (omega (arith, len)) h.1 in
    omega (arith, below)
value_from-le n (a ∷ xs) (b ∷ ys) len h (inr (e, le)) =
    rw e (value_from-le (n * 256 + b) xs ys (omega (arith, len)) h.1 le)

length-make_key : (p : ℕ) → length (make_key p) ≡ 8
unfolding make_key
length-make_key p = refl

-- The keys are ordered as the prices are.
pub make_key-KeyLe : (p q : ℕ) → p < 2 ^ 64 → q < 2 ^ 64 → KeyLe (make_key p) (make_key q) → p ≤ q
make_key-KeyLe p q small_p small_q le =
    let values =
      value_from-le 0 (make_key p) (make_key q) (length-make_key p ∙ sym (length-make_key q))
        (make_key-Bytes p) le in
    rw (value_from-make_key p small_p, value_from-make_key q small_q) at values

pub same_key-eq : (xs ys : List ℕ) → same_key xs ys ≡ true → xs ≡ ys
same_key-eq [] [] h = refl
same_key-eq [] (b ∷ ys) h = absurd (cc)
same_key-eq (a ∷ xs) [] h = absurd (cc)
same_key-eq (a ∷ xs) (b ∷ ys) h = elim (Bool-cases (a == b)) [
  | inl same ↦
      let e : a ≡ b = (==_iff a b).0 same in
      let rest : same_key xs ys ≡ true = rw same at h in rw (e, same_key-eq xs ys rest) refl
  | inr other ↦ let no_more : false ≡ true = rw other at h in absurd (cc)
]

pub same_key_self : (xs : List ℕ) → same_key xs xs ≡ true
same_key_self [] = refl
same_key_self (a ∷ xs) = rw (==_self a, same_key_self xs) refl

-- Different prices have different keys.
pub same_key-make_key :
    (p q : ℕ) → p < 2 ^ 64 → q < 2 ^ 64 → same_key (make_key p) (make_key q) ≡ (p == q)
same_key-make_key p q small_p small_q = elim (Bool-cases (p == q)) [
  | inl same ↦ let e : p ≡ q = (==_iff p q).0 same in rw (same, e) (same_key_self (make_key q))
  | inr other ↦ elim (Bool-cases (same_key (make_key p) (make_key q))) [
    | inl equal ↦
        let keys = same_key-eq (make_key p) (make_key q) equal in
        let prices : p ≡ q =
          sym (value_from-make_key p small_p) ∙ (rw keys (value_from-make_key q small_q)) in
        absurd (ground (arith, other, prices))
    | inr different ↦ rw (different, other) refl
  ]
]
