-- ===== src/RadixTree/Sample/Lex.antt =====
-- The lexicographic order of keys as a test.
use valyrian_stock_exchange.Prelude.{
  ℕ, ◌≡◌, refl, Bool, true, false, List, [], ◌∷◌, ltb, ◌==◌, if◌then◌else◌, arith,
}
use valyrian_stock_exchange.RadixTree.{KeyLe}

abbrev pub lex_le : List ℕ → List ℕ → Bool
lex_le [] ys = true
lex_le (a ∷ xs) [] = false
lex_le (a ∷ xs) (b ∷ ys) =
    let rest = lex_le xs ys in if ltb a b then true else if a == b then rest else false

abbrev pub lex_ge : List ℕ → List ℕ → Bool
lex_ge xs ys = lex_le ys xs

pub lex_le_total : (xs ys : List ℕ) → lex_le xs ys ≡ false → lex_le ys xs ≡ true
lex_le_total [] ys h = absurd (cc)
lex_le_total (a ∷ xs) [] h = refl
lex_le_total (a ∷ xs) (b ∷ ys) h = ground (arith, h, lex_le_total xs ys)

pub lex_le_trans :
    (xs ys zs : List ℕ) → lex_le xs ys ≡ true → lex_le ys zs ≡ true → lex_le xs zs ≡ true
lex_le_trans [] ys zs h g = refl
lex_le_trans (a ∷ xs) [] zs h g = absurd (cc)
lex_le_trans (a ∷ xs) (b ∷ ys) [] h g = absurd (cc)
lex_le_trans (a ∷ xs) (b ∷ ys) (c ∷ zs) h g = ground (arith, h, g, lex_le_trans xs ys zs)

pub lex_le-KeyLe : (xs ys : List ℕ) → lex_le xs ys ≡ true → KeyLe xs ys
lex_le-KeyLe [] ys h = tt
lex_le-KeyLe (a ∷ xs) [] h = tt
lex_le-KeyLe (a ∷ xs) (b ∷ ys) h = ground (arith, h, lex_le-KeyLe xs ys)

pub lex_ge_total : (xs ys : List ℕ) → lex_ge xs ys ≡ false → lex_ge ys xs ≡ true
lex_ge_total xs ys h = lex_le_total ys xs h

pub lex_ge_trans :
    (xs ys zs : List ℕ) → lex_ge xs ys ≡ true → lex_ge ys zs ≡ true → lex_ge xs zs ≡ true
lex_ge_trans xs ys zs h g = lex_le_trans zs ys xs g h
