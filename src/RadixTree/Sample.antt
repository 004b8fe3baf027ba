-- ===== src/RadixTree/Sample.antt =====
-- The instance of libart at which the examples are run: an association list.
pub mod Lex
use valyrian_stock_exchange.Prelude.{
  ℕ, ◌≡◌, refl, sym, ◌∙◌, ap, Bool, true, false, Option, none, some, List, [], ◌∷◌, length, ◌==◌,
  if◌then◌else◌, Bool-cases, inl, inr, arith,
}
use valyrian_stock_exchange.RadixTree.{Art, same_key, KeyLe}
use valyrian_stock_exchange.RadixTree.Keys.{same_key-eq, same_key_self}
use valyrian_stock_exchange.RadixTree.Sample.Lex.{
  lex_le, lex_ge, lex_le_total, lex_ge_total, lex_le_trans, lex_ge_trans, lex_le-KeyLe,
}

same_key_comm : (xs ys : List ℕ) → same_key xs ys ≡ same_key ys xs
same_key_comm [] [] = refl
same_key_comm [] (b ∷ ys) = refl
same_key_comm (a ∷ xs) [] = refl
same_key_comm (a ∷ xs) (b ∷ ys) = ground (arith, same_key_comm xs ys)

le_self :
    (le : List ℕ → List ℕ → Bool)
    → ((xs ys : List ℕ) → le xs ys ≡ false → le ys xs ≡ true)
    → (xs : List ℕ) → le xs xs ≡ true
le_self le total xs = elim (Bool-cases (le xs xs)) [
  | inl holds ↦ holds
  | inr fails ↦ total xs xs fails
]

module _ {V : Type 0} where
  abbrev pub search : List (List ℕ × V) → List ℕ → Option V
  search [] k = none
  search ((j, v) ∷ m) k = if same_key k j then some v else search m k

  abbrev pub remove : List (List ℕ × V) → List ℕ → List (List ℕ × V)
  remove [] k = []
  remove ((j, v) ∷ m) k = let rest = remove m k in if same_key k j then rest else (j, v) ∷ rest

  search-remove :
      (m : List (List ℕ × V)) (k j : List ℕ)
      → search (remove m k) j ≡ (if same_key k j then none else search m j)
  search-remove [] k j = ground arith
  search-remove ((i, w) ∷ m) k j = elim (Bool-cases (same_key k i)) [
    | inl same ↦
        let e = same_key-eq k i same in
        rw (same, search-remove m k j, sym e, same_key_comm j k) (ground arith)
    | inr other ↦
        rw (other, search-remove m k j)
          (elim (Bool-cases (same_key j i)) [
            | inl here ↦ let e = same_key-eq j i here in rw (here, e, other) refl
            | inr there ↦ rw there refl
          ])
  ]

  unfoldable pub insert_new : List (List ℕ × V) → List ℕ → V → Option V × List (List ℕ × V)
  insert_new m k v = (search m k, (k, v) ∷ remove m k)

  pub delete_old : List (List ℕ × V) → List ℕ → Option V × List (List ℕ × V)
  delete_old m k = (search m k, remove m k)

  pub search-insert_new :
      (m : List (List ℕ × V)) (k : List ℕ) (v : V)
      → ((insert_new m k v).0 ≡ search m k)
        × ((j : List ℕ)
            → search (insert_new m k v).1 j ≡ (if same_key k j then some v else search m j))
  unfolding insert_new
  search-insert_new m k v = (
    refl,
    λ j.
        rw (search-remove m k j, same_key_comm j k)
          (elim (Bool-cases (same_key k j)) [
            | inl same ↦ rw same refl
            | inr other ↦ rw other refl
          ]),
  )

  pub search-delete_old :
      (m : List (List ℕ × V)) (k : List ℕ)
      → ((delete_old m k).0 ≡ search m k)
        × ((j : List ℕ) → search (delete_old m k).1 j ≡ (if same_key k j then none else search m j))
  unfolding delete_old
  search-delete_old m k = (refl, search-remove m k)

  pub search-empty : (m : List (List ℕ × V)) (k : List ℕ) → length m ≡ 0 → search m k ≡ none
  search-empty [] k h = refl
  search-empty (e ∷ m) k h = absurd (omega (arith, h))

  -- The key of the entry that comes first by `le`.
  unfoldable pub best_key : (List ℕ → List ℕ → Bool) → List (List ℕ × V) → List ℕ
  best_key le [] = []
  best_key le ((k, v) ∷ []) = k
  best_key le ((k, v) ∷ e ∷ m) = let rest = best_key le (e ∷ m) in if le k rest then k else rest

  unfoldable pub best : (List ℕ → List ℕ → Bool) → List (List ℕ × V) → Option (List ℕ × V)
  unfolding best_key
  best le m = elim (search m (best_key le m)) [ none ↦ none | some v ↦ some (best_key le m, v) ]

  module _ (le : List ℕ → List ℕ → Bool)
      (total : (xs ys : List ℕ) → le xs ys ≡ false → le ys xs ≡ true)
      (trans : (xs ys zs : List ℕ) → le xs ys ≡ true → le ys zs ≡ true → le xs zs ≡ true) where
    search-head :
        (k j : List ℕ) (v : V) (m : List (List ℕ × V))
        → (u : V) × (search m j ≡ some u)
        → (u : V) × (search ((k, v) ∷ m) j ≡ some u)
    search-head k j v m (u, found) = elim (Bool-cases (same_key j k)) [
      | inl same ↦ (v, rw same refl)
      | inr other ↦ (u, rw other found)
    ]

    best_key-found :
        (e : List ℕ × V) (m : List (List ℕ × V))
        → (v : V) × (search (e ∷ m) (best_key le (e ∷ m)) ≡ some v)
    unfolding best_key
    best_key-found (k, v) [] = (v, rw (same_key_self k) refl)
    best_key-found (k, v) (e ∷ m) = elim (Bool-cases (le k (best_key le (e ∷ m)))) [
      | inl first ↦ (v, rw (first, same_key_self k) refl)
      | inr later ↦ rw later (search-head k (best_key le (e ∷ m)) v (e ∷ m) (best_key-found e m))
    ]

    best_key-first :
        (m : List (List ℕ × V)) (j : List ℕ) (u : V)
        → search m j ≡ some u
        → le (best_key le m) j ≡ true
    unfolding best_key
    best_key-first [] j u h = absurd (cc)
    best_key-first ((k, v) ∷ []) j u h = elim (Bool-cases (same_key j k)) [
      | inl same ↦ rw (same_key-eq j k same) (le_self le total k)
      | inr other ↦ let h1 : none ≡ some u = rw other at h in absurd (cc)
    ]
    best_key-first ((k, v) ∷ e ∷ m) j u h =
        let rest = best_key le (e ∷ m) in
        elim (Bool-cases (same_key j k)) [
          | inl same ↦ rw (same_key-eq j k same) (elim (Bool-cases (le k rest)) [
            | inl first ↦ rw first (le_self le total k)
            | inr later ↦ rw later (total k rest later)
          ])
          | inr other ↦
              let below = best_key-first (e ∷ m) j u (rw other at h) in
              elim (Bool-cases (le k rest)) [
                | inl first ↦ rw first (trans k rest j first below)
                | inr later ↦ rw later below
              ]
        ]

    pub best_lem :
        (m : List (List ℕ × V))
        → (length m == 0) ≡ false
        → (k : List ℕ) × (v : V) × (best le m ≡ some (k, v))
          × (search m k ≡ some v)
          × ((j : List ℕ) (u : V) → search m j ≡ some u → le k j ≡ true)
    unfolding best
    best_lem [] h = absurd (ground (arith, h))
    best_lem (e ∷ m) h =
        let (v, found) = best_key-found e m in
        (best_key le (e ∷ m), v, rw (best, found) refl, found, best_key-first (e ∷ m))

unfoldable pub sample : (V : Type 0) → Art V
unfolding insert_new delete_old best
sample V = record {
  Tree = List (List ℕ × V);
  new_tree = [];
  size = length;
  search = search;
  insert = insert_new;
  delete = delete_old;
  minimum = best lex_le;
  maximum = best lex_ge;
  search-new_tree = λ k. refl;
  insert_lem = search-insert_new;
  delete_lem = search-delete_old;
  size_lem = search-empty;
  minimum_lem = λ t h.
      let (k, v, leaf, there, first) = best_lem lex_le lex_le_total lex_le_trans t h in
      (k, v, leaf, there, λ j u found. lex_le-KeyLe k j (first j u found));
  maximum_lem = λ t h.
      let (k, v, leaf, there, first) = best_lem lex_ge lex_ge_total lex_ge_trans t h in
      (k, v, leaf, there, λ j u found. lex_le-KeyLe j k (first j u found));
}
