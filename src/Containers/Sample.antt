-- ===== src/Containers/Sample.antt =====
-- The instance of the containers at which the examples are run: association lists.
use valyrian_stock_exchange.Prelude.{
  ℕ, ◌≤◌, ◌≡◌, refl, sym, Bool, true, false, Option, none, some, List, [], ◌∷◌, All, max, min, ◌==◌,
  ◌⊎◌, inl, inr, Bool-cases, arith, if◌then◌else◌,
}
use mathlib.Core.Path.{subst}
use native.Mathlib.Decide.{dec_lt}
use valyrian_stock_exchange.Prelude.Assoc.{lookup, insert, write, delete}
use valyrian_stock_exchange.PriceLevel.{PriceLevel}
use valyrian_stock_exchange.Containers.{Containers, OrderPtr}

abbrev pub Levels : Type 0
Levels = List (ℕ × PriceLevel)

abbrev pub Ids : Type 0
Ids = List (ℕ × OrderPtr)

pub insert_new : Levels → ℕ → PriceLevel → Option Levels
insert_new m p level = elim (lookup p m) [ none ↦ some (insert p level m) | some _ ↦ none ]

pub erase_old : Levels → ℕ → Option Levels
erase_old m p = elim (lookup p m) [ none ↦ none | some _ ↦ some (delete p m) ]

pub greatest : Levels → ℕ
greatest [] = 0
greatest ((p, l) ∷ m) = max p (greatest m)

pub least : Levels → ℕ
least [] = 0
least ((p, l) ∷ []) = p
least ((p, l) ∷ e ∷ m) = min p (least (e ∷ m))

pub no_levels : Levels → Bool
no_levels [] = true
no_levels (_ ∷ _) = false

pub emplace_new : Ids → ℕ → OrderPtr → Ids
emplace_new m k o = elim (lookup k m) [ none ↦ (k, o) ∷ m | some _ ↦ m ]

pub erase_all : Ids → ℕ → Ids
erase_all [] k = []
erase_all ((j, o) ∷ m) k = let rest = erase_all m k in if j == k then rest else (j, o) ∷ rest

pub insert_new_lem :
    (m : Levels) (p : ℕ) (level : PriceLevel)
    → lookup p m ≡ none
    → (t : Levels) × (insert_new m p level ≡ some t) × (t ≡ insert p level m)
unfolding insert_new
insert_new_lem m p level h = (insert p level m, rw (h, insert_new), refl)

pub erase_old_lem :
    (m : Levels) (p : ℕ) (level : PriceLevel)
    → lookup p m ≡ some level
    → (t : Levels) × (erase_old m p ≡ some t) × (t ≡ delete p m)
unfolding erase_old
erase_old_lem m p level h = (delete p m, rw (h, erase_old), refl)

All-le_mono : (a b : ℕ) (m : Levels) → a ≤ b → All (λ e. e.0 ≤ a) m → All (λ e. e.0 ≤ b) m
All-le_mono a b [] h all = tt
All-le_mono a b ((p, l) ∷ m) h all = (omega arith, All-le_mono a b m h all.1)

All-ge_mono : (a b : ℕ) (m : Levels) → b ≤ a → All (λ e. a ≤ e.0) m → All (λ e. b ≤ e.0) m
All-ge_mono a b [] h all = tt
All-ge_mono a b ((p, l) ∷ m) h all = (omega arith, All-ge_mono a b m h all.1)

pub greatest-bounds : (m : Levels) → All (λ e. e.0 ≤ greatest m) m
unfolding greatest
greatest-bounds [] = tt
greatest-bounds ((p, l) ∷ m) =
    (omega arith, All-le_mono (greatest m) (max p (greatest m)) m (omega arith) (greatest-bounds m))

pub least-bounds : (m : Levels) → All (λ e. least m ≤ e.0) m
unfolding least
least-bounds [] = tt
least-bounds ((p, l) ∷ []) = (omega arith, tt)
least-bounds ((p, l) ∷ e ∷ m) = (
  omega arith,
  All-ge_mono (least (e ∷ m)) (min p (least (e ∷ m))) (e ∷ m) (omega arith) (least-bounds (e ∷ m)),
)

found_cons :
    (p k : ℕ) (l x : PriceLevel) (m : Levels)
    → lookup k m ≡ some x
    → (y : PriceLevel) × (lookup k ((p, l) ∷ m) ≡ some y)
found_cons p k l x m h = elim (Bool-cases (p == k)) [ inl e ↦ (l, rw e) | inr e ↦ (x, rw e h) ]

-- The larger, or the smaller, of a key in front and of a key further on is found.
found_either :
    (p k q : ℕ) (l x : PriceLevel) (m : Levels)
    → (q ≡ k) ⊎ (q ≡ p)
    → lookup k m ≡ some x
    → (y : PriceLevel) × (lookup q ((p, l) ∷ m) ≡ some y)
found_either p k q l x m (inl e) h =
    subst (λ r. (y : PriceLevel) × (lookup r ((p, l) ∷ m) ≡ some y)) (sym e)
      (found_cons p k l x m h)
found_either p k q l x m (inr e) h = (l, ground arith)

max_is_either : (p k : ℕ) → (max p k ≡ k) ⊎ (max p k ≡ p)
max_is_either p k = elim (dec_lt p k) [ yes lt ↦ inl (omega arith) | no ge ↦ inr (omega arith) ]

min_is_either : (p k : ℕ) → (min p k ≡ k) ⊎ (min p k ≡ p)
min_is_either p k = elim (dec_lt k p) [ yes lt ↦ inl (omega arith) | no ge ↦ inr (omega arith) ]

pub greatest-found :
    (m : Levels) → no_levels m ≡ false → (l : PriceLevel) × (lookup (greatest m) m ≡ some l)
unfolding greatest no_levels
greatest-found [] h = absurd (cc)
greatest-found ((p, l) ∷ []) h = (l, ground arith)
greatest-found ((p, l) ∷ e ∷ m) h =
    let (x, f) = greatest-found (e ∷ m) refl in
    let k = greatest (e ∷ m) in found_either p k (max p k) l x (e ∷ m) (max_is_either p k) f

pub least-found :
    (m : Levels) → no_levels m ≡ false → (l : PriceLevel) × (lookup (least m) m ≡ some l)
unfolding least no_levels
least-found [] h = absurd (cc)
least-found ((p, l) ∷ []) h = (l, ground arith)
least-found ((p, l) ∷ e ∷ m) h =
    let (x, f) = least-found (e ∷ m) refl in
    let k = least (e ∷ m) in found_either p k (min p k) l x (e ∷ m) (min_is_either p k) f

pub no_levels_lem : (m : Levels) → no_levels m ≡ true → m ≡ []
unfolding no_levels
no_levels_lem [] h = refl
no_levels_lem (e ∷ m) h = absurd (cc)

pub lookup-emplace_new :
    (m : Ids) (k id : ℕ) (o : OrderPtr)
    → lookup id (emplace_new m k o)
      ≡ (if k == id then elim (lookup k m) [ none ↦ some o | some old ↦ some old ] else lookup id m)
unfolding emplace_new
lookup-emplace_new m k id o = ground arith

pub lookup-erase_all :
    (m : Ids) (k id : ℕ) → lookup id (erase_all m k) ≡ (if k == id then none else lookup id m)
unfolding erase_all
lookup-erase_all [] k id = ground arith
lookup-erase_all ((j, o) ∷ m) k id = ground (arith, lookup-erase_all m k id)

unfoldable pub sample : Containers
unfolding insert_new erase_old greatest least no_levels emplace_new erase_all
sample = record {
  Tree = Levels;
  new_tree = [];
  entries = λ t. t;
  find_level = λ t p. lookup p t;
  insert_level = insert_new;
  erase_level = erase_old;
  write_level = λ t p level. write p level t;
  max_price = greatest;
  min_price = least;
  is_empty = no_levels;
  Index = Ids;
  new_index = [];
  find_id = λ m id. lookup id m;
  emplace = emplace_new;
  erase_id = erase_all;
  entries-new_tree = refl;
  find_level_lem = λ t p h. refl;
  insert_level_lem = λ t p level h e. insert_new_lem t p level e;
  erase_level_lem = λ t p level h e. erase_old_lem t p level e;
  write_level_lem = λ t p level h. refl;
  is_empty_lem = no_levels_lem;
  max_price_lem = λ t h. (greatest-found t h, greatest-bounds t);
  min_price_lem = λ t h. (least-found t h, least-bounds t);
  find_id-new_index = λ id. refl;
  find_id-emplace = lookup-emplace_new;
  find_id-erase_id = lookup-erase_all;
}
