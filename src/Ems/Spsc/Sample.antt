-- ===== src/Ems/Spsc/Sample.antt =====
-- The instance of the bounded queue at which the examples are run: a list and its bound.
use valyrian_stock_exchange.Prelude.{
  ℕ, ◌≤◌, ◌<◌, ◌≡◌, refl, Bool, true, false, Option, none, some, List, [], ◌∷◌, ◌++◌, length, ltb,
  arith, if◌then◌else◌,
}
use valyrian_stock_exchange.Ems.Spsc.{Spsc}

module _ (A : Type 0) where
  pub record Bounded : Type 0 where
    pub bound : ℕ
    pub items : List A

module _ {A : Type 0} where
  abbrev pub push_bounded : Bounded A → A → Option (Bounded A)
  push_bounded q a =
      if ltb (length q.items) q.bound then some (record q { items = q.items ++ (a ∷ []) }) else none

  abbrev pub head_of : List A → Option A
  head_of [] = none
  head_of (a ∷ rest) = some a

  abbrev pub tail_of : List A → List A
  tail_of [] = []
  tail_of (a ∷ rest) = rest

  abbrev pub is_nil : List A → Bool
  is_nil [] = true
  is_nil (a ∷ rest) = false

  pub push_bounded-room :
      (q : Bounded A) (a : A)
      → length q.items < q.bound
      → push_bounded q a ≡ some (record q { items = q.items ++ (a ∷ []) })
  push_bounded-room q a h = ground arith

  pub push_bounded-full :
      (q : Bounded A) (a : A) → q.bound ≤ length q.items → push_bounded q a ≡ none
  push_bounded-full q a h = ground arith

  pub is_nil_lem : (items : List A) → is_nil items ≡ true → items ≡ []
  is_nil_lem [] h = refl
  is_nil_lem (a ∷ rest) h = absurd (cc)

unfoldable pub sample_queue : (A : Type 0) → Spsc A
sample_queue A = record {
  Queue = Bounded A;
  new_queue = λ n. record { bound = n; items = [] };
  contents = λ q. q.items;
  capacity = λ q. q.bound;
  try_push = push_bounded;
  front = λ q. head_of q.items;
  pop = λ q. record q { items = tail_of q.items };
  empty = λ q. is_nil q.items;
  new_queue_lem = λ n. (refl, refl);
  try_push-room =
      λ q a h. (record q { items = q.items ++ (a ∷ []) }, push_bounded-room q a h, refl, refl);
  try_push-full = push_bounded-full;
  front-empty = λ q h. rw h refl;
  front-some = λ q a rest h. rw h refl;
  pop_lem = λ q a rest h. (rw h refl, refl);
  empty_lem = λ q h. is_nil_lem q.items h;
}
