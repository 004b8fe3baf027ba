-- ===== src/Prelude/Assoc.antt =====
-- Association lists whose keys are numbers: the view through which keyed containers are specified.
use Prim.Native.Nat.{ℕ, ◌+◌, ◌≤◌}
use mathlib.Core.Path.{◌≡◌, refl}
use mathlib.Core.Logic.{◌≢◌}
use mathlib.Core.List.{List, [], ◌∷◌}
use mathlib.Core.Option.{Option, none, some}
use native.Mathlib.Omega.{arith}
use valyrian_stock_exchange.Prelude.Tests.{◌==◌, ltb, if◌then◌else◌}
use valyrian_stock_exchange.Prelude.Lists.{All}

module _ {V : Type 0} where
  abbrev pub lookup : ℕ → List (ℕ × V) → Option V
  lookup k [] = none
  lookup k ((j, v) ∷ m) = if j == k then some v else lookup k m

  -- Before the first greater key; used where the key is absent.
  abbrev pub insert : ℕ → V → List (ℕ × V) → List (ℕ × V)
  insert k v [] = (k, v) ∷ []
  insert k v ((j, w) ∷ m) = if ltb k j then (k, v) ∷ (j, w) ∷ m else (j, w) ∷ insert k v m

  -- Replaces the value at a key that is there.
  abbrev pub write : ℕ → V → List (ℕ × V) → List (ℕ × V)
  write k v [] = []
  write k v ((j, w) ∷ m) = if j == k then (j, v) ∷ m else (j, w) ∷ write k v m

  abbrev pub delete : ℕ → List (ℕ × V) → List (ℕ × V)
  delete k [] = []
  delete k ((j, w) ∷ m) = if j == k then m else (j, w) ∷ delete k m

  abbrev pub sum_by : (V → ℕ) → List (ℕ × V) → ℕ
  sum_by f [] = 0
  sum_by f ((j, w) ∷ m) = f w + sum_by f m

  pub lookup-insert :
      (k j : ℕ) (v : V) (m : List (ℕ × V))
      → lookup k m ≡ none
      → lookup j (insert k v m) ≡ (if k == j then some v else lookup j m)
  lookup-insert k j v [] h = refl
  lookup-insert k j v ((i, w) ∷ m) h = ground (arith, lookup-insert k j v m)

  pub lookup-write :
      (k j : ℕ) (v u : V) (m : List (ℕ × V))
      → lookup k m ≡ some u
      → lookup j (write k v m) ≡ (if k == j then some v else lookup j m)
  lookup-write k j v u [] h = cc
  lookup-write k j v u ((i, w) ∷ m) h = ground (arith, lookup-write k j v u m)

  pub lookup-delete_ne : (k j : ℕ) (m : List (ℕ × V)) → k ≢ j → lookup j (delete k m) ≡ lookup j m
  lookup-delete_ne k j [] h = refl
  lookup-delete_ne k j ((i, w) ∷ m) h = ground (arith, lookup-delete_ne k j m)

  pub sum_by-insert :
      (f : V → ℕ) (k : ℕ) (v : V) (m : List (ℕ × V)) → sum_by f (insert k v m) ≡ f v + sum_by f m
  sum_by-insert f k v [] = refl
  sum_by-insert f k v ((i, w) ∷ m) = ground (arith, sum_by-insert f k v m)

  pub sum_by-write :
      (f : V → ℕ) (k : ℕ) (v u : V) (m : List (ℕ × V))
      → lookup k m ≡ some u
      → sum_by f (write k v m) + f u ≡ sum_by f m + f v
  sum_by-write f k v u [] h = cc
  sum_by-write f k v u ((i, w) ∷ m) h = ground (arith, sum_by-write f k v u m)

  pub sum_by-delete :
      (f : V → ℕ) (k : ℕ) (u : V) (m : List (ℕ × V))
      → lookup k m ≡ some u
      → sum_by f (delete k m) + f u ≡ sum_by f m
  sum_by-delete f k u [] h = cc
  sum_by-delete f k u ((i, w) ∷ m) h = ground (arith, sum_by-delete f k u m)

module _ {V : Type 0} (P : ℕ × V → Type 0) where
  pub All-insert : (k : ℕ) (v : V) (m : List (ℕ × V)) → P (k, v) → All P m → All P (insert k v m)
  All-insert k v [] p h = (p, tt)
  All-insert k v ((i, w) ∷ m) p h = ground (arith, All-insert k v m p h.1)

  pub All-write : (k : ℕ) (v : V) (m : List (ℕ × V)) → P (k, v) → All P m → All P (write k v m)
  All-write k v [] p h = tt
  All-write k v ((i, w) ∷ m) p h = ground (arith, All-write k v m p h.1)

  pub All-delete : (k : ℕ) (m : List (ℕ × V)) → All P m → All P (delete k m)
  All-delete k [] h = tt
  All-delete k ((i, w) ∷ m) h = ground (arith, All-delete k m h.1)

  pub All-lookup : (k : ℕ) (v : V) (m : List (ℕ × V)) → lookup k m ≡ some v → All P m → P (k, v)
  All-lookup k v [] e h = cc
  All-lookup k v ((i, w) ∷ m) e h = ground (arith, All-lookup k v m)

module _ {V : Type 0} where
  pub write-write : (k : ℕ) (v u : V) (m : List (ℕ × V)) → write k v (write k u m) ≡ write k v m
  write-write k v u [] = refl
  write-write k v u ((i, w) ∷ m) = ground (arith, write-write k v u m)

  pub delete-write : (k : ℕ) (v : V) (m : List (ℕ × V)) → delete k (write k v m) ≡ delete k m
  delete-write k v [] = refl
  delete-write k v ((i, w) ∷ m) = ground (arith, delete-write k v m)

  pub le-sum_by :
      (f : V → ℕ) (k : ℕ) (u : V) (m : List (ℕ × V)) → lookup k m ≡ some u → f u ≤ sum_by f m
  le-sum_by f k u [] h = absurd (cc)
  le-sum_by f k u ((i, w) ∷ m) h = ground (arith, le-sum_by f k u m)

  pub write-insert :
      (k : ℕ) (v u : V) (m : List (ℕ × V))
      → lookup k m ≡ none
      → write k v (insert k u m) ≡ insert k v m
  write-insert k v u [] h = ground arith
  write-insert k v u ((i, w) ∷ m) h = ground (arith, write-insert k v u m)
