-- ===== src/TradeServer/ConnTable/FreeList.antt =====
-- The list of free slots.
use valyrian_stock_exchange.Prelude.{
  ℕ, zero, suc, ◌+◌, ◌-◌, ◌≤◌, ◌<◌, ◌≡◌, refl, false, List, [], ◌∷◌, All, length, ◌==◌, arith,
}
use valyrian_stock_exchange.TradeServer.ConnTable.{ConnTable, new_table}

-- The links from a slot on pass through these slots and end in zero.
abbrev pub Chain : (ℕ → ℕ) → ℕ → List ℕ → Type 0
Chain links top [] = top ≡ 0
Chain links top (id ∷ ids) = (top ≡ id) × Chain links (links id) ids

abbrev pub Distinct : List ℕ → Type 0
Distinct [] = Unit
Distinct (id ∷ ids) = All (λ j. (j == id) ≡ false) ids × Distinct ids

abbrev pub Inside : ℕ → List ℕ → Type 0
Inside k_max ids = All (λ id. (0 < id) × (id < k_max)) ids

-- The free slots, the one to be taken first at the front: none of them is twice in the list or has
-- a connection, and their number is the one kept.
pub record FreeList (k_max : ℕ) (t : ConnTable) (ids : List ℕ) : Type 0 where
  pub chain : Chain t.next_free t.free_top ids
  pub inside : Inside k_max ids
  pub distinct : Distinct ids
  pub counted : t.free_size ≡ length ids
  pub free : All (λ id. (t.slots id).is_active ≡ false) ids

-- `count` numbers from `from` on
abbrev pub from_on : ℕ → ℕ → List ℕ
from_on from zero = []
from_on from (suc count) = from ∷ from_on (suc from) count

from_on-above : (id from count : ℕ) → id < from → All (λ j. (j == id) ≡ false) (from_on from count)
from_on-above id from zero lt = tt
from_on-above id from (suc count) lt =
    (ground arith, from_on-above id (suc from) count (omega arith))

from_on-Distinct : (from count : ℕ) → Distinct (from_on from count)
from_on-Distinct from zero = tt
from_on-Distinct from (suc count) =
    (from_on-above from (suc from) count (omega arith), from_on-Distinct (suc from) count)

from_on-Inside :
    (k_max from count : ℕ) → 0 < from → from + count ≤ k_max → Inside k_max (from_on from count)
from_on-Inside k_max from zero pos le = tt
from_on-Inside k_max from (suc count) pos le =
    ((pos, omega arith), from_on-Inside k_max (suc from) count (omega arith) (omega arith))

length-from_on : (from count : ℕ) → length (from_on from count) ≡ count
length-from_on from zero = refl
length-from_on from (suc count) = omega (arith, length-from_on (suc from) count)

All-inactive :
    (k_max : ℕ) (ids : List ℕ) → All (λ id. ((new_table k_max).slots id).is_active ≡ false) ids
unfolding new_table
All-inactive k_max [] = tt
All-inactive k_max (id ∷ ids) = (refl, All-inactive k_max ids)

new_links :
    (k_max from count : ℕ)
    → 0 < from
    → from + suc count ≡ k_max
    → Chain (new_table k_max).next_free from (from_on from (suc count))
unfolding new_table
new_links k_max from zero pos le = (refl, ground arith)
new_links k_max from (suc count) pos le =
    let on : (new_table k_max).next_free from ≡ suc from = ground arith in
    (refl, rw on (new_links k_max (suc from) count (omega arith) (omega arith)))

-- In a new table all slots but the first are free.
pub new_table-FreeList :
    (k_max : ℕ) → 2 ≤ k_max → FreeList k_max (new_table k_max) (from_on 1 (suc (k_max - 2)))
unfolding new_table
new_table-FreeList k_max le = record {
  chain = new_links k_max 1 (k_max - 2) (omega arith) (omega arith);
  inside = from_on-Inside k_max 1 (suc (k_max - 2)) (omega arith) (omega arith);
  distinct = from_on-Distinct 1 (suc (k_max - 2));
  counted = omega (arith, length-from_on 2 (k_max - 2));
  free = All-inactive k_max (from_on 1 (suc (k_max - 2)));
}
