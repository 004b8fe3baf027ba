-- ===== src/TradeServer/ConnTable.antt =====
-- trade_server/network/ConnTable.h: the table of connections, one thread at a time. Slot 0 is not
-- used; a zero as an id stands for none. `k_max` is kMax, 65536 in the source.
pub mod FreeList
pub mod Assign
use valyrian_stock_exchange.Prelude.{
  ℕ, ◌+◌, ◌-◌, ◌%◌, ◌^◌, Bool, true, false, ◌==◌, ltb, leb, ◌&&◌, ◌||◌, if◌then◌else◌,
}
use valyrian_stock_exchange.Ems.Types.{max_users}

pub record ConnState : Type 0 where
  pub user_id : ℕ
  pub last_client_seq : ℕ
  pub is_active : Bool

-- A link of the list of free slots is `next_free` of a slot.
pub record ConnTable : Type 0 where
  pub slots : ℕ → ConnState
  pub next_free : ℕ → ℕ
  pub free_top : ℕ
  pub free_size : ℕ
  pub active_by_user : ℕ → ℕ

-- An update of an array at an index.
abbrev pub put {ℓ} : {A : Type ℓ} → (ℕ → A) → ℕ → A → ℕ → A
put f i a = λ j. if j == i then a else f j

unfoldable pub new_table : ℕ → ConnTable
new_table k_max = record {
  slots = λ id. record { user_id = 0; last_client_seq = 0; is_active = false };
  next_free = λ id. if ltb 0 id && ltb id (k_max - 1) then id + 1 else 0;
  free_top = 1;
  free_size = k_max - 1;
  active_by_user = λ u. 0;
}

-- The free slot at the top, taken for the user; zero if there is none.
unfoldable pub assign : ConnTable → ℕ → ℕ × ConnTable
assign t user_id =
    let id = t.free_top in
    if id == 0 then (0, t) else (
      id,
      record {
        slots =
            put t.slots id (record { user_id = user_id; last_client_seq = 0; is_active = true });
        next_free = t.next_free;
        free_top = t.next_free id;
        free_size = (t.free_size + (2 ^ 32 - 1)) % 2 ^ 32;
        active_by_user = put t.active_by_user (user_id % max_users) id;
      },
    )

unfoldable pub release : ℕ → ConnTable → ℕ → ConnTable
release k_max t conn_id =
    if (conn_id == 0) || leb k_max conn_id
    then t
    else (let state = t.slots conn_id in
        record {
          slots = put t.slots conn_id (record state { is_active = false });
          next_free = put t.next_free conn_id t.free_top;
          free_top = conn_id;
          free_size = (t.free_size + 1) % 2 ^ 32;
          active_by_user = put t.active_by_user (state.user_id % max_users) 0;
        })

abbrev pub get : ConnTable → ℕ → ConnState
get t conn_id = t.slots conn_id

unfoldable pub find_by_user : ConnTable → ℕ → ℕ
find_by_user t user_id = t.active_by_user (user_id % max_users)

unfoldable pub size : ConnTable → ℕ
size t = t.free_size
