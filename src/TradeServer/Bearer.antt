-- ===== src/TradeServer/Bearer.antt =====
-- WebSocketServer.cpp of trade_server/network: who sends a request, by the token of its header.
-- Texts are lists of bytes.
pub mod Token
use valyrian_stock_exchange.Prelude.{
  ℕ, zero, suc, ◌+◌, ◌≡◌, refl, ap, Bool, true, false, ◌==◌, leb, ◌≤◌, ◌&&◌, ◌||◌, if◌then◌else◌,
  Option, none, some, List, [], ◌∷◌, ◌++◌, map, length, All, arith, ==_self,
}

abbrev pub blank : ℕ → Bool
blank c = (c == 32) || (c == 9)

unfoldable pub drop_front : List ℕ → List ℕ
drop_front [] = []
drop_front (c ∷ s) = let rest = drop_front s in if blank c then rest else c ∷ s

unfoldable pub put_front : ℕ → List ℕ → List ℕ
put_front c [] = if blank c then [] else c ∷ []
put_front c (d ∷ s) = c ∷ d ∷ s

unfoldable pub drop_back : List ℕ → List ℕ
drop_back [] = []
drop_back (c ∷ s) = put_front c (drop_back s)

unfoldable pub trim : List ℕ → List ℕ
trim s = drop_back (drop_front s)

abbrev pub lower : ℕ → ℕ
lower c = if leb 65 c && leb c 90 then c + 32 else c

unfoldable pub starts_with_ci : List ℕ → List ℕ → Bool
starts_with_ci hay [] = true
starts_with_ci [] (n ∷ needle) = false
starts_with_ci (h ∷ hay) (n ∷ needle) = (lower h == lower n) && starts_with_ci hay needle

abbrev pub drop : ℕ → List ℕ → List ℕ
drop zero s = s
drop (suc n) [] = []
drop (suc n) (c ∷ s) = drop n s

-- "bearer "
abbrev pub bearer : List ℕ
bearer = 98 ∷ 101 ∷ 97 ∷ 114 ∷ 101 ∷ 114 ∷ 32 ∷ []

unfoldable pub bearer_token : List ℕ → List ℕ
bearer_token authorization =
    if starts_with_ci authorization bearer then trim (drop (length bearer) authorization) else []

-- What Redis answers.
pub data Reply : Type 0 where
  no_reply : Reply
  string : List ℕ → Reply
  other : Reply

-- A text ends at its first byte zero where it is handed on as a C string.
unfoldable pub c_str : List ℕ → List ℕ
c_str [] = []
c_str (c ∷ s) = let rest = c_str s in if c == 0 then [] else c ∷ rest

-- "session:"
abbrev pub session : List ℕ
session = 115 ∷ 101 ∷ 115 ∷ 115 ∷ 105 ∷ 111 ∷ 110 ∷ 58 ∷ []

-- The user of a session, read by strtoull; `none`: it finds no number.
unfoldable pub user_of : (List ℕ → Option ℕ) → Reply → Option ℕ
user_of strtoull no_reply = none
user_of strtoull other = none
user_of strtoull (string []) = none
user_of strtoull (string (c ∷ text)) = elim (strtoull (c ∷ text)) [
  | none ↦ none
  | some v ↦ if v == 0 then none else some v
]

unfoldable pub look_up : Option (List ℕ → Reply) → (List ℕ → Option ℕ) → List ℕ → Option ℕ
look_up redis strtoull [] = none
look_up none strtoull (c ∷ token) = none
look_up (some get) strtoull (c ∷ token) = user_of strtoull (get (c_str (session ++ (c ∷ token))))

-- `skip` is VSE_DEV_SKIP_AUTH. Without a connection to Redis nobody is found; `get` is its GET.
unfoldable pub resolve_user_from_bearer :
    Bool → Option (List ℕ → Reply) → (List ℕ → Option ℕ) → List ℕ → Option ℕ
resolve_user_from_bearer skip redis strtoull authorization =
    if skip then some 1 else look_up redis strtoull (bearer_token authorization)
