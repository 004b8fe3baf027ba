-- ===== src/Examples/Sessions.antt =====
-- The theorem on a header's user, at the header "BEARER <tab>ab " and the session of "ab".
use valyrian_stock_exchange.Prelude.{ℕ, ◌≡◌, refl, false, Option, some, List, [], ◌∷◌, ◌++◌, arith}
use valyrian_stock_exchange.TradeServer.Bearer.{Reply, string, resolve_user_from_bearer}
use valyrian_stock_exchange.TradeServer.Bearer.Token.{resolve_user_from_bearer_lem}

-- One digit.
abbrev one_session : List ℕ → Reply
one_session key = string (53 ∷ [])

abbrev five : List ℕ → Option ℕ
five text = some 5

abbrev shouted : List ℕ
shouted = 66 ∷ 69 ∷ 65 ∷ 82 ∷ 69 ∷ 82 ∷ 32 ∷ []

resolve_user_from_bearer_lem_example :
    resolve_user_from_bearer false
      (some one_session)
      five
      (shouted ++ ((9 ∷ []) ++ ((97 ∷ 98 ∷ []) ++ (32 ∷ []))))
    ≡ some 5
resolve_user_from_bearer_lem_example =
    resolve_user_from_bearer_lem one_session five shouted (9 ∷ []) (97 ∷ 98 ∷ []) (32 ∷ [])
      (53 ∷ []) 5 (refl, (refl, (refl, (refl, (refl, (refl, (refl, tt))))))) (refl, tt)
      (refl, (refl, tt)) (refl, tt) (omega arith) (refl, (refl, tt)) refl (omega arith) refl
      (omega arith)
