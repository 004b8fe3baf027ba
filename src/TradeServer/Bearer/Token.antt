-- ===== src/TradeServer/Bearer/Token.antt =====
-- From a header to its token and its user.
use valyrian_stock_exchange.Prelude.{
  ℕ, ◌≡◌, refl, true, false, ◌==◌, ◌≤◌, Option, some, List, [], ◌∷◌, ◌++◌, length, All, arith,
  ==_self,
}
use valyrian_stock_exchange.TradeServer.Bearer.{
  blank, drop_front, put_front, drop_back, trim, lower, starts_with_ci, drop, bearer, bearer_token,
  Reply, string, c_str, session, user_of, look_up, resolve_user_from_bearer,
}

-- The letters are the same, up to their case.
abbrev pub Spells : List ℕ → List ℕ → Type 0
Spells [] [] = Unit
Spells [] (n ∷ ns) = ⊥
Spells (c ∷ p) [] = ⊥
Spells (c ∷ p) (n ∷ ns) = (lower c ≡ lower n) × Spells p ns

drop_front-append :
    (pad s : List ℕ) → All (λ c. blank c ≡ true) pad → drop_front (pad ++ s) ≡ drop_front s
unfolding drop_front
drop_front-append [] s h = refl
drop_front-append (c ∷ pad) s h = rw h.0 (drop_front-append pad s h.1)

drop_front_lem : (pad : List ℕ) → All (λ c. blank c ≡ true) pad → drop_front pad ≡ []
unfolding drop_front
drop_front_lem [] h = refl
drop_front_lem (c ∷ pad) h = rw h.0 (drop_front_lem pad h.1)

drop_back_lem : (pad : List ℕ) → All (λ c. blank c ≡ true) pad → drop_back pad ≡ []
unfolding drop_back put_front
drop_back_lem [] h = refl
drop_back_lem (c ∷ pad) h = rw (drop_back_lem pad h.1, h.0) refl

put_front_lem : (c : ℕ) (s : List ℕ) → blank c ≡ false → put_front c s ≡ c ∷ s
unfolding put_front
put_front_lem c [] h = rw h refl
put_front_lem c (d ∷ s) h = refl

drop_back-append :
    (s pad : List ℕ)
    → All (λ c. blank c ≡ false) s
    → All (λ c. blank c ≡ true) pad
    → drop_back (s ++ pad) ≡ s
unfolding drop_back
drop_back-append [] pad h g = drop_back_lem pad g
drop_back-append (c ∷ s) pad h g = rw (drop_back-append s pad h.1 g) (put_front_lem c s h.0)

drop_front_word :
    (c : ℕ) (s pad : List ℕ) → blank c ≡ false → drop_front ((c ∷ s) ++ pad) ≡ (c ∷ s) ++ pad
unfolding drop_front
drop_front_word c s pad h = rw h refl

trim_lem :
    (front word back : List ℕ)
    → All (λ c. blank c ≡ true) front
    → All (λ c. blank c ≡ false) word
    → All (λ c. blank c ≡ true) back
    → trim (front ++ (word ++ back)) ≡ word
unfolding trim
trim_lem front [] back h w g =
    rw (drop_front-append front back h, drop_front_lem back g) (drop_back_lem [] tt)
trim_lem front (c ∷ s) back h w g =
    rw (drop_front-append front ((c ∷ s) ++ back) h, drop_front_word c s back w.0)
      (drop_back-append (c ∷ s) back w g)

starts_with_ci-append : (p n s : List ℕ) → Spells p n → starts_with_ci (p ++ s) n ≡ true
unfolding starts_with_ci
starts_with_ci-append p [] s h = refl
starts_with_ci-append [] (n ∷ ns) s h = absurd h
starts_with_ci-append (c ∷ p) (n ∷ ns) s h =
    rw (h.0, ==_self (lower n)) (starts_with_ci-append p ns s h.1)

drop-append : (p n s : List ℕ) → Spells p n → drop (length n) (p ++ s) ≡ s
drop-append [] [] s h = refl
drop-append (c ∷ p) [] s h = absurd h
drop-append [] (n ∷ ns) s h = absurd h
drop-append (c ∷ p) (n ∷ ns) s h = drop-append p ns s h.1

-- A token without blanks, behind "bearer " in any case and with any blanks around it, is read from
-- the header.
pub bearer_token_lem :
    (p front word back : List ℕ)
    → Spells p bearer
    → All (λ c. blank c ≡ true) front
    → All (λ c. blank c ≡ false) word
    → All (λ c. blank c ≡ true) back
    → bearer_token (p ++ (front ++ (word ++ back))) ≡ word
unfolding bearer_token
bearer_token_lem p front word back spells h w g =
    rw
      (
        starts_with_ci-append p bearer (front ++ (word ++ back)) spells,
        drop-append p bearer (front ++ (word ++ back)) spells,
      )
      (trim_lem front word back h w g)

c_str_lem : (s : List ℕ) → All (λ c. (c == 0) ≡ false) s → c_str s ≡ s
unfolding c_str
c_str_lem [] h = refl
c_str_lem (c ∷ s) h = rw (c_str_lem s h.1, h.0) refl

look_up_lem :
    (get : List ℕ → Reply) (strtoull : List ℕ → Option ℕ) (word text : List ℕ) (user : ℕ)
    → 1 ≤ length word
    → All (λ c. (c == 0) ≡ false) word
    → get (session ++ word) ≡ string text
    → 1 ≤ length text
    → strtoull text ≡ some user
    → 1 ≤ user
    → look_up (some get) strtoull word ≡ some user
unfolding look_up user_of
look_up_lem get strtoull [] text user some_word no_zero stored some_text parsed positive =
    absurd (omega (arith, some_word))
look_up_lem get strtoull (c ∷ word) [] user some_word no_zero stored some_text parsed positive =
    absurd (omega (arith, some_text))
look_up_lem get strtoull (c ∷ word) (d ∷ text) user some_word no_zero stored some_text parsed
      positive =
    let whole =
      c_str_lem (session ++ (c ∷ word))
        (refl, (refl, (refl, (refl, (refl, (refl, (refl, (refl, no_zero)))))))) in
    rw (whole, stored, user_of, parsed) (ground (arith, positive))

-- A header with "bearer " in any case and a token without blanks and zeros, with any blanks around
-- it, gives the user whose number is kept for the session of that token, when requests are checked.
pub resolve_user_from_bearer_lem :
    (get : List ℕ → Reply) (strtoull : List ℕ → Option ℕ) (p front word back text : List ℕ)
    (user : ℕ)
    → Spells p bearer
    → All (λ c. blank c ≡ true) front
    → All (λ c. blank c ≡ false) word
    → All (λ c. blank c ≡ true) back
    → 1 ≤ length word
    → All (λ c. (c == 0) ≡ false) word
    → get (session ++ word) ≡ string text
    → 1 ≤ length text
    → strtoull text ≡ some user
    → 1 ≤ user
    → resolve_user_from_bearer false (some get) strtoull (p ++ (front ++ (word ++ back)))
      ≡ some user
unfolding resolve_user_from_bearer
resolve_user_from_bearer_lem get strtoull p front word back text user spells h w g some_word no_zero
      stored some_text parsed positive =
    rw (bearer_token_lem p front word back spells h w g)
      (look_up_lem get strtoull word text user some_word no_zero stored some_text parsed positive)
