-- ===== src/Examples/Levels.antt =====
-- The theorems on the tree of levels, at a tree with the prices 300 and 70000 whose values are
-- numbers.
use valyrian_stock_exchange.Prelude.{
  ℕ, ◌≡◌, ◌≤◌, ◌<◌, ◌^◌, refl, true, false, none, some, arith, if◌then◌else◌, ◌==◌,
}
use valyrian_stock_exchange.RadixTree.{
  Art, make_key, price_from, insert, find, erase, min_price, max_price, empty,
}
use valyrian_stock_exchange.RadixTree.Sample.{sample, insert_new, best, best_key}
use valyrian_stock_exchange.RadixTree.Prices.{
  after, returns, Priced, find-insert, min_price-least, max_price-greatest,
}
use valyrian_stock_exchange.RadixTree.Built.{Built, fresh, inserted, Built-Priced, find-erase}

abbrev art : Art ℕ
art = sample ℕ

abbrev two_levels : art.Tree
two_levels = after (insert art (after (insert art art.new_tree 70000 8)) 300 9)

two_levels-Built : Built art two_levels
two_levels-Built = inserted 300 9 (omega arith) (inserted 70000 8 (omega arith) fresh)

two_levels-some : empty art two_levels ≡ false
unfolding empty insert sample insert_new make_key
two_levels-some = refl

least_is_300 : min_price art two_levels ≡ 300
unfolding min_price insert sample insert_new make_key best best_key price_from
least_is_300 = refl

Built-Priced_example : Priced art two_levels
Built-Priced_example = Built-Priced art two_levels two_levels-Built

find-insert_example :
    (find art (after (insert art two_levels 300 5)) 70000
      ≡ (if 300 == 70000 then some 5 else find art two_levels 70000))
    × (returns (insert art two_levels 300 5)
        ≡ (elim (find art two_levels 300) [ none ↦ true | some l ↦ false ]))
find-insert_example = find-insert art two_levels 300 70000 5 (omega arith) (omega arith)

find-erase_example :
    (find art (after (erase art two_levels 300)) 70000
      ≡ (if 300 == 70000 then none else find art two_levels 70000))
    × (returns (erase art two_levels 300)
        ≡ (elim (find art two_levels 300) [ none ↦ false | some l ↦ true ]))
find-erase_example = find-erase art two_levels 300 70000 (omega arith) (omega arith)

min_price-least_example :
    ((level : ℕ) × (find art two_levels (min_price art two_levels) ≡ some level))
    × ((q : ℕ) (level : ℕ)
        → q < 2 ^ 64
        → find art two_levels q ≡ some level
        → min_price art two_levels ≤ q)
min_price-least_example =
    min_price-least art two_levels (Built-Priced art two_levels two_levels-Built) two_levels-some

max_price-greatest_example :
    ((level : ℕ) × (find art two_levels (max_price art two_levels) ≡ some level))
    × ((q : ℕ) (level : ℕ)
        → q < 2 ^ 64
        → find art two_levels q ≡ some level
        → q ≤ max_price art two_levels)
max_price-greatest_example =
    max_price-greatest art two_levels (Built-Priced art two_levels two_levels-Built) two_levels-some
