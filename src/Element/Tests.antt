-- ===== src/Element/Tests.antt =====
-- Runs of common/strategy.cpp's `Element`, and its theorems at a group of two services.
use friend_serv.Base.{ℕ, ◌≡◌, refl, true, false, [], ◌∷◌, none, some, arith, ◌==◌, if◌then◌else◌}
use friend_serv.Element.{Tree, Flags, enable, disable, any_enabled, adopt, add_child}
use friend_serv.Element.Consistency.{IsTree, IsConsistent, Tied, has}
use friend_serv.Element.Enable.{enable_leaf}
use friend_serv.Element.Disable.{disable_leaf}
use friend_serv.Element.Adopt.{Up, IsClosed, add_child_enabled}

-- The services 1 and 2 under the replicas 0.
abbrev pair_tree : Tree
pair_tree = record {
  parent = λ q. if q == 1 then some 0 else if q == 2 then some 0 else none;
  children = λ q. if q == 0 then 1 ∷ 2 ∷ [] else [];
}

abbrev pair_rank : ℕ → ℕ
pair_rank q = if q == 0 then 0 else 1

abbrev all_off : Flags
all_off q = false

abbrev only_one : Flags
only_one q = if q == 0 then true else q == 1

pair-IsTree : IsTree pair_tree pair_rank
unfolding has
pair-IsTree = record { linked = λ c q. ground arith; ranked = λ c q h. ground arith }

all_off-IsConsistent : IsConsistent pair_tree all_off
unfolding any_enabled
all_off-IsConsistent q = ground arith

only_one-IsConsistent : IsConsistent pair_tree only_one
unfolding any_enabled
only_one-IsConsistent q = ground arith

enable_leaf_example :
    (en' : Flags) × (enable pair_tree 4 all_off 2 ≡ some en')
    × IsConsistent pair_tree en'
    × (en' 2 ≡ true)
    × ((r : ℕ) → pair_tree.children r ≡ [] → ¬ (r ≡ 2) → en' r ≡ false)
enable_leaf_example =
    enable_leaf pair_tree pair_rank 4 all_off 2 pair-IsTree (omega arith) refl all_off-IsConsistent

disable_leaf_example :
    (en' : Flags) × (disable pair_tree 4 only_one 1 ≡ some en')
    × IsConsistent pair_tree en'
    × (en' 1 ≡ false)
    × ((r : ℕ) → pair_tree.children r ≡ [] → ¬ (r ≡ 1) → en' r ≡ only_one r)
disable_leaf_example =
    disable_leaf pair_tree pair_rank 4 only_one 1 pair-IsTree (omega arith) refl
      only_one-IsConsistent

-- 3 below 2, and 5, which 3 adopts.
abbrev chain : Tree
chain = record {
  parent = λ q. if q == 3 then some 2 else none;
  children = λ q. if q == 2 then 3 ∷ [] else [];
}

abbrev five_on : Flags
five_on q = q == 5

adopted_rank : ℕ → ℕ
adopted_rank q = if q == 5 then 2 else if q == 3 then 1 else 0

adopted-IsTree : IsTree (adopt chain 3 5) adopted_rank
unfolding has adopted_rank
adopted-IsTree = record { linked = λ c q. ground arith; ranked = λ c q h. ground arith }

chain-IsClosed : IsClosed chain five_on
chain-IsClosed q r e on = ground arith

add_child_enabled_example :
    (en' : Flags) × (add_child 9 chain five_on 3 (some 5) ≡ some (true, adopt chain 3 5, en'))
    × Up (adopt chain 3 5) en' (some 2)
    × (en' 5 ≡ true)
    × (en' 3 ≡ false)
    × (¬ Tied (adopt chain 3 5) en' 3)
unfolding adopted_rank
add_child_enabled_example =
    add_child_enabled 9 chain adopted_rank five_on 3 5 adopted-IsTree (omega arith) chain-IsClosed
      refl refl
