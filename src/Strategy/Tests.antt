-- ===== src/Strategy/Tests.antt =====
-- Runs of the strategies of common/strategy.cpp, and their theorems at three and four elements.
use friend_serv.Base.{
  ℕ, ◌≡◌, refl, true, false, List, [], ◌∷◌, ◌++◌, arith, ◌==◌, if◌then◌else◌, take, drop,
}
use friend_serv.Element.{Flags}
use friend_serv.Strategy.{fault, chosen, fixed, roll, roll_scan, int_region}
use friend_serv.Strategy.Roll.{rolls, advanced, start_at, roll_rotated}
use friend_serv.Strategy.Region.{int_region_faults}

abbrev three : List ℕ
three = 10 ∷ 11 ∷ 12 ∷ []

abbrev four : List ℕ
four = 10 ∷ 11 ∷ 12 ∷ 13 ∷ []

abbrev on : Flags
on e = true

abbrev not_ten : Flags
not_ten e = if e == 10 then false else true

fixed_skips : fixed not_ten three ≡ chosen 11
unfolding fixed
fixed_skips = refl

-- The element after a disabled one is returned twice as often.
roll_skips : rolls not_ten three 3 0 ≡ chosen 11 ∷ chosen 11 ∷ chosen 12 ∷ []
unfolding roll roll_scan
roll_skips = refl

roll_rotated_example :
    roll not_ten three 2
    ≡ advanced 2 (fixed not_ten (drop (start_at three 2) three ++ take (start_at three 2) three))
roll_rotated_example = roll_rotated not_ten three 2

int_region_faults_example : int_region on three 99 ≡ fault
int_region_faults_example = int_region_faults on three (λ e. cc) (omega arith)
