-- ===== src/Strategy/Chooser.antt =====
-- The strategy objects that ServiceReplicas and ServiceGroup hold, of common/strategy.h, and how
-- common/service_group.cpp makes and asks them.
use friend_serv.Base.{ℕ, Bool, List, Option, none, some, if◌then◌else◌}
use friend_serv.Element.{Flags}
use friend_serv.Config.{
  StrategyType, strategy_min, strategy_fixed, strategy_roll, stratety_int_region,
  stratety_string_region, strategy_max,
}
use friend_serv.Strategy.{Choice, fixed, roll, int_region, string_region}

-- A strategy by its class; the number is `m_current`, the bit pattern of an `int`.
pub data Chooser : Type 0 where
  fixed_chooser int_chooser string_chooser : Chooser
  roll_chooser : ℕ → Chooser

-- `CreateStrategy`; `memory` is whether `new` gives an object.
unfoldable pub create_strategy : (memory : Bool) → StrategyType → Option Chooser
create_strategy memory strategy_fixed = if memory then some fixed_chooser else none
create_strategy memory strategy_roll = if memory then some (roll_chooser 0) else none
create_strategy memory stratety_int_region = if memory then some int_chooser else none
create_strategy memory stratety_string_region = if memory then some string_chooser else none
create_strategy memory strategy_min = none
create_strategy memory strategy_max = none

abbrev pub rolled : ℕ × Choice → Chooser × Choice
rolled (current, c) = (roll_chooser current, c)

-- The `dynamic_cast` to IChooseByNothing, IChooseByInt or IChooseByString, none where it gives NULL,
-- and the choice.
abbrev pub choose_by_nothing : Flags → List ℕ → Chooser → Option (Chooser × Choice)
choose_by_nothing en els fixed_chooser = some (fixed_chooser, fixed en els)
choose_by_nothing en els (roll_chooser current) = some (rolled (roll en els current))
choose_by_nothing en els int_chooser = none
choose_by_nothing en els string_chooser = none

abbrev pub choose_by_int : (seed : ℕ) → Flags → List ℕ → Chooser → Option (Chooser × Choice)
choose_by_int seed en els int_chooser = some (int_chooser, int_region en els seed)
choose_by_int seed en els fixed_chooser = none
choose_by_int seed en els (roll_chooser current) = none
choose_by_int seed en els string_chooser = none

abbrev pub choose_by_string : (seed : List ℕ) → Flags → List ℕ → Chooser → Option (Chooser × Choice)
choose_by_string seed en els string_chooser = some (string_chooser, string_region en els seed)
choose_by_string seed en els fixed_chooser = none
choose_by_string seed en els (roll_chooser current) = none
choose_by_string seed en els int_chooser = none
