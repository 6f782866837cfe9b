-- ===== src/Config.antt =====
-- The configuration of common/service.h, common/service_replicas.h and common/service_group.h, and the
-- comparisons that decide whether a group is built again. A `string` is the list of its bytes, an
-- `int` its bit pattern.
pub mod Equality
use friend_serv.Base.{ℕ, Bool, true, false, ◌||◌, not, List, [], ◌∷◌, ◌==◌, if◌then◌else◌, length}

-- `Strategy::strategy_type`, by its names.
pub data StrategyType : Type 0 where
  strategy_min strategy_fixed strategy_roll stratety_int_region : StrategyType
  stratety_string_region strategy_max : StrategyType

pub record HostInfo : Type 0 where
  pub ip : List ℕ
  pub port : ℕ
  pub timeout_ms : ℕ
  pub forbidden : Bool

pub record ReplicasInfo : Type 0 where
  pub vec : List HostInfo
  pub replicas_strategy : StrategyType
  pub forbidden : Bool

pub record GroupInfo : Type 0 where
  pub vec : List ReplicasInfo
  pub group_strategy : StrategyType
  pub forbidden : Bool

-- The number of a strategy_type.
abbrev pub code : StrategyType → ℕ
code strategy_min = 0
code strategy_fixed = 1
code strategy_roll = 2
code stratety_int_region = 3
code stratety_string_region = 4
code strategy_max = 5

-- The comparison of two strings, and of two bools.
pub same_bytes : List ℕ → List ℕ → Bool
same_bytes [] [] = true
same_bytes [] (y ∷ ys) = false
same_bytes (x ∷ xs) [] = false
same_bytes (x ∷ xs) (y ∷ ys) = let rest = same_bytes xs ys in if x == y then rest else false

abbrev pub same_bool : Bool → Bool → Bool
same_bool a b = if a then b else not b

-- The loop over two vectors of one size.
pub same_elements {ℓ} : {A : Type ℓ} → (A → A → Bool) → List A → List A → Bool
same_elements eq [] ys = true
same_elements eq (x ∷ xs) [] = true
same_elements eq (x ∷ xs) (y ∷ ys) =
    let rest = same_elements eq xs ys in if eq x y then rest else false

pub host_eq : HostInfo → HostInfo → Bool
host_eq a b =
    if not (same_bytes a.ip b.ip)
      || (not (a.port == b.port)
          || (not (a.timeout_ms == b.timeout_ms) || not (same_bool a.forbidden b.forbidden)))
    then false
    else true

pub replicas_eq : ReplicasInfo → ReplicasInfo → Bool
replicas_eq a b =
    if not (code a.replicas_strategy == code b.replicas_strategy)
      || (not (same_bool a.forbidden b.forbidden) || not (length a.vec == length b.vec))
    then false
    else same_elements host_eq a.vec b.vec

pub group_eq : GroupInfo → GroupInfo → Bool
group_eq a b =
    if not (code a.group_strategy == code b.group_strategy)
      || (not (same_bool a.forbidden b.forbidden) || not (length a.vec == length b.vec))
    then false
    else same_elements replicas_eq a.vec b.vec
