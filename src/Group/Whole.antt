-- ===== src/Group/Whole.antt =====
-- A whole service group of common/service_group.cpp: the group, its replicas and their services.
use friend_serv.Base.{
  ℕ, suc, ◌≡◌, refl, Bool, true, false, ◌||◌, List, [], ◌∷◌, none, some, if◌then◌else◌, sym, arith,
  subst,
}
use friend_serv.Config.{
  StrategyType, strategy_min, strategy_fixed, strategy_roll, stratety_int_region,
  stratety_string_region, strategy_max, HostInfo, ReplicasInfo, GroupInfo,
}
use friend_serv.Strategy.Chooser.{
  Chooser, fixed_chooser, roll_chooser, int_chooser, string_chooser, create_strategy,
}
use friend_serv.Level.{Parts, Level, new_level, any_on}
use friend_serv.Level.Sound.{FailsOff, IsSound, Gives, init_level-IsSound}
use friend_serv.Level.Reaches.{IsPlain}
use friend_serv.Level.Setup.{Built, Succeeds, init_level-true}
use friend_serv.Level.Failed.{new_level-IsSound, init_level-off}
use friend_serv.Level.Fits.{Each, Fits}
use friend_serv.Replicas.{Replicas, is_plain}
use friend_serv.Replicas
use friend_serv.Group.{
  Kind, by_nothing, by_int, by_string, Group, check_strategy, no_replicas_info, replicas_parts,
}
use friend_serv.Group

-- The strategies of the classes of groups.
abbrev pub Suits : Kind → Chooser → Type 0
Suits by_nothing s = IsPlain s
Suits by_int int_chooser = Unit
Suits by_int _ = ⊥
Suits by_string string_chooser = Unit
Suits by_string _ = ⊥

made : (memory : Bool) (x ch : Chooser) → (if memory then some x else none) ≡ some ch → x ≡ ch
made true x ch e = cc
made false x ch e = cc

made_level :
    {X C : Type 0} {x : X} (b : Bool) (c : Level X C)
    → (if b then some (new_level x) else none) ≡ some c
    → c ≡ new_level x
made_level true c e = cc
made_level false c e = cc

create_strategy-Suits :
    (k : Kind) (memory : Bool) (s : StrategyType) (ch : Chooser)
    → check_strategy k s ≡ true
    → create_strategy memory s ≡ some ch
    → Suits k ch
unfolding create_strategy
create_strategy-Suits by_nothing m strategy_fixed ch h e =
    subst IsPlain (made m fixed_chooser ch e) tt
create_strategy-Suits by_nothing m strategy_roll ch h e =
    subst IsPlain (made m (roll_chooser 0) ch e) tt
create_strategy-Suits by_int m stratety_int_region ch h e =
    subst (Suits by_int) (made m int_chooser ch e) tt
create_strategy-Suits by_string m stratety_string_region ch h e =
    subst (Suits by_string) (made m string_chooser ch e) tt
create_strategy-Suits by_nothing m strategy_min ch h e = absurd (cc)
create_strategy-Suits by_nothing m stratety_int_region ch h e = absurd (cc)
create_strategy-Suits by_nothing m stratety_string_region ch h e = absurd (cc)
create_strategy-Suits by_nothing m strategy_max ch h e = absurd (cc)
create_strategy-Suits by_int m strategy_min ch h e = absurd (cc)
create_strategy-Suits by_int m strategy_fixed ch h e = absurd (cc)
create_strategy-Suits by_int m strategy_roll ch h e = absurd (cc)
create_strategy-Suits by_int m stratety_string_region ch h e = absurd (cc)
create_strategy-Suits by_int m strategy_max ch h e = absurd (cc)
create_strategy-Suits by_string m strategy_min ch h e = absurd (cc)
create_strategy-Suits by_string m strategy_fixed ch h e = absurd (cc)
create_strategy-Suits by_string m strategy_roll ch h e = absurd (cc)
create_strategy-Suits by_string m stratety_int_region ch h e = absurd (cc)
create_strategy-Suits by_string m strategy_max ch h e = absurd (cc)

module _ {S : Type 0} (p : Parts HostInfo S) where
  -- Replicas as Init and calls leave them.
  abbrev pub IsGood : Replicas S → Type 0
  IsGood r = IsSound p r × Fits (λ _. Unit {0}) IsPlain r

  any-Each : (cs : List S) → Each (λ _. Unit {0}) cs
  any-Each [] = tt
  any-Each (c ∷ cs) = (tt, any-Each cs)

  new_level-IsGood : (x : ReplicasInfo) → IsGood (new_level x)
  new_level-IsGood x = (new_level-IsSound p x, record { kids = tt; by = tt; fresh = refl })

  Succeeds-Fits :
      (path : List ℕ) (x : ReplicasInfo) (forbidden allowed : Bool) (s : StrategyType)
      (vec : List HostInfo) (r : Replicas S)
      → allowed ≡ is_plain s
      → Succeeds p path no_replicas_info x s vec forbidden allowed r
      → Fits (λ _. Unit {0}) IsPlain r
  Succeeds-Fits path x true allowed s vec r a h =
      subst (Fits _ IsPlain) (sym h) (record { kids = tt; by = tt; fresh = refl })
  Succeeds-Fits path x false false s vec r a h = elim h [ ]
  Succeeds-Fits path x false true s vec r a (cs, ch, built, create, same) =
      subst (Fits _ IsPlain) (sym same) (record {
        kids = any-Each cs;
        by = create_strategy-Suits by_nothing p.memory s ch (sym a) create;
        fresh = refl;
      })

  -- A group as Init and calls leave it.
  abbrev pub IsWhole : (new_replicas : List ℕ → Bool) → Kind → Group S → Type 0
  IsWhole new_replicas k g = IsSound (replicas_parts p new_replicas) g × Fits IsGood (Suits k) g

  -- One of the services of these replicas is enabled.
  abbrev pub any_service : List (Replicas S) → Bool
  any_service [] = false
  any_service (r ∷ rs) = any_on p r.children || any_service rs

  pub any_on-any_service :
      (new_replicas : List ℕ → Bool) (rs : List (Replicas S))
      → Each IsGood rs
      → any_on (replicas_parts p new_replicas) rs ≡ any_service rs
  any_on-any_service new_replicas [] h = refl
  any_on-any_service new_replicas (r ∷ rs) ((sound, _), h) =
      ground (arith, sound.agrees, any_on-any_service new_replicas rs h)

  module _ (fails : FailsOff p) where
    init-IsGood :
        (path : List ℕ) (i : ReplicasInfo) (r : Replicas S)
        → Replicas.init p path i (new_level no_replicas_info) ≡ some (true, r)
        → IsGood r
    init-IsGood path i r e = (
      subst (Gives (λ q. IsSound p q.1)) e (
          init_level-IsSound p fails path i i.forbidden (is_plain i.replicas_strategy)
            i.replicas_strategy i.vec (new_level no_replicas_info)
            (new_level-IsSound p no_replicas_info)),
      Succeeds-Fits path i i.forbidden (is_plain i.replicas_strategy) i.replicas_strategy i.vec r
          refl
          ((init_level-true p path no_replicas_info i i.replicas_strategy i.vec i.forbidden
              (is_plain i.replicas_strategy) r).0
            e),
    )

    module _ (new_replicas : List ℕ → Bool) where
      abbrev parts : Parts ReplicasInfo (Replicas S)
      parts = replicas_parts p new_replicas

      -- The replicas that a group makes are as the group needs its children.
      pub replicas_parts-FailsOff : FailsOff parts
      replicas_parts-FailsOff path i c c' e e' =
          let fresh : c ≡ new_level no_replicas_info = made_level (new_replicas path) c e in
          init_level-off p path no_replicas_info i i.forbidden (is_plain i.replicas_strategy)
            i.replicas_strategy i.vec c' fails
            (subst (λ d. Replicas.init p path i d ≡ some (false, c')) fresh e')

      Built-Each :
          (path : List ℕ) (k : ℕ) (is : List ReplicasInfo) (rs : List (Replicas S))
          → Built parts path k is rs
          → Each IsGood rs
      Built-Each path k [] [] h = tt
      Built-Each path k [] (r ∷ rs) h = elim h [ ]
      Built-Each path k (i ∷ is) [] h = elim h [ ]
      Built-Each path k (i ∷ is) (r ∷ rs) ((c, e, e'), h) = (
        init-IsGood (k ∷ path) i r (
            subst (λ d. Replicas.init p (k ∷ path) i d ≡ some (true, r))
              (made_level (new_replicas (k ∷ path)) c e) e'),
        Built-Each path (suc k) is rs h,
      )

      Succeeds-whole :
          (k : Kind) (x0 x : GroupInfo) (forbidden allowed : Bool) (s : StrategyType)
          (vec : List ReplicasInfo) (g : Group S)
          → allowed ≡ check_strategy k s
          → Succeeds parts [] x0 x s vec forbidden allowed g
          → Fits IsGood (Suits k) g
      Succeeds-whole k x0 x true allowed s vec g a h =
          subst (Fits IsGood (Suits k)) (sym h) (record { kids = tt; by = tt; fresh = refl })
      Succeeds-whole k x0 x false false s vec g a h = elim h [ ]
      Succeeds-whole k x0 x false true s vec g a (rs, ch, built, create, same) =
          subst (Fits IsGood (Suits k)) (sym same) (record {
            kids = Built-Each [] 0 vec rs built;
            by = create_strategy-Suits k p.memory s ch (sym a) create;
            fresh = refl;
          })

      pub init-IsWhole :
          (k : Kind) (x0 sgi : GroupInfo) (g : Group S)
          → Group.init p new_replicas k sgi (new_level x0) ≡ some (true, g)
          → IsWhole new_replicas k g
      init-IsWhole k x0 sgi g e = (
        subst (Gives (λ q. IsSound parts q.1)) e (
            init_level-IsSound parts replicas_parts-FailsOff [] sgi sgi.forbidden
              (check_strategy k sgi.group_strategy) sgi.group_strategy sgi.vec (new_level x0)
              (new_level-IsSound parts x0)),
        Succeeds-whole k x0 sgi sgi.forbidden (check_strategy k sgi.group_strategy)
            sgi.group_strategy sgi.vec g refl
            ((init_level-true parts [] x0 sgi sgi.group_strategy sgi.vec sgi.forbidden
                (check_strategy k sgi.group_strategy) g).0
              e),
      )
