-- ===== src/Group/Used.antt =====
-- What is called on a whole service group of common/service_group.cpp and on its services.
use friend_serv.Base.{ℕ, ◌≡◌, Bool, true, List, [], Option, some, subst}
use friend_serv.Config.{HostInfo, ReplicasInfo, GroupInfo}
use friend_serv.Element.{Flags}
use friend_serv.Strategy.{Choice}
use friend_serv.Strategy.Chooser.{
  Chooser, fixed_chooser, roll_chooser, int_chooser, string_chooser, choose_by_nothing,
  choose_by_int, choose_by_string,
}
use friend_serv.Level.{Parts, Answer, answers, faults, waits, new_level, dispatch, on_child}
use friend_serv.Level.Sound.{FailsOff, IsSound, Answers}
use friend_serv.Level.Steps.{dispatch-IsSound, on_child-IsSound}
use friend_serv.Level.Reaches.{IsPlain}
use friend_serv.Level.Fits.{Fits, AskKeeps, dispatch-Fits, on_child-Fits}
use friend_serv.Replicas.{Replicas}
use friend_serv.Group.{Kind, by_nothing, by_int, by_string, Group, no_group_info, replicas_parts}
use friend_serv.Group
use friend_serv.Group.Whole.{Suits, IsGood, IsWhole, init-IsWhole}

-- How the classes of groups ask their strategy, by the seed of a call: a number, or a text.
abbrev pub ask_of : Kind → ℕ → List ℕ → Flags → List ℕ → Chooser → Option (Chooser × Choice)
ask_of by_nothing seed text = choose_by_nothing
ask_of by_int seed text = choose_by_int seed
ask_of by_string seed text = choose_by_string text

ask_of-AskKeeps : (k : Kind) (seed : ℕ) (text : List ℕ) → AskKeeps (Suits k) (ask_of k seed text)
ask_of-AskKeeps by_nothing seed text en els fixed_chooser h = tt
ask_of-AskKeeps by_nothing seed text en els (roll_chooser current) h = tt
ask_of-AskKeeps by_nothing seed text en els int_chooser h = tt
ask_of-AskKeeps by_nothing seed text en els string_chooser h = tt
ask_of-AskKeeps by_int seed text en els fixed_chooser h = tt
ask_of-AskKeeps by_int seed text en els (roll_chooser current) h = tt
ask_of-AskKeeps by_int seed text en els int_chooser h = tt
ask_of-AskKeeps by_int seed text en els string_chooser h = tt
ask_of-AskKeeps by_string seed text en els fixed_chooser h = tt
ask_of-AskKeeps by_string seed text en els (roll_chooser current) h = tt
ask_of-AskKeeps by_string seed text en els int_chooser h = tt
ask_of-AskKeeps by_string seed text en els string_chooser h = tt

both :
    {O R : Type 0} (P Q : R → Type 0) (a : Answer O R)
    → Answers P a
    → Answers Q a
    → Answers (λ r. P r × Q r) a
both P Q (answers ok out r) x y = (x, y)
both P Q faults x y = tt
both P Q waits x y = tt

any-Answers : {O R : Type 0} (a : Answer O R) → Answers (λ _. Unit {0}) a
any-Answers (answers ok out r) = tt
any-Answers faults = tt
any-Answers waits = tt

module _ {S : Type 0} (p : Parts HostInfo S) (new_replicas : List ℕ → Bool) where
  abbrev parts : Parts ReplicasInfo (Replicas S)
  parts = replicas_parts p new_replicas

  -- What happens to a group behind its Init: a call that its class places, and then a service of
  -- the replicas chosen; and what becomes of one service by itself.
  pub data Used (k : Kind) : Group S → Group S → Type 1 where
    as_made : (g : Group S) → Used k g g
    called :
        (O : Type 0) (seed : ℕ) (text : List ℕ) (out : O) (call : S → Answer O S) (g0 g : Group S)
        (ok : Bool) (got : O) (g' : Group S)
        → dispatch parts (ask_of k seed text) out (dispatch p choose_by_nothing out call) g
          ≡ answers ok got g'
        → Used k g0 g
        → Used k g0 g'
    service_changed :
        (O : Type 0) (event : S → Answer O S) (i j : ℕ) (g0 g : Group S) (ok : Bool) (got : O)
        (g' : Group S)
        → on_child parts (on_child p event j) i g ≡ answers ok got g'
        → Used k g0 g
        → Used k g0 g'

  dispatch-IsGood :
      {O : Type 0} (out : O) (call : S → Answer O S) (r : Replicas S)
      → IsGood p r
      → Answers (IsGood p) (dispatch p choose_by_nothing out call r)
  dispatch-IsGood out call r (sound, fits) =
      both (IsSound p) (Fits _ IsPlain) (dispatch p choose_by_nothing out call r)
        (dispatch-IsSound p choose_by_nothing out call r sound)
        (dispatch-Fits p _ IsPlain call (λ c _. any-Answers (call c)) choose_by_nothing out r
          (ask_of-AskKeeps by_nothing 0 []) fits)

  on_child-IsGood :
      {O : Type 0} (event : S → Answer O S) (j : ℕ) (r : Replicas S)
      → IsGood p r
      → Answers (IsGood p) (on_child p event j r)
  on_child-IsGood event j r (sound, fits) =
      both (IsSound p) (Fits _ IsPlain) (on_child p event j r) (on_child-IsSound p event j r sound)
        (on_child-Fits p _ IsPlain event (λ c _. any-Answers (event c)) j r fits)

  Used-IsWhole :
      {k : Kind} {g0 g : Group S}
      → Used k g0 g
      → IsWhole p new_replicas k g0
      → IsWhole p new_replicas k g
  Used-IsWhole {k = k} (as_made g) whole = whole
  Used-IsWhole {k = k} (called O seed text out call g0 g ok got g' e used) whole =
      let (sound, fits) = Used-IsWhole used whole in
      subst (Answers (IsWhole p new_replicas k)) e (
        both (IsSound parts) (Fits (IsGood p) (Suits k)) _
          (dispatch-IsSound parts (ask_of k seed text) out (dispatch p choose_by_nothing out call) g
            sound)
          (dispatch-Fits parts (IsGood p) (Suits k) (dispatch p choose_by_nothing out call)
            (dispatch-IsGood out call) (ask_of k seed text) out g (ask_of-AskKeeps k seed text)
            fits))
  Used-IsWhole {k = k} (service_changed O event i j g0 g ok got g' e used) whole =
      let (sound, fits) = Used-IsWhole used whole in
      subst (Answers (IsWhole p new_replicas k)) e (
        both (IsSound parts) (Fits (IsGood p) (Suits k)) _
          (on_child-IsSound parts (on_child p event j) i g sound)
          (on_child-Fits parts (IsGood p) (Suits k) (on_child p event j) (on_child-IsGood event j) i
            g fits))

  -- However a new group is used behind an Init that returned true, by calls with any seeds and by
  -- events of single services, the group and each of its replicas stay whole.
  pub init-Used-IsWhole :
      (k : Kind) (sgi : GroupInfo) (g0 g : Group S)
      → FailsOff p
      → Group.init p new_replicas k sgi (new_level no_group_info) ≡ some (true, g0)
      → Used k g0 g
      → IsWhole p new_replicas k g
  init-Used-IsWhole k sgi g0 g fails e used =
      Used-IsWhole used (init-IsWhole p fails new_replicas k no_group_info sgi g0 e)
