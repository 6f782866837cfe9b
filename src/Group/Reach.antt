-- ===== src/Group/Reach.antt =====
-- A call through a whole service group of common/service_group.cpp: which service it reaches.
use friend_serv.Base.{
  ℕ, ◌≡◌, refl, inl, inr, Bool, true, false, List, some, get_elem?, sym, ◌∙◌, arith, ap, subst,
  Bool-cases, Option-cases,
}
use friend_serv.Config.{HostInfo, ReplicasInfo}
use friend_serv.Strategy.Chooser.{Chooser, choose_by_nothing}
use friend_serv.Level.{Parts, Level, Answer, answers, any_on, waits, dispatch, finished, replace}
use friend_serv.Level.Sound.{IsSound, has_strategy}
use friend_serv.Level.Calls.{finished-answers}
use friend_serv.Level.Reaches.{IsPlain, asked_level, dispatch_reaches}
use friend_serv.Level.Fits.{Each-found, By}
use friend_serv.Replicas.{Replicas}
use friend_serv.Group.{by_nothing, Group, replicas_parts}
use friend_serv.Group.Whole.{IsGood, IsWhole, any_service, any_on-any_service}

bool_clash : true ≡ false → ⊥
bool_clash e = cc

-- A sound level that is initialised, or enabled, has a strategy.
strategy-By :
    {I X C : Type 0} (p : Parts I C) (T : Chooser → Type 0) (n : Level X C)
    → IsSound p n
    → By T n.strategy
    → n.inited ≡ true
    → (s : Chooser) × (n.strategy ≡ some s) × T s
strategy-By p T n sound by on = elim (Option-cases n.strategy) [
  | inl e ↦ absurd (bool_clash (sym on ∙ sound.ready ∙ ap has_strategy e))
  | inr (s, e) ↦ (s, e, subst (By T) e by)
]

enabled-inited :
    {I X C : Type 0} (p : Parts I C) (n : Level X C)
    → IsSound p n
    → n.enabled ≡ true
    → n.inited ≡ true
enabled-inited p n sound on = elim (Bool-cases n.inited) [
  | inl e ↦ e
  | inr e ↦ absurd (ground (arith, sound.agrees, on, ap (any_on p) (sound.bare e)))
]

module _ {S O : Type 0} (p : Parts HostInfo S) (new_replicas : List ℕ → Bool) (out : O)
    (call : S → Answer O S) where
  abbrev parts : Parts ReplicasInfo (Replicas S)
  parts = replicas_parts p new_replicas

  abbrev on_replicas : Replicas S → Answer O (Replicas S)
  on_replicas r = dispatch p choose_by_nothing out call r

  -- The call on `g` goes to an enabled service: what that answers is returned, and the service is
  -- the only one that changes; and the call waits where that service waits.
  abbrev pub Arrives : Group S → Type 0
  Arrives g =
      (i j : ℕ) × (r : Replicas S) × (c : S) × (get_elem? g.children i ≡ some r)
      × (get_elem? r.children j ≡ some c)
      × (p.is_enable c ≡ true)
      × (call c ≡ waits → dispatch parts choose_by_nothing out on_replicas g ≡ waits)
      × ((ok : Bool) (got : O) (c' : S)
          → call c ≡ answers ok got c'
          → (g' : Group S) × (r' : Replicas S) × (dispatch parts choose_by_nothing out on_replicas g
              ≡ answers ok got g')
            × (g'.children ≡ replace i r' g.children)
            × (r'.children ≡ replace j c' r.children))

  arrives :
      (g : Group S) (s : Chooser) (i : ℕ) (r : Replicas S) (s' : Chooser) (j : ℕ) (c : S)
      → g.freed ≡ false
      → r.freed ≡ false
      → get_elem? g.children i ≡ some r
      → get_elem? r.children j ≡ some c
      → p.is_enable c ≡ true
      → dispatch parts choose_by_nothing out on_replicas g
        ≡ finished parts (asked_level s g) i r (on_replicas r)
      → on_replicas r ≡ finished p (asked_level s' r) j c (call c)
      → Arrives g
  arrives g s i r s' j c fresh fresh' found found' c_on outer inner = (
    i,
    j,
    r,
    c,
    found,
    found',
    c_on,
    λ e.
        outer
        ∙ ap (finished parts (asked_level s g) i r)
            (inner ∙ ap (finished p (asked_level s' r) j c) e),
    λ ok got c' e.
        let (en', low) = finished-answers p (asked_level s' r) j c (call c) ok got c' fresh' e in
        let r' : Replicas S = record (asked_level s' r) {
          children = replace j c' r.children;
          enabled = en';
        } in
        let (en, high) =
          finished-answers parts (asked_level s g) i r (on_replicas r) ok got r' fresh
            (inner ∙ low) in
        (
          record (asked_level s g) { children = replace i r' g.children; enabled = en },
          r',
          outer ∙ high,
          refl,
          refl,
        ),
  )

  enabled_replicas-Arrives :
      (g : Group S) (s : Chooser) (i : ℕ) (r : Replicas S)
      → g.freed ≡ false
      → IsGood p r
      → get_elem? g.children i ≡ some r
      → r.enabled ≡ true
      → dispatch parts choose_by_nothing out on_replicas g
        ≡ finished parts (asked_level s g) i r (on_replicas r)
      → Arrives g
  enabled_replicas-Arrives g s i r fresh (sound, fits) found r_on outer =
      let on = enabled-inited p r sound r_on in
      let (t, by, plain) = strategy-By p IsPlain r sound fits.by on in
      let (reaches, _) = dispatch_reaches p out call r t on by plain in
      let (s', j, c, _, found', c_on, inner) = reaches (sym sound.agrees ∙ r_on) in
      arrives g s i r s' j c fresh fits.fresh found found' c_on outer inner

  -- A call without a seed on an initialised group, where the group and its replicas are whole, goes to
  -- a service that is enabled, if any service of the group is; and if none is, it returns false and
  -- changes nothing.
  pub group_reaches :
      (g : Group S)
      → IsWhole p new_replicas by_nothing g
      → g.inited ≡ true
      → (any_service p g.children ≡ true → Arrives g)
        × (any_service p g.children ≡ false
            → dispatch parts choose_by_nothing out on_replicas g ≡ answers false out g)
  group_reaches g (sound, fits) on =
      let same = any_on-any_service p new_replicas g.children fits.kids in
      let (s, by, plain) = strategy-By parts IsPlain g sound fits.by on in
      let (reaches, idle) = dispatch_reaches parts out on_replicas g s on by plain in
      (
        λ some_on.
            let (s', i, r, _, found, r_on, outer) = reaches (same ∙ some_on) in
            enabled_replicas-Arrives g s' i r fits.fresh
              (Each-found (IsGood p) g.children i r fits.kids found) found r_on outer,
        λ off. idle (same ∙ off),
      )
