-- ===== src/Handler/Reload.antt =====
-- ReloadServiceGroup of common/proto_handler.cpp, for the synchronous handlers.
use friend_serv.Base.{
  ℕ, ◌≡◌, ◌≢◌, refl, inl, inr, Bool, true, false, not, List, Option, none, some, ◌>>=◌,
  if◌then◌else◌, ◌∙◌, ap, Bool-cases,
}
use friend_serv.Config.{HostInfo, GroupInfo, group_eq}
use friend_serv.Config.Equality.{group_eq_iff}
use friend_serv.Level.{Parts, new_level}
use friend_serv.Group.{Kind, Group, no_group_info, replicas_parts}
use friend_serv.Group
use friend_serv.Group.Whole.{IsWhole}
use friend_serv.Group.Deleted.{others_on, close_group}
use friend_serv.Handler.{
  Handler, Groups, reload_group, reload_created, reload_service_group, replaced, sync_groups,
}

module _ {G : Type 0} (o : Groups G) (sgi : GroupInfo) (h : Handler G) (old : G)
    (on : h.inited ≡ true) (held : h.sg ≡ some old) where
  reload-held : reload_service_group o sgi h ≡ reload_group o sgi h (some old)
  unfolding reload_service_group
  reload-held =
      ap (λ (b : Bool). if not b then some (false, h) else reload_group o sgi h h.sg) on
      ∙ ap (reload_group o sgi h) held

  reload_same : sgi ≡ o.get_service_group_info old → reload_service_group o sgi h ≡ some (true, h)
  reload_same e = reload-held ∙ rw ((group_eq_iff sgi (o.get_service_group_info old)).1 e) refl

  group_eq-false : (a b : GroupInfo) → a ≢ b → group_eq a b ≡ false
  group_eq-false a b ne = elim (Bool-cases (group_eq a b)) [
    | inl e ↦ absurd (ne ((group_eq_iff a b).0 e))
    | inr e ↦ e
  ]

  reload_other :
      sgi ≢ o.get_service_group_info old
      → reload_service_group o sgi h ≡ reload_created o sgi h old o.create_service_group
  reload_other ne = reload-held ∙ rw (group_eq-false sgi (o.get_service_group_info old) ne) refl

module _ {S : Type 0} (p : Parts HostInfo S) (destroys : (c : S) → p.destroy c ≡ true)
    (new_replicas : List ℕ → Bool) (k : Kind) (sgi : GroupInfo) (h : Handler (Group S))
    (old : Group S) where
  abbrev run : Bool → Option (Bool × Handler (Group S))
  run memory = reload_service_group (sync_groups p new_replicas memory k) sgi h

  -- A new group for the configuration.
  abbrev built : Option (Bool × Group S)
  built = Group.init p new_replicas k sgi (new_level no_group_info)

  deleted :
      (g : Group S)
      → IsWhole p new_replicas k old
      → replaced (sync_groups p new_replicas true k) h old (true, g)
        ≡ (if others_on p old.children then none else some (true, record h { sg = some g }))
  deleted g whole = elim (Bool-cases (others_on p old.children)) [
    | inl e ↦ rw (close_group p destroys new_replicas k old whole, e) refl
    | inr e ↦ rw (close_group p destroys new_replicas k old whole, e) refl
  ]

  not_built :
      (memory : Bool) (g : Group S)
      → built ≡ some (false, g)
      → reload_created
          (sync_groups p new_replicas memory k)
          sgi
          h
          old
          (sync_groups p new_replicas memory k).create_service_group
        ≡ some (false, h)
  not_built true g e = ap (λ r. r >>= replaced (sync_groups p new_replicas true k) h old) e
  not_built false g e = refl

  -- ReloadServiceGroup of an initialised handler whose group is whole. With the configuration that the
  -- group has, it returns true and changes nothing. With another one, where no group can be made or
  -- its Init returns false, it returns false and keeps the old group. Where Init returns true, it
  -- returns true with the new group in place of the old one, unless a service of the old group is
  -- enabled other than the first of its first replicas: then the deletion reads deleted elements.
  pub reload_lem :
      (memory : Bool)
      → h.inited ≡ true
      → h.sg ≡ some old
      → IsWhole p new_replicas k old
      → (sgi ≡ old.info → run memory ≡ some (true, h))
        × (sgi ≢ old.info → memory ≡ false → run memory ≡ some (false, h))
        × ((g : Group S) → sgi ≢ old.info → built ≡ some (false, g) → run memory ≡ some (false, h))
        × ((g : Group S)
            → sgi ≢ old.info
            → memory ≡ true
            → built ≡ some (true, g)
            → run memory
              ≡ (if others_on p old.children then none else some (true, record h { sg = some g })))
  reload_lem memory on held whole =
      let o = sync_groups p new_replicas memory k in
      (
        reload_same o sgi h old on held,
        λ ne none_left. reload_other o sgi h old on held ne ∙ rw none_left refl,
        λ g ne e. reload_other o sgi h old on held ne ∙ not_built memory g e,
        λ g ne mem e.
            reload_other o sgi h old on held ne
            ∙ ap
                (λ m.
                  reload_created (sync_groups p new_replicas m k) sgi h old
                    (sync_groups p new_replicas m k).create_service_group)
                mem
            ∙ ap (λ r. r >>= replaced (sync_groups p new_replicas true k) h old) e
            ∙ deleted g whole,
      )
