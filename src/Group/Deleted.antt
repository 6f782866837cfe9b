-- ===== src/Group/Deleted.antt =====
-- The destructor of a whole service group of common/service_group.cpp.
use friend_serv.Base.{
  ℕ, ◌≡◌, refl, inl, inr, Bool, true, false, ◌||◌, ◌&&◌, not, List, [], ◌∷◌, none, some,
  if◌then◌else◌, ◌∙◌, arith, ap, ap₂, Bool-cases,
}
use friend_serv.Config.{HostInfo}
use friend_serv.Level.{Parts, any_on, close, cleared}
use friend_serv.Level.Teardown.{on_behind, all_end, close_lem}
use friend_serv.Level.Fits.{Each}
use friend_serv.Replicas.{Replicas}
use friend_serv.Group.{Kind, Group, replicas_parts, is_some}
use friend_serv.Group.Whole.{IsGood, IsWhole, any_service, any_on-any_service}

is_some-if :
    {A : Type 0} (b e : Bool) (a : A)
    → e ≡ true
    → is_some (if b || not e then none else some a) ≡ not b
is_some-if true e a h = refl
is_some-if false true a h = refl
is_some-if false false a h = absurd (cc)

module _ {S : Type 0} (p : Parts HostInfo S) where
  -- A service of the group is enabled that is not the first of the first replicas.
  abbrev pub others_on : List (Replicas S) → Bool
  others_on [] = false
  others_on (r ∷ rs) = on_behind p r.children || any_service p rs

module _ {S : Type 0} (p : Parts HostInfo S) (ends : (c : S) → p.destroy c ≡ true) where
  services_end : (cs : List S) → all_end p cs ≡ true
  services_end [] = refl
  services_end (c ∷ cs) = ground (arith, ends c, services_end cs)

  destroy_lem :
      (new_replicas : List ℕ → Bool) (r : Replicas S)
      → IsGood p r
      → (replicas_parts p new_replicas).destroy r ≡ not (on_behind p r.children)
  destroy_lem new_replicas r (sound, fits) =
      ap is_some (close_lem p r sound fits.fresh)
      ∙ is_some-if (on_behind p r.children) _ _ (services_end r.children)

  on_behind-any_on : (cs : List S) → any_on p cs ≡ false → on_behind p cs ≡ false
  on_behind-any_on [] h = refl
  on_behind-any_on (c ∷ cs) h = ground (arith, h)

  -- Replicas without an enabled service are deleted without a fault.
  idle-all_end :
      (new_replicas : List ℕ → Bool) (rs : List (Replicas S))
      → Each (IsGood p) rs
      → any_service p rs ≡ false
      → all_end (replicas_parts p new_replicas) rs ≡ true
  idle-all_end new_replicas [] good off = refl
  idle-all_end new_replicas (r ∷ rs) (good, goods) off =
      let first : any_on p r.children ≡ false = ground (arith, off) in
      ap₂ ◌&&◌ (destroy_lem new_replicas r good ∙ ap not (on_behind-any_on r.children first))
        (idle-all_end new_replicas rs goods (ground (arith, off)))

  faults_iff :
      (new_replicas : List ℕ → Bool) (rs : List (Replicas S))
      → Each (IsGood p) rs
      → (on_behind (replicas_parts p new_replicas) rs
          || not (all_end (replicas_parts p new_replicas) rs))
        ≡ others_on p rs
  faults_iff new_replicas [] good = refl
  faults_iff new_replicas (r ∷ rs) (good, goods) =
      let parts = replicas_parts p new_replicas in
      let behind = any_on-any_service p new_replicas rs goods in
      let first = destroy_lem new_replicas r good in
      elim (Bool-cases (any_service p rs)) [
        | inl on ↦ rw (behind, on) (ground arith)
        | inr off ↦
            let rest : all_end parts rs ≡ true = idle-all_end new_replicas rs goods off in
            rw (behind, off, first, rest) (ground arith)
      ]

  -- Deleting a whole group reads a deleted service or replicas if a service of it is enabled that is
  -- not the first one of the first replicas, and otherwise empties the group.
  pub close_group :
      (new_replicas : List ℕ → Bool) (k : Kind) (g : Group S)
      → IsWhole p new_replicas k g
      → close (replicas_parts p new_replicas) g
        ≡ (if others_on p g.children then none else cleared g false)
  close_group new_replicas k g (sound, fits) =
      close_lem (replicas_parts p new_replicas) g sound fits.fresh
      ∙ ap (λ (b : Bool). if b then none else cleared g false)
          (faults_iff new_replicas g.children fits.kids)
