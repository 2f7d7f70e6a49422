-- ===== src/Union/Lower/Ownership.antt =====
-- No lower claim is lost: each claim that the driver makes is listed in a recorded split, from which
-- it can be found and deleted.
use union_csi.Base.{
  String, true, false, some, List, [], ◌∷◌, ◌≡◌, refl, sym, inl, inr, arith, Any, here, there,
  Bool-cases, is_empty, subst,
}
use union_csi.Failure.{after_world}
use union_csi.Kube.{VolumeSplit, VolumeSplitSpec, PersistentVolumeClaimSplit}
use union_csi.Kube.Cluster.{Cluster}
use union_csi.Kube.Cluster.Store.{View, IsSplitStore, IsClaimStore}
use union_csi.Union.{CreateLowerOptions}
use union_csi.Union.AccessModes.{get_access_modes}
use union_csi.Union.Splitter.{Splitter, empty_split, make_split_name}
use union_csi.Union.Splits.{create_split}
use union_csi.Union.Splits.Origins.{Origin, made, twin, unread, create_split-Origin}
use union_csi.Union.Splits.Keeps.{Grows, create_split-Grows}
use union_csi.Union.Lower.{
  split_spec_of, create_lower, lower_claim, keep_claim, create_claim_of, is_missing,
  get_claim_local, create_lower_claim_from_split, create_lower_loop, create_lower_from_split,
}

-- A split lists a claim by its namespace and one of its names.
abbrev pub HasName : String → List PersistentVolumeClaimSplit → Type 0
HasName n = Any (λ c. c.claim_name ≡ n)

abbrev pub Lists : VolumeSplit → String → String → Type 0
Lists split ns n = (split.spec.namespace ≡ ns) × HasName n split.spec.splits

module _ (K : Cluster) (V : View K) where
  open V use {splits, claims}

  abbrev pub Owner : K.World → String → String → Type 0
  Owner w ns n = (m : String) × (split : VolumeSplit) × (splits w m ≡ some split) × Lists split ns n

  -- Every claim is listed in a recorded split.
  abbrev pub IsOwned : K.World → Type 0
  IsOwned w = (ns n : String) → claims w ns n ≡ true → Owner w ns n

  Owner-move :
      {w w' : K.World} {ns n : String} → splits w' ≡ splits w → Owner w ns n → Owner w' ns n
  Owner-move same (m, split, recorded, listed) = (m, split, rw same recorded, listed)

  Grows-IsOwned : {w w' : K.World} → Grows K V w w' → IsOwned w → IsOwned w'
  Grows-IsOwned {w} {w'} g owned ns n stored =
      let (m, split, recorded, listed) = owned ns n (rw (← g.claims) stored) in
      (m, split, g.splits m recorded, listed)

  create_lower_claim_missing :
      (split : VolumeSplit) (c : PersistentVolumeClaimSplit) (w : K.World)
      → is_missing K (get_claim_local K split.spec.namespace c.claim_name w).1 ≡ true
      → create_lower_claim_from_split K split c w ≡ create_claim_of K split c w
  unfolding create_lower_claim_from_split
  create_lower_claim_missing split c w h = rw h

  create_lower_claim_present :
      (split : VolumeSplit) (c : PersistentVolumeClaimSplit) (w : K.World)
      → is_missing K (get_claim_local K split.spec.namespace c.claim_name w).1 ≡ false
      → create_lower_claim_from_split K split c w
        ≡ (keep_claim split (get_claim_local K split.spec.namespace c.claim_name w).0, w)
  unfolding create_lower_claim_from_split
  create_lower_claim_present split c w h = rw h

  module _ (S : IsSplitStore K V) (D : IsClaimStore K V) where
    create_claim_of_world :
        (split : VolumeSplit) (c : PersistentVolumeClaimSplit) (w : K.World)
        → (create_claim_of K split c w).1
          ≡ (K.create_claim split.spec.namespace (lower_claim split c) w).1
    unfolding create_claim_of
    create_claim_of_world split c w = ground arith

    -- A recorded split may create a claim that it lists.
    create_claim_of-IsOwned :
        (split : VolumeSplit) (c : PersistentVolumeClaimSplit) (w : K.World) (m : String)
        → splits w m ≡ some split
        → HasName c.claim_name split.spec.splits
        → IsOwned w
        → let w' = (create_claim_of K split c w).1 in (splits w' ≡ splits w) × IsOwned w'
    unfolding lower_claim
    create_claim_of-IsOwned split c w m recorded listed owned =
        let same = D.create-splits split.spec.namespace (lower_claim split c) w in
        rw (create_claim_of_world split c w) (
          same,
          λ ns n stored.
              elim (D.create_only split.spec.namespace (lower_claim split c) w ns n stored) [
                | inl old ↦ Owner-move same (owned ns n old)
                | inr fresh ↦ (
                  m,
                  split,
                  rw same recorded,
                  (sym fresh.0, subst (λ t. HasName t split.spec.splits) (sym fresh.1) listed),
                )
              ],
        )

    create_lower_claim_from_split-IsOwned :
        (split : VolumeSplit) (c : PersistentVolumeClaimSplit) (w : K.World) (m : String)
        → splits w m ≡ some split
        → HasName c.claim_name split.spec.splits
        → IsOwned w
        → let w' = (create_lower_claim_from_split K split c w).1 in
          (splits w' ≡ splits w) × IsOwned w'
    create_lower_claim_from_split-IsOwned split c w m recorded listed owned =
        elim (Bool-cases (is_missing K (get_claim_local K split.spec.namespace c.claim_name w).1)) [
          | inl absent ↦
              rw (create_lower_claim_missing split c w absent)
                (create_claim_of-IsOwned split c w m recorded listed owned)
          | inr present ↦ rw (create_lower_claim_present split c w present) (refl, owned)
        ]

    create_lower_loop-IsOwned :
        (split : VolumeSplit) (cs : List PersistentVolumeClaimSplit) (w : K.World) (m : String)
        → splits w m ≡ some split
        → ((n : String) → HasName n cs → HasName n split.spec.splits)
        → IsOwned w
        → IsOwned (create_lower_loop K split cs w).1
    unfolding create_lower_loop
    create_lower_loop-IsOwned split [] w m recorded within owned = owned
    create_lower_loop-IsOwned split (c ∷ cs) w m recorded within owned =
        let (same, owned') =
          create_lower_claim_from_split-IsOwned split c w m recorded
            (within c.claim_name (here refl)) owned in
        after_world IsOwned (create_lower_claim_from_split K split c w).0 _ _ owned' λ _ _.
          create_lower_loop-IsOwned split cs _ m (rw same recorded) (λ n h. within n (there h))
            owned'

    create_lower_from_split-IsOwned :
        (split : VolumeSplit) (w : K.World) (m : String)
        → splits w m ≡ some split
        → IsOwned w
        → IsOwned (create_lower_from_split K split w).1
    unfolding create_lower_from_split
    create_lower_from_split-IsOwned split w m recorded owned =
        elim (Bool-cases (is_empty split.spec.splits)) [
          | inl empty ↦ rw (empty, create_lower_from_split) owned
          | inr filled ↦
              rw (filled, create_lower_from_split)
                (create_lower_loop-IsOwned split split.spec.splits w m recorded (λ n h. h) owned)
        ]

    create_lower_from_empty-IsOwned :
        (split : VolumeSplit) (w : K.World)
        → split ≡ empty_split
        → IsOwned w
        → IsOwned (create_lower_from_split K split w).1
    unfolding create_lower_from_split
    create_lower_from_empty-IsOwned split w e owned = rw e owned

    IsOwned-of_Origin :
        (s : Splitter) (v : String) (spec : VolumeSplitSpec) (split : VolumeSplit) (w : K.World)
        → Origin K V S s v spec split w
        → IsOwned w
        → IsOwned (create_lower_from_split K split w).1
    IsOwned-of_Origin s v spec split w (made e recorded) =
        create_lower_from_split-IsOwned split w (make_split_name v) recorded
    IsOwned-of_Origin s v spec split w (twin recorded fits) =
        create_lower_from_split-IsOwned split w (make_split_name (make_split_name v)) recorded
    IsOwned-of_Origin s v spec split w (unread e fits) = create_lower_from_empty-IsOwned split w e

    -- Whatever the API answers, and whether `CreateLower` succeeds or fails on the way, every claim
    -- that exists afterwards is listed in a recorded split if that was so before.
    pub create_lower-IsOwned :
        (s : Splitter) (v : String) (o : CreateLowerOptions) (w : K.World)
        → IsOwned w
        → IsOwned (create_lower K s v o w).1
    unfolding create_lower
    create_lower-IsOwned s v o w owned =
        after_world IsOwned (get_access_modes o.csi_access_modes) _ w owned λ modes _.
          let spec = split_spec_of v o modes in
          let owned' = Grows-IsOwned (create_split-Grows K V S s v spec w) owned in
          after_world IsOwned (create_split K s v spec w).0 _ _ owned' λ split got.
            let w' = (create_split K s v spec w).1 in
            let kept =
              IsOwned-of_Origin s v spec split w' (create_split-Origin K V S s v spec w got)
                owned' in
            after_world IsOwned (create_lower_from_split K split w').0 _ _ kept (λ _ _. kept)
