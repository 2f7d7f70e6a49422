-- ===== src/Union/Lower/Creation.antt =====
-- What is there when `CreateLower` succeeds.
use union_csi.Base.{
  String, Bool, true, some, ◌⊎◌, List, [], ◌∷◌, ◌≡◌, ◌≢◌, arith, inl, inr, Bool-cases, Option-cases,
  is_empty,
}
use union_csi.Base.Int.{pos}
use union_csi.Failure.{ok, after_world, after-eq-ok, pure, ◌>>◌}
use union_csi.Kube.{AccessMode, VolumeSplit, PersistentVolumeClaimSplit, PersistentVolumeClaim}
use union_csi.Kube.Cluster.{Cluster}
use union_csi.Kube.Cluster.Store.{View, IsClaimStore}
use union_csi.Union.{CreateLowerOptions, Volume, new_volume_from_volume_split}
use union_csi.Union.AccessModes.{get_access_modes}
use union_csi.Union.Splitter.{Splitter}
use union_csi.Union.Splits.{create_split}
use union_csi.Union.Lower.{
  is_missing, lower_claim, keep_claim, split_spec_of, get_claim_local, create_claim_of,
  create_lower_claim_from_split, create_lower_loop, create_lower_from_split, create_lower,
}

-- The volume that is returned for a split.
abbrev pub volume_of : VolumeSplit → Volume
volume_of split = record (new_volume_from_volume_split split) { capacity_bytes = pos 0 }

module _ (K : Cluster) (V : View K) (D : IsClaimStore K V) where
  open V use {claims}

  -- In the end, in w', the claim is stored, or the cache had it when it was looked up, in u.
  abbrev pub Supplied : VolumeSplit → PersistentVolumeClaimSplit → K.World → K.World → Type 0
  Supplied split c u w' =
      (claims w' split.spec.namespace c.claim_name ≡ true)
      ⊎ ((claim : PersistentVolumeClaim) × ((K.claim_lister split.spec.namespace c.claim_name u).0
            ≡ some claim))

  -- So are all claims of a split, each of which is looked up in the world that those before it leave.
  abbrev pub AllSupplied :
      VolumeSplit → List PersistentVolumeClaimSplit → K.World → K.World → Type 0
  AllSupplied split [] u w' = Unit
  AllSupplied split (c ∷ cs) u w' =
      Supplied split c u w' × AllSupplied split cs (create_lower_claim_from_split K split c u).1 w'

  create_claim_of_done :
      (split : VolumeSplit) (c : PersistentVolumeClaimSplit) (w : K.World)
      {x : PersistentVolumeClaim × Bool}
      → (create_claim_of K split c w).0 ≡ ok x
      → claims (create_claim_of K split c w).1 split.spec.namespace c.claim_name ≡ true
  unfolding create_claim_of lower_claim
  create_claim_of_done split c w h =
      let ns = split.spec.namespace in
      elim (Option-cases (K.create_claim ns (lower_claim split c) w).0) [
        | inl made ↦ ground (arith, made, D.create_done ns (lower_claim split c) w made)
        | inr (e, failed) ↦ absurd (ground (arith, failed))
      ]

  create_claim_of-claims :
      (split : VolumeSplit) (c : PersistentVolumeClaimSplit) (w : K.World) (ms n : String)
      → claims w ms n ≡ true
      → claims (create_claim_of K split c w).1 ms n ≡ true
  unfolding create_claim_of lower_claim
  create_claim_of-claims split c w ms n h =
      let ns = split.spec.namespace in
      ground (arith, D.create_keeps ns (lower_claim split c) w ms n h)

  -- A claim that is kept is in the cache.
  keep_claim_done :
      (split : VolumeSplit) (c : PersistentVolumeClaimSplit) (w : K.World)
      {x : PersistentVolumeClaim × Bool}
      → keep_claim split (get_claim_local K split.spec.namespace c.claim_name w).0 ≡ ok x
      → (claim : PersistentVolumeClaim) × ((K.claim_lister split.spec.namespace c.claim_name w).0
          ≡ some claim)
  unfolding keep_claim get_claim_local
  keep_claim_done split c w h =
      elim (Option-cases (K.claim_lister split.spec.namespace c.claim_name w).0) [
        | inl none_ ↦ absurd (ground (arith, none_))
        | inr found ↦ found
      ]

  create_lower_claim_done :
      (split : VolumeSplit) (c : PersistentVolumeClaimSplit) (w : K.World)
      {x : PersistentVolumeClaim × Bool}
      → (create_lower_claim_from_split K split c w).0 ≡ ok x
      → Supplied split c w (create_lower_claim_from_split K split c w).1
  unfolding create_lower_claim_from_split
  create_lower_claim_done split c w h =
      elim (Bool-cases (is_missing K (get_claim_local K split.spec.namespace c.claim_name w).1)) [
        | inl missing ↦ inl (rw missing (create_claim_of_done split c w (rw missing at h)))
        | inr other ↦ inr (keep_claim_done split c w (rw other at h))
      ]

  create_lower_claim-claims :
      (split : VolumeSplit) (c : PersistentVolumeClaimSplit) (w : K.World) (ms n : String)
      → claims w ms n ≡ true
      → claims (create_lower_claim_from_split K split c w).1 ms n ≡ true
  unfolding create_lower_claim_from_split
  create_lower_claim-claims split c w ms n h =
      ground (arith, create_claim_of-claims split c w ms n h)

  create_lower_loop-claims :
      (split : VolumeSplit) (cs : List PersistentVolumeClaimSplit) (w : K.World) (ms n : String)
      → claims w ms n ≡ true
      → claims (create_lower_loop K split cs w).1 ms n ≡ true
  unfolding create_lower_loop
  create_lower_loop-claims split [] w ms n h = h
  create_lower_loop-claims split (c ∷ cs) w ms n h =
      let one = create_lower_claim-claims split c w ms n h in
      after_world (λ w'. claims w' ms n ≡ true) (create_lower_claim_from_split K split c w).0 _ _
        one λ _ _. create_lower_loop-claims split cs _ ms n one

  create_lower_loop_done :
      (split : VolumeSplit) (cs : List PersistentVolumeClaimSplit) (w : K.World) {u : Unit {0}}
      → (create_lower_loop K split cs w).0 ≡ ok u
      → AllSupplied split cs w (create_lower_loop K split cs w).1
  unfolding create_lower_loop
  create_lower_loop_done split [] w h = tt
  create_lower_loop_done split (c ∷ cs) w h =
      let (x, first, rest, same) =
        after-eq-ok (create_lower_claim_from_split K split c w).0
          (λ _. create_lower_loop K split cs) _ h in
      let w1 = (create_lower_claim_from_split K split c w).1 in
      let one : Supplied split c w (create_lower_loop K split cs w1).1 =
        elim (create_lower_claim_done split c w first) [
          | inl stored ↦
              inl (create_lower_loop-claims split cs w1 split.spec.namespace c.claim_name stored)
          | inr cached ↦ inr cached
        ] in
      rw same (one, create_lower_loop_done split cs w1 rest)

  create_lower_from_split_done :
      (split : VolumeSplit) (w : K.World) {u : Unit {0}}
      → (create_lower_from_split K split w).0 ≡ ok u
      → (split.spec.splits ≢ [])
        × AllSupplied split split.spec.splits w (create_lower_from_split K split w).1
  unfolding create_lower_from_split
  create_lower_from_split_done split w h = elim (Bool-cases (is_empty split.spec.splits)) [
    | inl empty ↦ absurd (ground (arith, empty))
    | inr full ↦ (
      λ e. ground (arith, full),
      rw full (create_lower_loop_done split split.spec.splits w (rw full at h)),
    )
  ]

  -- The split that `CreateSplit` answers with is where the volume comes from, it has claims, and all
  -- of them are stored in the world w', or were in the cache when they were looked up.
  pub record IsSupplied (s : Splitter) (v : String) (o : CreateLowerOptions) (w : K.World)
      (volume : Volume) (w' : K.World) : Type 0 where
    pub modes : List AccessMode
    pub split : VolumeSplit
    pub known : get_access_modes o.csi_access_modes ≡ ok modes
    pub recorded : (create_split K s v (split_spec_of v o modes) w).0 ≡ ok split
    pub same : volume ≡ volume_of split
    pub full : split.spec.splits ≢ []
    pub supplied :
        AllSupplied split split.spec.splits (create_split K s v (split_spec_of v o modes) w).1 w'

  -- When `CreateLower` succeeds, the volume that it returns is that of the split that `CreateSplit`
  -- answers with, the split has claims, and each of them is stored, but for those that the cache had
  -- when they were looked up.
  pub create_lower_done :
      (s : Splitter) (v : String) (o : CreateLowerOptions) (w : K.World) {volume : Volume}
      → (create_lower K s v o w).0 ≡ ok volume
      → IsSupplied s v o w volume (create_lower K s v o w).1
  unfolding create_lower
  create_lower_done s v o w {volume = volume} h =
      let (modes, got, h1, same1) = after-eq-ok (get_access_modes o.csi_access_modes) _ w h in
      let (split, made, h2, same2) =
        after-eq-ok (create_split K s v (split_spec_of v o modes) w).0
          (λ split. create_lower_from_split K split >> pure (volume_of split)) _ h1 in
      let w' = (create_split K s v (split_spec_of v o modes) w).1 in
      let (u, looped, h3, same3) =
        after-eq-ok (create_lower_from_split K split w').0 (λ _. pure (volume_of split)) _ h2 in
      let (full, all_supplied) = create_lower_from_split_done split w' looped in
      rw (same1, same2, same3)
        (record {
          modes = modes;
          split = split;
          known = got;
          recorded = made;
          same = ground (arith, h3);
          full = full;
          supplied = all_supplied;
        })
