-- ===== src/Union/Lower/Fresh.antt =====
-- `CreateLower` of a volume that is not there yet, on a cluster that works.
use union_csi.Base.{
  String, true, false, none, some, [], ◌∷◌, ◌≡◌, ◌≢◌, ◌⊎◌, refl, sym, ap, ◌∙◌, arith, inl, inr,
  ◌==◌, string_eq, Bool-cases, if◌then◌else◌,
}
use union_csi.Failure.{ok}
use union_csi.Kube.{VolumeSplit, VolumeSplitSpec, PersistentVolumeClaimSplit}
use union_csi.Kube.Cluster.{Cluster}
use union_csi.Kube.Cluster.Laws.{IsClassifier}
use union_csi.Kube.Cluster.Store.{View, IsSplitStore, IsClaimStore, IsHealthy}
use union_csi.Kube.Cluster.Working.{IsWorking}
use union_csi.Union.Splitter.{Splitter, make_split_name, empty_split}
use union_csi.Union.Splits.{
  new_split, do_create_split, volume_splits_create, get_split, create_split,
}
use union_csi.Union.Splits.Create.{get_split-splits, get_split_absent}
use union_csi.Union.Splits.Keeps.{create_split-Grows}
use union_csi.Union.Splits.Origins.{create_missing_done}
use union_csi.Union.Lower.{
  lower_claim, get_claim_local, create_claim_of, create_lower_claim_from_split, create_lower_loop,
}

-- The world after the split of a new volume is read and posted.
abbrev pub split_posted : (K : Cluster) → Splitter → String → VolumeSplitSpec → K.World → K.World
split_posted K s v spec w =
    (do_create_split K s (make_split_name v) spec (get_split K (make_split_name v) w).1).1

-- The world after one claim of a split is created.
abbrev pub claim_made : (K : Cluster) → VolumeSplit → PersistentVolumeClaimSplit → K.World → K.World
claim_made K split c w = (K.create_claim split.spec.namespace (lower_claim split c) w).1

module _ (K : Cluster) (V : View K) (S : IsSplitStore K V) (D : IsClaimStore K V)
    (C : IsClassifier K) (H : IsHealthy K V) (G : IsWorking K V) where
  open V use {splits, claims}

  create_claim_step :
      (split : VolumeSplit) (c : PersistentVolumeClaimSplit) (w : K.World)
      → claims w split.spec.namespace c.claim_name ≡ false
      → create_lower_claim_from_split K split c w ≡ (
        ok (lower_claim split c, true),
        (K.create_claim split.spec.namespace (lower_claim split c) w).1,
      )
  unfolding create_lower_claim_from_split get_claim_local create_claim_of lower_claim
  create_claim_step split c w h =
      let (e, failed, missing) = G.lister_absent split.spec.namespace c.claim_name w h in
      ground
        (arith, failed, missing, G.create_absent split.spec.namespace (lower_claim split c) w h)

  do_create_split_absent :
      (s : Splitter) (n : String) (spec : VolumeSplitSpec) (w : K.World)
      → splits w n ≡ none
      → (do_create_split K s n spec w).0.1 ≡ none
  unfolding do_create_split volume_splits_create new_split
  do_create_split_absent s n spec w h = G.post_absent (new_split s n spec) empty_split w h

  splits-do_create_split :
      (s : Splitter) (n : String) (spec : VolumeSplitSpec) (w : K.World)
      → (do_create_split K s n spec w).0.1 ≡ none
      → (m : String)
      → splits (do_create_split K s n spec w).1 m
        ≡ (if m == n then some (new_split s n spec) else splits w m)
  unfolding do_create_split volume_splits_create new_split
  splits-do_create_split s n spec w h m = S.post_done (new_split s n spec) empty_split w m h

  module _ (s : Splitter) (v : String) (spec : VolumeSplitSpec) (w : K.World)
      (absent : splits w (make_split_name v) ≡ none)
      (no_twin : splits w (make_split_name (make_split_name v)) ≡ none) where
    posted :
        (do_create_split K s (make_split_name v) spec (get_split K (make_split_name v) w).1).0.1
        ≡ none
    posted =
        do_create_split_absent s (make_split_name v) spec _
          (rw (get_split-splits K V S (make_split_name v) w) absent)

    pub create_split_new :
        create_split K s v spec w
        ≡ (ok (new_split s (make_split_name v) spec), split_posted K s v spec w)
    unfolding create_split
    create_split_new =
        let (e, failed, missing, named) =
          get_split_absent K V S C H (make_split_name v) w no_twin in
        ground (
          arith,
          failed,
          missing,
          create_missing_done K V S s v spec (get_split K (make_split_name v) w).1 posted,
        )

    pub splits-create_split :
        (m : String)
        → splits (split_posted K s v spec w) m ≡ (
            if m == make_split_name v
            then some (new_split s (make_split_name v) spec)
            else splits w m)
    splits-create_split m = ground (
      arith,
      splits-do_create_split s (make_split_name v) spec _ posted m,
      ap (λ f. f m) (get_split-splits K V S (make_split_name v) w),
    )

    pub claims-create_split : claims (split_posted K s v spec w) ≡ claims w
    claims-create_split =
        rw (← (ap (λ r. r.1) create_split_new)) ((create_split-Grows K V S s v spec w).claims)

  module _ (split : VolumeSplit) (a b : PersistentVolumeClaimSplit) (w : K.World) where
    -- What the two creations change.
    pub record TwoMade (w' : K.World) : Type 0 where
      pub same_splits : splits w' ≡ splits w
      pub made_a : claims w' split.spec.namespace a.claim_name ≡ true
      pub made_b : claims w' split.spec.namespace b.claim_name ≡ true
      pub kept : (ms n : String) → claims w ms n ≡ true → claims w' ms n ≡ true
      pub only :
          (ms n : String)
          → claims w' ms n ≡ true
          → (claims w ms n ≡ true)
            ⊎ ((ms ≡ split.spec.namespace) × ((n ≡ a.claim_name) ⊎ (n ≡ b.claim_name)))

  -- Two claims that are not there are created one after the other.
  module _ (split : VolumeSplit) (a b : PersistentVolumeClaimSplit) (w : K.World)
      (differ : a.claim_name ≢ b.claim_name)
      (no_a : claims w split.spec.namespace a.claim_name ≡ false)
      (no_b : claims w split.spec.namespace b.claim_name ≡ false) where
    still_no_b : claims (claim_made K split a w) split.spec.namespace b.claim_name ≡ false
    unfolding lower_claim
    still_no_b =
        elim (Bool-cases (claims (claim_made K split a w) split.spec.namespace b.claim_name)) [
          | inr off ↦ off
          | inl on ↦
              elim (D.create_only split.spec.namespace (lower_claim split a) w split.spec.namespace
                b.claim_name on) [
                  | inl before ↦ absurd (ground arith)
                  | inr (_, same) ↦ absurd (differ (sym same))
                ]
        ]

    pub create_lower_loop_new :
        create_lower_loop K split (a ∷ b ∷ []) w
        ≡ (ok tt, (claim_made K split b (claim_made K split a w)))
    unfolding create_lower_loop
    create_lower_loop_new =
        rw (create_claim_step split a w no_a)
          (rw (create_claim_step split b (claim_made K split a w) still_no_b) refl)

    pub claim_made-TwoMade : TwoMade split a b w (claim_made K split b (claim_made K split a w))
    unfolding lower_claim
    claim_made-TwoMade = record {
      same_splits =
          D.create-splits split.spec.namespace (lower_claim split b) (claim_made K split a w)
          ∙ D.create-splits split.spec.namespace (lower_claim split a) w;
      made_a =
          D.create_keeps split.spec.namespace (lower_claim split b) (claim_made K split a w)
            split.spec.namespace a.claim_name
            (D.create_done split.spec.namespace (lower_claim split a) w
              (G.create_absent split.spec.namespace (lower_claim split a) w no_a));
      made_b = D.create_done split.spec.namespace (lower_claim split b) (claim_made K split a w) (
          G.create_absent split.spec.namespace (lower_claim split b) (claim_made K split a w)
            still_no_b);
      kept = λ ms n h.
          D.create_keeps split.spec.namespace (lower_claim split b) (claim_made K split a w) ms n
            (D.create_keeps split.spec.namespace (lower_claim split a) w ms n h);
      only = λ ms n h.
          elim (D.create_only split.spec.namespace (lower_claim split b) (claim_made K split a w) ms
            n h) [
              | inr (in_ns, is_b) ↦ inr (in_ns, inr is_b)
              | inl before ↦
                  elim (D.create_only split.spec.namespace (lower_claim split a) w ms n before) [
                    | inl old ↦ inl old
                    | inr (in_ns, is_a) ↦ inr (in_ns, inl is_a)
                  ]
            ];
    }
