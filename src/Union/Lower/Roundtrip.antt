-- ===== src/Union/Lower/Roundtrip.antt =====
-- A new volume that is created and deleted again leaves the cluster as it was.
use union_csi.Base.{
  String, Bool, true, false, some, List, [], ◌∷◌, ◌≡◌, refl, sym, ◌∙◌, arith, inl, inr, ◌==◌,
  string_eq, Bool-cases, here, there, ==_refl, ==_iff,
}
use union_csi.Failure.{ok}
use union_csi.Kube.{AccessMode, VolumeSplit}
use union_csi.Kube.Cluster.{Cluster}
use union_csi.Kube.Cluster.Laws.{IsClassifier}
use union_csi.Kube.Cluster.Store.{View, IsSplitStore, IsClaimStore, IsHealthy}
use union_csi.Kube.Cluster.Working.{IsWorking}
use union_csi.Union.{CreateLowerOptions}
use union_csi.Union.AccessModes.{get_access_modes}
use union_csi.Union.Splitter.{Splitter, make_split_name, make_claim_name}
use union_csi.Union.Splits.{new_split}
use union_csi.Union.Lower.Creation.{volume_of}
use union_csi.Union.Lower.{split_spec_of, create_lower, delete_lower}
use union_csi.Union.Lower.Cleanup.{Deleted, delete_lower_done}
use union_csi.Union.Lower.Exact.{lists_claim, delete_lower_exact}
use union_csi.Union.Lower.Liveness.{
  split_of, part_of, IsNew, IsMade, create_lower_new, delete_lower_succeeds,
}

module _ (K : Cluster) (V : View K) (S : IsSplitStore K V) (D : IsClaimStore K V)
    (C : IsClassifier K) (H : IsHealthy K V) (G : IsWorking K V) where
  open V use {splits, claims}

  module _ (s : Splitter) (v : String) (o : CreateLowerOptions) (w : K.World)
      (modes : List AccessMode) (known : get_access_modes o.csi_access_modes ≡ ok modes)
      (new : IsNew K V S D C H G s v o w) where
    abbrev pub split : VolumeSplit
    split = split_of s v o modes

    abbrev pub created : K.World
    created = (create_lower K s v o w).1

    abbrev pub removed : K.World
    removed = (delete_lower K v created).1

    made : IsMade K V S D C H G s v o w split created
    made = (create_lower_new K V S D C H G s v o w modes known new).1

    recorded : splits created (make_split_name v) ≡ some split
    recorded = ground (arith, made.recorded (make_split_name v), ==_refl (make_split_name v))

    succeeds : (delete_lower K v created).0 ≡ ok tt
    succeeds = delete_lower_succeeds K V S D C H G v created recorded

    gone : Deleted K V S D v split created removed
    gone =
        let (split', recorded', gone') = delete_lower_done K V S D v created succeeds in
        let is_it : split' ≡ split = ground (arith, recorded, recorded') in rw (← is_it) gone'

    same_splits : (m : String) → splits removed m ≡ splits w m
    same_splits m = elim (Bool-cases (m == make_split_name v)) [
      | inl same ↦ rw ((==_iff m (make_split_name v)).0 same) (gone.split_gone ∙ sym new.no_split)
      | inr other ↦ gone.others_kept m other ∙ ground (arith, made.recorded m, other)
    ]

    abbrev listed : String → String → Bool
    listed ns n =
        lists_claim o.lower_namespace (part_of s v o modes 0 ∷ part_of s v o modes 1 ∷ []) ns n

    claims-created : (ns n : String) → listed ns n ≡ false → claims created ns n ≡ claims w ns n
    unfolding split_spec_of
    claims-created ns n other = elim (Bool-cases (claims w ns n)) [
      | inl on ↦ made.kept ns n on ∙ sym on
      | inr off ↦ elim (Bool-cases (claims created ns n)) [
        | inr still_off ↦ still_off ∙ sym off
        | inl on ↦ elim (made.only ns n on) [
          | inl before ↦ absurd (ground arith)
          | inr (in_ns, inl is_first) ↦ absurd (ground (arith, other, in_ns, is_first))
          | inr (in_ns, inr is_second) ↦ absurd (ground (arith, other, in_ns, is_second))
        ]
      ]
    ]

    claims-removed : (ns n : String) → listed ns n ≡ true → claims removed ns n ≡ claims w ns n
    unfolding new_split split_spec_of
    claims-removed ns n on = elim (Bool-cases (n == make_claim_name s v 0)) [
      | inl first ↦
          let e : ns ≡ o.lower_namespace = ground arith in
          let e' = (==_iff n (make_claim_name s v 0)).0 first in
          rw (e, e') (gone.claims_gone (make_claim_name s v 0) (here refl) ∙ sym new.no_first)
      | inr not_first ↦
          let e : ns ≡ o.lower_namespace = ground arith in
          let e' : n ≡ make_claim_name s v 1 = ground arith in
          rw (e, e')
            (gone.claims_gone (make_claim_name s v 1) (there (here refl)) ∙ sym new.no_second)
    ]

    same_claims : (ns n : String) → claims removed ns n ≡ claims w ns n
    unfolding new_split split_spec_of
    same_claims ns n = elim (Bool-cases (listed ns n)) [
      | inl on ↦ claims-removed ns n on
      | inr other ↦
          delete_lower_exact K V S D v created recorded ns n other ∙ claims-created ns n other
    ]

    -- On a cluster that works, `CreateLower` of a volume that is new, with access modes that are
    -- supported, and then `DeleteLower` of it both succeed, and the recorded splits and the claims
    -- are what they were before.
    pub delete_lower-create_lower :
        ((create_lower K s v o w).0 ≡ ok (volume_of split))
        × ((delete_lower K v created).0 ≡ ok tt)
        × ((m : String) → splits removed m ≡ splits w m)
        × ((ns n : String) → claims removed ns n ≡ claims w ns n)
    delete_lower-create_lower = (
      (create_lower_new K V S D C H G s v o w modes known new).0,
      succeeds,
      same_splits,
      same_claims,
    )
