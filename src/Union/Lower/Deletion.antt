-- ===== src/Union/Lower/Deletion.antt =====
-- What `DeleteLower` removes, and in which order.
use union_csi.Base.{
  String, Bool, true, false, some, List, [], ◌∷◌, ◌≡◌, refl, ◌∙◌, inl, inr, arith, here, there,
  Bool-cases, Option-cases, string_eq,
}
use union_csi.Failure.{ok, after_world, after-eq-ok}
use union_csi.Kube.{VolumeSplit, PersistentVolumeClaimSplit}
use union_csi.Kube.Cluster.{Cluster}
use union_csi.Kube.Cluster.Store.{View, IsSplitStore, IsClaimStore}
use union_csi.Union.Splitter.{make_split_name, empty_split}
use union_csi.Union.Splits.{get_split, volume_splits_get}
use union_csi.Union.Lower.{delete_lower_claim_from_split, delete_lower_loop, find_split}
use union_csi.Union.Lower.Ownership.{HasName, IsOwned}

module _ (K : Cluster) (V : View K) where
  open V use {splits, claims}

  -- Deleting claims brings no claim into being and leaves the splits alone.
  pub record Shrinks (w w' : K.World) : Type 0 where
    pub same : splits w' ≡ splits w
    pub gone : (ns n : String) → claims w ns n ≡ false → claims w' ns n ≡ false

  Shrinks-refl : (w : K.World) → Shrinks w w
  Shrinks-refl w = record { same = refl; gone = λ ns n h. h }

  pub Shrinks-trans : {w w' w'' : K.World} → Shrinks w w' → Shrinks w' w'' → Shrinks w w''
  Shrinks-trans a b = record {
    same = b.same ∙ a.same;
    gone = λ ns n h. b.gone ns n (a.gone ns n h);
  }

  -- A claim that is still there was there before.
  pub Shrinks-stored :
      {w w' : K.World} (ns n : String) → Shrinks w w' → claims w' ns n ≡ true → claims w ns n ≡ true
  Shrinks-stored {w} {w'} ns n s h = elim (Bool-cases (claims w ns n)) [
    | inl there_ ↦ there_
    | inr absent ↦ absurd (ground (arith, s.gone ns n absent))
  ]

  pub Shrinks-IsOwned : {w w' : K.World} → Shrinks w w' → IsOwned K V w → IsOwned K V w'
  Shrinks-IsOwned {w} {w'} s owned ns n h =
      let (m, split, recorded, listed) = owned ns n (Shrinks-stored ns n s h) in
      (m, split, rw (s.same) recorded, listed)

  module _ (S : IsSplitStore K V) (D : IsClaimStore K V) where
    pub delete_lower_claim_world :
        (split : VolumeSplit) (c : PersistentVolumeClaimSplit) (w : K.World)
        → (delete_lower_claim_from_split K split c w).1
          ≡ (K.delete_claim split.spec.namespace c.claim_name w).1
    unfolding delete_lower_claim_from_split
    delete_lower_claim_world split c w = ground arith

    delete_lower_claim-Shrinks :
        (split : VolumeSplit) (c : PersistentVolumeClaimSplit) (w : K.World)
        → Shrinks w (delete_lower_claim_from_split K split c w).1
    delete_lower_claim-Shrinks split c w = rw (delete_lower_claim_world split c w) (record {
      same = D.delete-splits split.spec.namespace c.claim_name w;
      gone = D.delete_only split.spec.namespace c.claim_name w;
    })

    delete_lower_claim_done :
        (split : VolumeSplit) (c : PersistentVolumeClaimSplit) (w : K.World) {b : Bool}
        → (delete_lower_claim_from_split K split c w).0 ≡ ok b
        → claims (delete_lower_claim_from_split K split c w).1 split.spec.namespace c.claim_name
          ≡ false
    unfolding delete_lower_claim_from_split
    delete_lower_claim_done split c w h =
        let ns = split.spec.namespace in
        let n = c.claim_name in
        elim (Option-cases (K.delete_claim ns n w).0) [
          | inl e ↦ ground (arith, D.delete_done ns n w e)
          | inr (x, e) ↦ ground (arith, e, D.delete_missing ns n w e)
        ]

    pub delete_lower_loop-Shrinks :
        (split : VolumeSplit) (cs : List PersistentVolumeClaimSplit) (w : K.World)
        → Shrinks w (delete_lower_loop K split cs w).1
    unfolding delete_lower_loop
    delete_lower_loop-Shrinks split [] w = Shrinks-refl w
    delete_lower_loop-Shrinks split (c ∷ cs) w =
        let one = delete_lower_claim-Shrinks split c w in
        after_world (Shrinks w) (delete_lower_claim_from_split K split c w).0 _ _ one
          λ _ _. Shrinks-trans one (delete_lower_loop-Shrinks split cs _)

    -- Where the loop succeeds, every claim that it went through is gone.
    pub delete_lower_loop_done :
        (split : VolumeSplit) (cs : List PersistentVolumeClaimSplit) (w : K.World) {u : Unit {0}}
        → (delete_lower_loop K split cs w).0 ≡ ok u
        → (n : String) → HasName n cs
        → claims (delete_lower_loop K split cs w).1 split.spec.namespace n ≡ false
    unfolding delete_lower_loop
    delete_lower_loop_done split [] w h n listed = elim listed [ ]
    delete_lower_loop_done split (c ∷ cs) w h n (here p) =
        let (b, first, rest, same) =
          after-eq-ok (delete_lower_claim_from_split K split c w).0
            (λ _. delete_lower_loop K split cs) _ h in
        rw same (
          (delete_lower_loop-Shrinks split cs _).gone split.spec.namespace n
            (rw (← p) (delete_lower_claim_done split c w first)))
    delete_lower_loop_done split (c ∷ cs) w h n (there q) =
        let (b, first, rest, same) =
          after-eq-ok (delete_lower_claim_from_split K split c w).0
            (λ _. delete_lower_loop K split cs) _ h in
        rw same (delete_lower_loop_done split cs _ rest n q)

    find_split_world :
        (v : String) (w : K.World)
        → (find_split K v w).1 ≡ (K.rest_get (make_split_name v) empty_split w).1
    unfolding find_split get_split volume_splits_get
    find_split_world v w = ground arith

    pub find_split-Shrinks : (v : String) (w : K.World) → Shrinks w (find_split K v w).1
    find_split-Shrinks v w = rw (find_split_world v w) (record {
      same = S.get-splits (make_split_name v) empty_split w;
      gone = λ ns n h. rw (S.get-claims (make_split_name v) empty_split w) h;
    })

    pub find_split_recorded :
        (v : String) (w : K.World) {split : VolumeSplit}
        → (find_split K v w).0 ≡ ok split
        → splits w (make_split_name v) ≡ some split
    unfolding find_split get_split volume_splits_get
    find_split_recorded v w h =
        let got = K.rest_get (make_split_name v) empty_split w in
        elim (Option-cases got.0.1) [
          | inl e ↦ ground (arith, e, S.get_found (make_split_name v) empty_split w e)
          | inr (x, e) ↦ absurd (ground (arith, e))
        ]
