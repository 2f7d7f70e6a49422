-- ===== src/Union/Lower/Exact.antt =====
-- `DeleteLower` removes no claim but those that the volume's split lists.
use union_csi.Base.{
  String, Bool, true, false, ◌&&◌, ◌||◌, some, List, [], ◌∷◌, ◌≡◌, sym, ap, ◌∙◌, arith, inl, inr,
  ◌==◌, string_eq, Bool-cases,
}
use union_csi.Failure.{after_world}
use union_csi.Kube.{VolumeSplit, PersistentVolumeClaimSplit}
use union_csi.Kube.Cluster.{Cluster}
use union_csi.Kube.Cluster.Store.{View, IsSplitStore, IsClaimStore}
use union_csi.Union.Splitter.{make_split_name, empty_split}
use union_csi.Union.Splits.{get_split, volume_splits_get}
use union_csi.Union.Lower.{
  delete_lower_claim_from_split, delete_lower_loop, delete_lower_from_split, find_split,
  delete_lower,
}
use union_csi.Union.Lower.Deletion.{find_split_recorded, delete_lower_claim_world}
use union_csi.Union.Lower.Cleanup.{claims-delete_split, delete_claims-Shrinks}

-- Whether a claim is one of these of a namespace.
abbrev pub lists_claim : String → List PersistentVolumeClaimSplit → String → String → Bool
lists_claim ns [] ms m = false
lists_claim ns (c ∷ cs) ms m = (ms == ns && m == c.claim_name) || lists_claim ns cs ms m

module _ (K : Cluster) (V : View K) (S : IsSplitStore K V) (D : IsClaimStore K V) where
  open V use {splits, claims}

  delete_loop_keeps :
      (split : VolumeSplit) (cs : List PersistentVolumeClaimSplit) (w : K.World) (ms m : String)
      → lists_claim split.spec.namespace cs ms m ≡ false
      → claims w ms m ≡ true
      → claims (delete_lower_loop K split cs w).1 ms m ≡ true
  unfolding delete_lower_loop
  delete_loop_keeps split [] w ms m other h = h
  delete_loop_keeps split (c ∷ cs) w ms m other h =
      let one : claims (delete_lower_claim_from_split K split c w).1 ms m ≡ true =
        rw (delete_lower_claim_world K V S D split c w)
          (D.delete_other split.spec.namespace c.claim_name w ms m (ground arith) h) in
      after_world (λ w'. claims w' ms m ≡ true) (delete_lower_claim_from_split K split c w).0 _ _
        one λ b _. delete_loop_keeps split cs _ ms m (ground arith) one

  delete_loop_exact :
      (split : VolumeSplit) (w : K.World) (ms m : String)
      → lists_claim split.spec.namespace split.spec.splits ms m ≡ false
      → claims (delete_lower_from_split K split w).1 ms m ≡ claims w ms m
  unfolding delete_lower_from_split
  delete_loop_exact split w ms m other = elim (Bool-cases (claims w ms m)) [
    | inl there ↦ delete_loop_keeps split split.spec.splits w ms m other there ∙ sym there
    | inr gone ↦ (delete_claims-Shrinks K V S D split w).gone ms m gone ∙ sym gone
  ]

  claims-find_split : (v : String) (w : K.World) → claims (find_split K v w).1 ≡ claims w
  unfolding find_split get_split volume_splits_get
  claims-find_split v w = ground (arith, S.get-claims (make_split_name v) empty_split w)

  -- Whatever the API answers, and wherever `DeleteLower` stops, it creates no claim, and it removes
  -- none that the recorded split of its volume does not list.
  pub delete_lower_exact :
      (v : String) (w : K.World) {split : VolumeSplit}
      → splits w (make_split_name v) ≡ some split
      → (ms m : String) → lists_claim split.spec.namespace split.spec.splits ms m ≡ false
      → claims (delete_lower K v w).1 ms m ≡ claims w ms m
  unfolding delete_lower
  delete_lower_exact v w {split} recorded ms m other =
      let same = λ (w' : K.World). claims w' ms m ≡ claims w ms m in
      let looked = ap (λ f. f ms m) (claims-find_split v w) in
      after_world same (find_split K v w).0 _ _ looked λ split' found.
        let is_it : split' ≡ split =
          ground (arith, recorded, find_split_recorded K V S D v w found) in
        let w1 = (find_split K v w).1 in
        let looped = delete_loop_exact split' w1 ms m (rw is_it other) ∙ looked in
        after_world same (delete_lower_from_split K split' w1).0 _ _ looped
          λ u _. ap (λ f. f ms m) (claims-delete_split K V S D v _) ∙ looped
