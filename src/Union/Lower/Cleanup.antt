-- ===== src/Union/Lower/Cleanup.antt =====
-- `DeleteLower` as a whole: what is gone when it succeeds, and that it loses nothing when it fails.
use union_csi.Base.{
  String, true, false, Option, none, some, ◌≡◌, ap, subst, ◌∙◌, inl, inr, arith, Bool-cases, ◌==◌,
  ==_iff, string_eq,
}
use union_csi.Failure.{Err, ok, after_world, after-eq-ok, check, call, ◌>>◌}
use union_csi.Kube.{VolumeSplit}
use union_csi.Kube.Cluster.{Cluster}
use union_csi.Kube.Cluster.Store.{View, IsSplitStore, IsClaimStore}
use union_csi.Union.Splitter.{make_split_name}
use union_csi.Union.Splits.{delete_split, volume_splits_delete}
use union_csi.Union.Lower.{delete_lower_from_split, find_split, delete_lower}
use union_csi.Union.Lower.Ownership.{HasName, Lists, IsOwned}
use union_csi.Union.Lower.Deletion.{
  Shrinks, Shrinks-trans, Shrinks-IsOwned, Shrinks-stored, delete_lower_loop-Shrinks,
  delete_lower_loop_done, find_split-Shrinks, find_split_recorded,
}

check-eq-ok : (o : Option Err) {u : Unit {0}} → check o ≡ ok u → o ≡ none
check-eq-ok o h = ground arith

module _ (K : Cluster) (V : View K) (S : IsSplitStore K V) (D : IsClaimStore K V) where
  open V use {splits, claims}

  delete_split_done :
      (v : String) (w : K.World)
      → (delete_split K v w).0 ≡ none
      → splits (delete_split K v w).1 (make_split_name v) ≡ none
  unfolding delete_split volume_splits_delete
  delete_split_done v w h = S.delete_done (make_split_name v) w (ground arith)

  delete_split_other :
      (v m : String) (w : K.World)
      → (m == make_split_name v) ≡ false
      → splits (delete_split K v w).1 m ≡ splits w m
  unfolding delete_split volume_splits_delete
  delete_split_other v m w h = S.delete-splits_other (make_split_name v) m w h

  pub claims-delete_split : (v : String) (w : K.World) → claims (delete_split K v w).1 ≡ claims w
  unfolding delete_split volume_splits_delete
  claims-delete_split v w = S.delete-claims (make_split_name v) w

  -- All that a split lists is gone.
  abbrev ClaimsGone : VolumeSplit → K.World → Type 0
  ClaimsGone split w =
      (n : String) → HasName n split.spec.splits → claims w split.spec.namespace n ≡ false

  -- The deletion of the claims of a split, from the state in which the split was found.
  delete_claims_done :
      (split : VolumeSplit) (w : K.World) {u : Unit {0}}
      → (delete_lower_from_split K split w).0 ≡ ok u
      → ClaimsGone split (delete_lower_from_split K split w).1
  unfolding delete_lower_from_split
  delete_claims_done split w h n listed =
      delete_lower_loop_done K V S D split split.spec.splits w h n listed

  pub delete_claims-Shrinks :
      (split : VolumeSplit) (w : K.World) → Shrinks K V w (delete_lower_from_split K split w).1
  unfolding delete_lower_from_split
  delete_claims-Shrinks split w = delete_lower_loop-Shrinks K V S D split split.spec.splits w

  -- What `DeleteLower` leaves in the world, when it began with this split.
  pub record Deleted (v : String) (split : VolumeSplit) (w w' : K.World) : Type 0 where
    pub split_gone : splits w' (make_split_name v) ≡ none
    pub claims_gone :
        (n : String) → HasName n split.spec.splits → claims w' split.spec.namespace n ≡ false
    pub others_kept : (m : String) → (m == make_split_name v) ≡ false → splits w' m ≡ splits w m

  -- When `DeleteLower` succeeds, the volume had a recorded split. That split is gone, and so is
  -- every claim that it listed. All other splits are kept.
  pub delete_lower_done :
      (v : String) (w : K.World) {u : Unit {0}}
      → (delete_lower K v w).0 ≡ ok u
      → (split : VolumeSplit) × (splits w (make_split_name v) ≡ some split)
        × Deleted v split w (delete_lower K v w).1
  unfolding delete_lower
  delete_lower_done v w h =
      let (split, found, rest, same) =
        after-eq-ok (find_split K v w).0
          (λ split. delete_lower_from_split K split >> call (delete_split K v)) _ h in
      let w1 = (find_split K v w).1 in
      let (u, looped, last, same') =
        after-eq-ok (delete_lower_from_split K split w1).0 (λ _. call (delete_split K v)) _ rest in
      let w2 = (delete_lower_from_split K split w1).1 in
      let shrunk =
        Shrinks-trans K V (find_split-Shrinks K V S D v w) (delete_claims-Shrinks split w1) in
      (
        split,
        find_split_recorded K V S D v w found,
        rw (same, same')
            (record {
              split_gone = delete_split_done v w2 (check-eq-ok _ last);
              claims_gone = λ n listed.
                  rw (claims-delete_split v w2) (delete_claims_done split w1 looped n listed);
              others_kept = λ m other. delete_split_other v m w2 other ∙ ap (λ f. f m) shrunk.same;
            }),
      )

  -- The record of a split goes last, when the claims that it lists are gone.
  delete_split-IsOwned :
      (v : String) (split : VolumeSplit) (w w' : K.World)
      → splits w (make_split_name v) ≡ some split
      → Shrinks K V w w'
      → ClaimsGone split w'
      → IsOwned K V w
      → IsOwned K V (delete_split K v w').1
  delete_split-IsOwned v split w w' recorded shrunk gone owned ns n stored =
      let kept : claims w' ns n ≡ true = rw (← claims-delete_split v w') stored in
      let (m, split', recorded', listed) = owned ns n (Shrinks-stored K V ns n shrunk kept) in
      elim (Bool-cases (m == make_split_name v)) [
        | inl same ↦
            let e = (==_iff m (make_split_name v)).0 same in
            let e' : split' ≡ split =
              ground (arith, recorded, subst (λ k. splits w k ≡ some split') e recorded') in
            let listed' = subst (λ t. Lists t ns n) e' listed in
            absurd (
              ground (arith, kept, subst (λ k. claims w' k n ≡ false) listed'.0 (gone n listed'.1)))
        | inr other ↦ (
          m,
          split',
          delete_split_other v m w' other ∙ ap (λ f. f m) shrunk.same ∙ recorded',
          listed,
        )
      ]

  -- Whatever the API answers, and wherever `DeleteLower` stops, every claim that is left is listed
  -- in a recorded split if that was so before.
  pub delete_lower-IsOwned :
      (v : String) (w : K.World) → IsOwned K V w → IsOwned K V (delete_lower K v w).1
  unfolding delete_lower
  delete_lower-IsOwned v w owned =
      let looked = find_split-Shrinks K V S D v w in
      after_world (IsOwned K V) (find_split K v w).0 _ _ (Shrinks-IsOwned K V looked owned)
        λ split found.
          let shrunk =
            Shrinks-trans K V looked (delete_claims-Shrinks split (find_split K v w).1) in
          after_world (IsOwned K V) (delete_lower_from_split K split (find_split K v w).1).0 _ _
            (Shrinks-IsOwned K V shrunk owned)
            λ u looped.
              delete_split-IsOwned v split w _ (find_split_recorded K V S D v w found) shrunk
                (delete_claims_done split _ looped) owned
