-- ===== src/Union/Splits/Keeps.antt =====
-- The splitter's requests never lose a recorded split, and leave the claims alone.
use union_csi.Base.{String, some, ◌≡◌, ◌∙◌, ◌⊎◌, inl, inr, arith}
use union_csi.Kube.{VolumeSplit, VolumeSplitSpec}
use union_csi.Kube.Cluster.{Cluster}
use union_csi.Kube.Cluster.Store.{View, IsSplitStore}
use union_csi.Union.Splitter.{Splitter, make_split_name, empty_split}
use union_csi.Union.Splits.{
  new_split, volume_splits_get, volume_splits_create, get_split, do_create_split, get_again,
  create_missing, create_split,
}

module _ (K : Cluster) (V : View K) where
  pub record Grows (w w' : K.World) : Type 0 where
    pub claims : V.claims w' ≡ V.claims w
    pub splits : (n : String) {t : VolumeSplit} → V.splits w n ≡ some t → V.splits w' n ≡ some t

  Grows-trans : {w w' w'' : K.World} → Grows w w' → Grows w' w'' → Grows w w''
  Grows-trans g h = record {
    claims = h.claims ∙ g.claims;
    splits = λ n {t} e. h.splits n (g.splits n e);
  }

  module _ (S : IsSplitStore K V) where
    get_split-Grows : (v : String) (w : K.World) → Grows w (get_split K v w).1
    unfolding get_split volume_splits_get
    get_split-Grows v w = record {
      claims = S.get-claims (make_split_name v) empty_split w;
      splits = λ n {t} e. rw (S.get-splits (make_split_name v) empty_split w) e;
    }

    do_create_split-Grows :
        (s : Splitter) (n : String) (spec : VolumeSplitSpec) (w : K.World)
        → Grows w (do_create_split K s n spec w).1
    unfolding do_create_split volume_splits_create
    do_create_split-Grows s n spec w = record {
      claims = S.post-claims (new_split s n spec) empty_split w;
      splits = λ m {t} e. S.post_keeps (new_split s n spec) empty_split w m e;
    }

    create_missing_world :
        (s : Splitter) (n : String) (spec : VolumeSplitSpec) (w : K.World)
        → let posted = (do_create_split K s n spec w).1 in
          let end = (create_missing K s n spec w).1 in
          (end ≡ posted) ⊎ (end ≡ (get_split K n posted).1)
    unfolding create_missing get_again
    create_missing_world s n spec w = ground arith

    create_missing-Grows :
        (s : Splitter) (n : String) (spec : VolumeSplitSpec) (w : K.World)
        → Grows w (create_missing K s n spec w).1
    create_missing-Grows s n spec w =
        let posted = do_create_split-Grows s n spec w in
        elim (create_missing_world s n spec w) [
          | inl e ↦ rw e posted
          | inr e ↦ rw e (Grows-trans posted (get_split-Grows n _))
        ]

    create_split_world :
        (s : Splitter) (v : String) (spec : VolumeSplitSpec) (w : K.World)
        → let n = make_split_name v in
          let read = (get_split K n w).1 in
          let end = (create_split K s v spec w).1 in
          (end ≡ read) ⊎ (end ≡ (create_missing K s n spec read).1)
    unfolding create_split
    create_split_world s v spec w = ground arith

    -- `CreateSplit` keeps every recorded split, on every branch.
    pub create_split-Grows :
        (s : Splitter) (v : String) (spec : VolumeSplitSpec) (w : K.World)
        → Grows w (create_split K s v spec w).1
    create_split-Grows s v spec w =
        let read = get_split-Grows (make_split_name v) w in
        elim (create_split_world s v spec w) [
          | inl e ↦ rw e read
          | inr e ↦ rw e (Grows-trans read (create_missing-Grows s _ spec _))
        ]
