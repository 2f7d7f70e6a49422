-- ===== src/Union/Splits/Create.antt =====
-- What `CreateSplit` answers to a request that is sent again.
use union_csi.Base.{String, true, none, some, ◌≡◌, refl, ◌∙◌, arith, string_eq}
use union_csi.Failure.{Err, sentinel, wrap_both, volume_not_found, is, err}
use union_csi.Kube.{VolumeSplit, VolumeSplitSpec}
use union_csi.Kube.Cluster.{Cluster}
use union_csi.Kube.Cluster.Laws.{IsClassifier}
use union_csi.Kube.Cluster.Store.{View, IsSplitStore, IsHealthy}
use union_csi.Union.Splitter.{Splitter, make_split_name, empty_split}
use union_csi.Union.Splits.{
  new_split, volume_splits_get, volume_splits_create, get_split, do_create_split, get_again,
  create_missing, create_split,
}

module _ (K : Cluster) (V : View K) (S : IsSplitStore K V) where
  open V use {splits}

  pub get_split-splits : (v : String) (w : K.World) → splits (get_split K v w).1 ≡ splits w
  unfolding get_split volume_splits_get
  get_split-splits v w = S.get-splits (make_split_name v) empty_split w

  module _ (C : IsClassifier K) (H : IsHealthy K V) where
    -- A missing split is reported by an error that is both the driver's and the API's.
    pub get_split_absent :
        (v : String) (w : K.World)
        → splits w (make_split_name v) ≡ none
        → (e : Err) × ((get_split K v w).0.1 ≡ some e)
          × (K.is_not_found e ≡ true)
          × (is e volume_not_found ≡ true)
    unfolding get_split volume_splits_get is
    get_split_absent v w h =
        let (e, failed, missing) = H.get_absent (make_split_name v) empty_split w h in
        (
          wrap_both (sentinel volume_not_found) e,
          rw failed (rw missing),
          ground (arith, missing, C.not_found-wrap_both (sentinel volume_not_found) e),
          refl,
        )

    -- A post under a taken name is refused, and changes nothing.
    do_create_split_present :
        (s : Splitter) (n : String) (spec : VolumeSplitSpec) (w : K.World) {old : VolumeSplit}
        → splits w n ≡ some old
        → (e : Err) × ((do_create_split K s n spec w).0.1 ≡ some e)
          × (K.is_already_exists e ≡ true)
          × (splits (do_create_split K s n spec w).1 ≡ splits w)
    unfolding do_create_split volume_splits_create new_split
    do_create_split_present s n spec w h =
        let (e, refused, exists) = H.post_present (new_split s n spec) empty_split w h in
        (e, refused, exists, S.post_refused (new_split s n spec) empty_split w refused exists)

    create_missing_present :
        (s : Splitter) (v : String) (spec : VolumeSplitSpec) (w : K.World) {old : VolumeSplit}
        → splits w (make_split_name v) ≡ some old
        → splits w (make_split_name (make_split_name v)) ≡ none
        → (e : Err) × ((create_missing K s (make_split_name v) spec w).0 ≡ err e)
          × (is e volume_not_found ≡ true)
    unfolding create_missing get_again
    create_missing_present s v spec w recorded no_twin =
        let n = make_split_name v in
        let (e, refused, exists, same) = do_create_split_present s n spec w recorded in
        let (e', failed, missing, named) =
          get_split_absent n (do_create_split K s n spec w).1 (rw same no_twin) in
        (e', ground (arith, refused, exists, failed), named)

    -- `CreateSplit` looks the split up under a name that carries the suffix twice. So where the
    -- volume has its split already, and no volume is named like that split, the request is refused
    -- with "volume not found", also if it asks for what is recorded.
    pub create_split_again :
        (s : Splitter) (v : String) (spec : VolumeSplitSpec) (w : K.World) {old : VolumeSplit}
        → splits w (make_split_name v) ≡ some old
        → splits w (make_split_name (make_split_name v)) ≡ none
        → (e : Err) × ((create_split K s v spec w).0 ≡ err e) × (is e volume_not_found ≡ true)
    unfolding create_split create_missing get_again
    create_split_again s v spec w {old} recorded no_twin =
        let n = make_split_name v in
        let (e, failed, missing, named) = get_split_absent n w no_twin in
        let same = get_split-splits n w in
        let (e', ends, named') =
          create_missing_present s v spec (get_split K n w).1 {old = old} (rw same recorded)
            (rw same no_twin) in
        (e', ground (arith, failed, missing, ends), named')

    create_missing_present-splits :
        (s : Splitter) (v : String) (spec : VolumeSplitSpec) (w : K.World) {old : VolumeSplit}
        → splits w (make_split_name v) ≡ some old
        → splits w (make_split_name (make_split_name v)) ≡ none
        → splits (create_missing K s (make_split_name v) spec w).1 ≡ splits w
    unfolding create_missing get_again
    create_missing_present-splits s v spec w recorded no_twin =
        let n = make_split_name v in
        let (e, refused, exists, same) = do_create_split_present s n spec w recorded in
        let (e', failed, missing, named) =
          get_split_absent n (do_create_split K s n spec w).1 (rw same no_twin) in
        let again = get_split-splits n (do_create_split K s n spec w).1 in
        let ends : (create_missing K s n spec w).1
            ≡ (get_split K n (do_create_split K s n spec w).1).1 =
          ground (arith, refused, exists, failed) in
        rw ends (again ∙ same)

    -- The refused request leaves the recorded splits as they are.
    pub create_split_again-splits :
        (s : Splitter) (v : String) (spec : VolumeSplitSpec) (w : K.World) {old : VolumeSplit}
        → splits w (make_split_name v) ≡ some old
        → splits w (make_split_name (make_split_name v)) ≡ none
        → splits (create_split K s v spec w).1 ≡ splits w
    unfolding create_split
    create_split_again-splits s v spec w {old} recorded no_twin =
        let n = make_split_name v in
        let (e, failed, missing, named) = get_split_absent n w no_twin in
        let same = get_split-splits n w in
        let ends : (create_split K s v spec w).1
            ≡ (create_missing K s n spec (get_split K n w).1).1 =
          ground (arith, failed, missing) in
        rw ends (
          create_missing_present-splits s v spec (get_split K n w).1 {old = old} (rw same recorded)
            (rw same no_twin)
          ∙ same)
