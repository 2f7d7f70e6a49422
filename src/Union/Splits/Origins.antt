-- ===== src/Union/Splits/Origins.antt =====
-- Where a split that `CreateSplit` gives back comes from.
use union_csi.Base.{
  String, true, false, none, some, ◌≡◌, ◌≢◌, refl, sym, ◌∙◌, inl, inr, arith, ==_refl, string_eq,
  Bool-cases, Option-cases,
}
use union_csi.Failure.{Err, sentinel, idempotency_incompatible, ok, err}
use union_csi.Kube.{VolumeSplit, VolumeSplitSpec}
use union_csi.Kube.Cluster.{Cluster}
use union_csi.Kube.Cluster.Store.{View, IsSplitStore}
use union_csi.Union.Splitter.{Splitter, make_split_name, is_split_spec_compatible, empty_split}
use union_csi.Union.Splits.{
  new_split, if_compatible, volume_splits_get, volume_splits_create, get_split, do_create_split,
  get_again, create_missing, create_split,
}

module _ (K : Cluster) (V : View K) (S : IsSplitStore K V) where
  open V use {splits}

  -- Where a split that `CreateSplit` returns comes from: it was made and recorded, it was found
  -- recorded under the name with two suffixes, or it is the empty object that a failed read left.
  pub data Origin (s : Splitter) (v : String) (spec : VolumeSplitSpec) (split : VolumeSplit)
      (w : K.World) : Type 0 where
    made :
        split ≡ new_split s (make_split_name v) spec
        → splits w (make_split_name v) ≡ some split
        → Origin s v spec split w
    twin :
        splits w (make_split_name (make_split_name v)) ≡ some split
        → is_split_spec_compatible (some split.spec) (some spec) ≡ true
        → Origin s v spec split w
    unread :
        split ≡ empty_split
        → is_split_spec_compatible (some split.spec) (some spec) ≡ true
        → Origin s v spec split w

  if_compatible-eq-ok :
      (old split : VolumeSplit) (spec : VolumeSplitSpec)
      → if_compatible old spec ≡ ok split
      → (old ≡ split) × (is_split_spec_compatible (some split.spec) (some spec) ≡ true)
  unfolding if_compatible
  if_compatible-eq-ok old split spec h = ground arith

  get_split_found :
      (v : String) (w : K.World)
      → (get_split K v w).0.1 ≡ none
      → splits (get_split K v w).1 (make_split_name v) ≡ some (get_split K v w).0.0
  unfolding get_split volume_splits_get
  get_split_found v w h =
      rw (S.get-splits) (S.get_found (make_split_name v) empty_split w (ground arith))

  get_split_failed :
      (v : String) (w : K.World) {e : Err}
      → (get_split K v w).0.1 ≡ some e
      → (get_split K v w).0.0 ≡ empty_split
  unfolding get_split volume_splits_get
  get_split_failed v w h = elim (Option-cases (K.rest_get (make_split_name v) empty_split w).0.1) [
    | inl none_ ↦ ground arith
    | inr (e, failed) ↦ S.get_failed (make_split_name v) empty_split w failed
  ]

  pub do_create_split_done :
      (s : Splitter) (n : String) (spec : VolumeSplitSpec) (w : K.World)
      → (do_create_split K s n spec w).0.1 ≡ none
      → splits (do_create_split K s n spec w).1 n ≡ some (new_split s n spec)
  unfolding do_create_split volume_splits_create new_split
  do_create_split_done s n spec w h =
      ground (arith, S.post_done (new_split s n spec) empty_split w n h, ==_refl n)

  do_create_split_split :
      (s : Splitter) (n : String) (spec : VolumeSplitSpec) (w : K.World)
      → (do_create_split K s n spec w).0.0 ≡ new_split s n spec
  unfolding do_create_split
  do_create_split_split s n spec w = refl

  get_again-Origin :
      (s : Splitter) (v : String) (spec : VolumeSplitSpec) (w : K.World) {split : VolumeSplit}
      → (get_again K (make_split_name v) spec w).0 ≡ ok split
      → Origin s v spec split (get_again K (make_split_name v) spec w).1
  unfolding get_again
  get_again-Origin s v spec w {split} h =
      let n = make_split_name v in
      elim (Option-cases (get_split K n w).0.1) [
        | inl got ↦
            let (same, fits) =
              if_compatible-eq-ok (get_split K n w).0.0 split spec (ground (arith, got)) in
            twin (rw (got, get_again) (rw (← same) (get_split_found n w got))) fits
        | inr (e, failed) ↦ absurd (ground (arith, failed))
      ]

  module _ (s : Splitter) (v : String) (spec : VolumeSplitSpec) (w : K.World) where
    pub create_missing_done :
        (do_create_split K s (make_split_name v) spec w).0.1 ≡ none
        → create_missing K s (make_split_name v) spec w ≡ (
          ok (new_split s (make_split_name v) spec),
          (do_create_split K s (make_split_name v) spec w).1,
        )
    unfolding create_missing do_create_split
    create_missing_done h = ground arith

    pub create_missing_again :
        {e : Err}
        → (do_create_split K s (make_split_name v) spec w).0.1 ≡ some e
        → K.is_already_exists e ≡ true
        → create_missing K s (make_split_name v) spec w
          ≡ get_again K (make_split_name v) spec (do_create_split K s (make_split_name v) spec w).1
    unfolding create_missing
    create_missing_again h k = ground arith

    pub create_missing_failed :
        {e : Err}
        → (do_create_split K s (make_split_name v) spec w).0.1 ≡ some e
        → K.is_already_exists e ≡ false
        → (create_missing K s (make_split_name v) spec w).0 ≡ err e
    unfolding create_missing
    create_missing_failed h k = ground arith

    pub create_split_missing :
        {e : Err}
        → (get_split K (make_split_name v) w).0.1 ≡ some e
        → K.is_not_found e ≡ true
        → create_split K s v spec w
          ≡ create_missing K s (make_split_name v) spec (get_split K (make_split_name v) w).1
    unfolding create_split
    create_split_missing h k = ground arith

    pub create_split_present :
        (get_split K (make_split_name v) w).0.1 ≡ none
        → create_split K s v spec w ≡ (
          if_compatible (get_split K (make_split_name v) w).0.0 spec,
          (get_split K (make_split_name v) w).1,
        )
    unfolding create_split
    create_split_present h = ground arith

    pub create_split_unread :
        {e : Err}
        → (get_split K (make_split_name v) w).0.1 ≡ some e
        → K.is_not_found e ≡ false
        → create_split K s v spec w ≡ (
          if_compatible (get_split K (make_split_name v) w).0.0 spec,
          (get_split K (make_split_name v) w).1,
        )
    unfolding create_split
    create_split_unread h k = ground arith

  module _ (s : Splitter) (v : String) (spec : VolumeSplitSpec) {split : VolumeSplit} where
    create_missing-Origin :
        (w : K.World)
        → (create_missing K s (make_split_name v) spec w).0 ≡ ok split
        → Origin s v spec split (create_missing K s (make_split_name v) spec w).1
    create_missing-Origin w h =
        let n = make_split_name v in
        elim (Option-cases (do_create_split K s n spec w).0.1) [
          | inl posted ↦
              let step = create_missing_done s v spec w posted in
              let same : new_split s n spec ≡ split = ground (arith, step) in
              made (sym same) (rw step (rw (← same) (do_create_split_done s n spec w posted)))
          | inr (e, refused) ↦ elim (Bool-cases (K.is_already_exists e)) [
            | inl exists ↦
                let step = create_missing_again s v spec w refused exists in
                rw step (get_again-Origin s v spec _ (rw step at h))
            | inr other ↦ absurd (ground (arith, create_missing_failed s v spec w refused other))
          ]
        ]

    -- A split that `CreateSplit` returns has one of three origins.
    pub create_split-Origin :
        (w : K.World)
        → (create_split K s v spec w).0 ≡ ok split
        → Origin s v spec split (create_split K s v spec w).1
    create_split-Origin w h =
        let n = make_split_name v in
        elim (Option-cases (get_split K n w).0.1) [
          | inl got ↦
              let step = create_split_present s v spec w got in
              let (same, fits) =
                if_compatible-eq-ok (get_split K n w).0.0 split spec (ground (arith, step)) in
              twin (rw step (rw (← same) (get_split_found n w got))) fits
          | inr (e, failed) ↦ elim (Bool-cases (K.is_not_found e)) [
            | inl missing ↦
                let step = create_split_missing s v spec w failed missing in
                rw step (create_missing-Origin _ (rw step at h))
            | inr other ↦
                let step = create_split_unread s v spec w failed other in
                let (same, fits) =
                  if_compatible-eq-ok (get_split K n w).0.0 split spec (ground (arith, step)) in
                unread (sym same ∙ get_split_failed n w failed) fits
          ]
        ]

  -- A first read that fails with another error than "not found" is not reported. A request for
  -- a namespace is then refused as incompatible with a split that was never read.
  pub create_split_swallows :
      (s : Splitter) (v : String) (spec : VolumeSplitSpec) (w : K.World) {e : Err}
      → (get_split K (make_split_name v) w).0.1 ≡ some e
      → K.is_not_found e ≡ false
      → spec.namespace ≢ ""
      → (create_split K s v spec w).0 ≡ err (sentinel idempotency_incompatible)
  unfolding if_compatible is_split_spec_compatible
  create_split_swallows s v spec w failed other named = ground (
    arith,
    create_split_unread s v spec w failed other,
    get_split_failed (make_split_name v) w failed,
  )
