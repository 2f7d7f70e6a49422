-- ===== src/Csi/Controller/Deletion.antt =====
-- `DeleteVolume` can be repeated.
use union_csi.Base.{String, true, none, ◌≡◌, ◌≢◌, refl, ◌∙◌, arith, string_eq}
use union_csi.Csi.{DeleteVolumeRequest}
use union_csi.Csi.Status.{replied}
use union_csi.Csi.Validation.{validate_delete_volume_request}
use union_csi.Csi.Validators.{delete_volume_request_validate}
use union_csi.Csi.Controller.{delete_reply, delete_volume}
use union_csi.Failure.{Err, volume_not_found, is, ok, err}
use union_csi.Kube.Cluster.{Cluster}
use union_csi.Kube.Cluster.Laws.{IsClassifier}
use union_csi.Kube.Cluster.Store.{View, IsSplitStore, IsClaimStore, IsHealthy}
use union_csi.Union.Splitter.{make_split_name, empty_split}
use union_csi.Union.Splits.{get_split, volume_splits_get}
use union_csi.Union.Splits.Create.{get_split_absent}
use union_csi.Union.Lower.{find_split, delete_lower}
use union_csi.Union.Lower.Cleanup.{delete_lower_done}

module _ (K : Cluster) (V : View K) (S : IsSplitStore K V) (D : IsClaimStore K V)
    (C : IsClassifier K) (H : IsHealthy K V) where
  pub delete_lower_absent :
      (v : String) (w : K.World)
      → V.splits w (make_split_name v) ≡ none
      → (e : Err) × ((delete_lower K v w).0 ≡ err e) × (is e volume_not_found ≡ true)
  unfolding delete_lower find_split
  delete_lower_absent v w h =
      let (e, failed, missing, named) = get_split_absent K V S C H v w h in
      (e, ground (arith, failed), named)

  -- Such a request only reads.
  pub delete_lower_absent_world :
      (v : String) (w : K.World)
      → V.splits w (make_split_name v) ≡ none
      → (V.splits (delete_lower K v w).1 ≡ V.splits w)
        × (V.claims (delete_lower K v w).1 ≡ V.claims w)
  unfolding delete_lower find_split get_split volume_splits_get
  delete_lower_absent_world v w h =
      let (e, failed, missing, named) = get_split_absent K V S C H v w h in
      (
        ground (arith, failed, S.get-splits (make_split_name v) empty_split w),
        ground (arith, failed, S.get-claims (make_split_name v) empty_split w),
      )

  -- A request that names a volume passes the validation.
  pub delete_volume_of :
      (req : DeleteVolumeRequest) (w : K.World)
      → req.volume_id ≢ ""
      → (delete_volume K req w)
        ≡ (delete_reply (delete_lower K req.volume_id w).0, (delete_lower K req.volume_id w).1)
  unfolding delete_volume delete_volume_request_validate validate_delete_volume_request
  delete_volume_of req w named = ground arith

  delete_volume_absent :
      (req : DeleteVolumeRequest) (w : K.World)
      → req.volume_id ≢ ""
      → V.splits w (make_split_name req.volume_id) ≡ none
      → (delete_volume K req w).0 ≡ replied tt
  unfolding delete_reply
  delete_volume_absent req w named absent =
      let (e, failed, missing) = delete_lower_absent req.volume_id w absent in
      rw (delete_volume_of req w named) (ground (arith, failed, missing))

  -- Once `DeleteLower` has deleted a volume, `DeleteVolume` answers that it is deleted, and so does
  -- each `DeleteVolume` that is sent again, in any later world where no such split was made anew.
  pub delete_volume_again :
      (req : DeleteVolumeRequest) (w w' : K.World) {u : Unit {0}}
      → req.volume_id ≢ ""
      → (delete_lower K req.volume_id w).0 ≡ ok u
      → V.splits w' (make_split_name req.volume_id)
        ≡ V.splits (delete_volume K req w).1 (make_split_name req.volume_id)
      → ((delete_volume K req w).0 ≡ replied tt) × ((delete_volume K req w').0 ≡ replied tt)
  unfolding delete_reply
  delete_volume_again req w w' named deleted same =
      let (split, recorded, gone) = delete_lower_done K V S D req.volume_id w deleted in
      let step = delete_volume_of req w named in
      let absent : V.splits (delete_volume K req w).1 (make_split_name req.volume_id) ≡ none =
        rw step (gone.split_gone) in
      (rw step (rw deleted refl), delete_volume_absent req w' named (same ∙ absent))
