-- ===== src/Union/Splits.antt =====
-- pkg/union/splitter.go against the API: `CreateSplit`, `GetSplit` and `DeleteSplit`, with the
-- client of pkg/k8s/client/clientset/typed/union/v1alpha1/volumesplit.go.
pub mod Parts
pub mod Create
pub mod Origins
pub mod Keeps
use union_csi.Base.{ℕ, suc, String, Option, none, some, List, [], ◌∷◌, ◌++◌, if◌then◌else◌}
use union_csi.Failure.{
  Err, sentinel, wrap_both, volume_not_found, idempotency_incompatible, Result, ok, err, Act,
}
use union_csi.Kube.{
  Quantity, quantity_of, resource_storage, VolumeSplit, VolumeSplitSpec, PersistentVolumeClaimSplit,
}
use union_csi.Kube.Cluster.{Cluster}
use union_csi.Union.Splitter.{
  Splitter, make_split_name, make_claim_name, split_quantity_super_duper_dummy,
  is_split_spec_compatible, empty_split,
}

-- The loop of `doCreateSplit` over the parts of the capacity.
append_splits :
    Splitter
    → String
    → ℕ
    → List Quantity
    → List PersistentVolumeClaimSplit
    → List PersistentVolumeClaimSplit
append_splits s name i [] splits = splits
append_splits s name i (c ∷ cs) splits =
    let claim_split : PersistentVolumeClaimSplit = record {
      claim_name = make_claim_name s name i;
      resources = record { requests = (resource_storage, c) ∷ [] };
    } in
    append_splits s name (suc i) cs (splits ++ claim_split ∷ [])

-- The object that `doCreateSplit` posts and returns.
unfoldable pub new_split : Splitter → String → VolumeSplitSpec → VolumeSplit
unfolding append_splits make_claim_name split_quantity_super_duper_dummy quantity_of
new_split s split_name spec = record {
  name = split_name;
  spec = record spec {
    splits =
        append_splits s spec.volume_name 0
          (split_quantity_super_duper_dummy (quantity_of spec.capacity_total resource_storage))
          spec.splits;
  };
}

unfoldable pub if_compatible : VolumeSplit → VolumeSplitSpec → Result VolumeSplit
if_compatible split spec =
    if is_split_spec_compatible (some split.spec) (some spec)
    then ok split
    else err (sentinel idempotency_incompatible)

module _ (K : Cluster) where
  unfoldable pub volume_splits_get : String → K.World → (VolumeSplit × Option Err) × K.World
  volume_splits_get name w = K.rest_get name empty_split w

  unfoldable pub volume_splits_create : VolumeSplit → K.World → (VolumeSplit × Option Err) × K.World
  volume_splits_create split w = K.rest_post split empty_split w

  unfoldable pub volume_splits_delete : String → K.World → Option Err × K.World
  volume_splits_delete name w = K.rest_delete name w

  -- The deferred functions of `GetSplit` and `DeleteSplit`.
  abbrev pub note_not_found : Option Err → Option Err
  note_not_found none = none
  note_not_found (some e) =
      some (if K.is_not_found e then wrap_both (sentinel volume_not_found) e else e)

  unfoldable pub get_split : String → K.World → (VolumeSplit × Option Err) × K.World
  get_split volume_id w =
      let got = volume_splits_get (make_split_name volume_id) w in
      ((got.0.0, note_not_found got.0.1), got.1)

  unfoldable pub delete_split : String → K.World → Option Err × K.World
  delete_split volume_id w =
      let gone = volume_splits_delete (make_split_name volume_id) w in
      (note_not_found gone.0, gone.1)

  unfoldable pub do_create_split :
      Splitter → String → VolumeSplitSpec → K.World → (VolumeSplit × Option Err) × K.World
  do_create_split s split_name spec w =
      let split = new_split s split_name spec in
      let posted = volume_splits_create split w in ((split, posted.0.1), posted.1)

  -- The last attempt of `CreateSplit`, after its post was refused.
  unfoldable pub get_again : String → VolumeSplitSpec → Act K.World VolumeSplit
  get_again split_name spec w =
      let got = get_split split_name w in
      elim got.0.1 [ none ↦ (if_compatible got.0.0 spec, got.1) | some e ↦ (err e, got.1) ]

  -- The branch of `CreateSplit` where the first read found nothing.
  unfoldable pub create_missing : Splitter → String → VolumeSplitSpec → Act K.World VolumeSplit
  create_missing s split_name spec w =
      let made = do_create_split s split_name spec w in
      elim made.0.1 [
        | none ↦ (ok made.0.0, made.1)
        | some e ↦
            if K.is_already_exists e then get_again split_name spec made.1 else (err e, made.1)
      ]

  -- An error of the first read that is not "not found" is dropped, as in the source.
  unfoldable pub create_split : Splitter → String → VolumeSplitSpec → Act K.World VolumeSplit
  create_split s volume_id spec w =
      let split_name = make_split_name volume_id in
      let got = get_split split_name w in
      elim got.0.1 [
        | none ↦ (if_compatible got.0.0 spec, got.1)
        | some e ↦
            if K.is_not_found e
            then create_missing s split_name spec got.1
            else (if_compatible got.0.0 spec, got.1)
      ]
