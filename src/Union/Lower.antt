-- ===== src/Union/Lower.antt =====
-- pkg/union/union.go: the lower claims of a volume.
pub mod Ownership
pub mod Creation
pub mod Deletion
pub mod Cleanup
pub mod Fresh
pub mod Liveness
pub mod Exact
pub mod Isolation
pub mod Roundtrip
mod Samples
use union_csi.Base.{
  String, Bool, true, false, Option, none, some, List, [], ◌∷◌, is_empty, if◌then◌else◌,
}
use union_csi.Base.Int.{pos}
use union_csi.Failure.{
  Err, errorf, splits_empty, create_claim_failed, claim_invalid, Result, ok, err, panic, Act, ◌>>=◌,
  ◌>>◌, pure, fail, lift, call,
}
use union_csi.Kube.{
  VolumeSplit, VolumeSplitSpec, PersistentVolumeClaimSplit, PersistentVolumeClaim, resource_storage,
}
use union_csi.Kube.Cluster.{Cluster}
use union_csi.Union.{CreateLowerOptions, Volume, new_volume_from_volume_split}
use union_csi.Union.AccessModes.{get_access_modes, get_quantity}
use union_csi.Union.Splitter.{Splitter}
use union_csi.Union.Splits.{create_split, get_split, delete_split}

unfoldable pub is_valid_lower_claim_from_split : PersistentVolumeClaim → VolumeSplit → Bool
is_valid_lower_claim_from_split claim split = true

-- The claim that is created for one part of a split.
unfoldable pub lower_claim : VolumeSplit → PersistentVolumeClaimSplit → PersistentVolumeClaim
lower_claim split claim_split = record {
  name = claim_split.claim_name;
  namespace = split.spec.namespace;
  access_modes = split.spec.access_modes;
  resources = claim_split.resources;
  storage_class_name = split.spec.storage_class_name;
}

-- The branch for a claim that is in the cache. It reads the claim's name, so a nil claim is a panic.
unfoldable pub keep_claim :
    VolumeSplit → Option PersistentVolumeClaim → Result (PersistentVolumeClaim × Bool)
unfolding is_valid_lower_claim_from_split
keep_claim split none = panic
keep_claim split (some claim) =
    if is_valid_lower_claim_from_split claim split
    then ok (claim, false)
    else err (errorf claim_invalid)

-- The specification of the split that `CreateLower` asks for.
unfoldable pub split_spec_of : String → CreateLowerOptions → List String → VolumeSplitSpec
unfolding get_quantity
split_spec_of volume_name options access_modes = record {
  volume_name = volume_name;
  capacity_total = (resource_storage, get_quantity options.capacity_bytes) ∷ [];
  access_modes = access_modes;
  namespace = options.lower_namespace;
  storage_class_name = options.lower_storage_class_name;
  splits = [];
}

module _ (K : Cluster) where
  unfoldable pub get_claim_local :
      String → String → K.World → Option PersistentVolumeClaim × Option Err
  get_claim_local namespace name w = K.claim_lister namespace name w

  unfoldable pub get_node_local : String → K.World → Option Err
  get_node_local name w = K.node_lister name w

  -- `err != nil && IsNotFound(err)`
  abbrev pub is_missing : Option Err → Bool
  is_missing none = false
  is_missing (some e) = K.is_not_found e

  -- The branch for a claim that is not in the cache. The flag says that it is newly created.
  unfoldable pub create_claim_of :
      VolumeSplit → PersistentVolumeClaimSplit → Act K.World (PersistentVolumeClaim × Bool)
  create_claim_of split claim_split w =
      let claim = lower_claim split claim_split in
      let made = K.create_claim split.spec.namespace claim w in
      elim made.0 [
        | none ↦ (ok (claim, true), made.1)
        | some e ↦ (err (errorf create_claim_failed), made.1)
      ]

  unfoldable pub create_lower_claim_from_split :
      VolumeSplit → PersistentVolumeClaimSplit → Act K.World (PersistentVolumeClaim × Bool)
  create_lower_claim_from_split split claim_split w =
      let cached = get_claim_local split.spec.namespace claim_split.claim_name w in
      if is_missing cached.1
      then create_claim_of split claim_split w
      else (keep_claim split cached.0, w)

  unfoldable pub create_lower_loop :
      VolumeSplit → List PersistentVolumeClaimSplit → Act K.World (Unit {0})
  create_lower_loop split [] = pure tt
  create_lower_loop split (c ∷ cs) = do
    made ← create_lower_claim_from_split split c
    create_lower_loop split cs

  unfoldable pub create_lower_from_split : VolumeSplit → Act K.World (Unit {0})
  create_lower_from_split split =
      if is_empty split.spec.splits
      then fail (errorf splits_empty)
      else create_lower_loop split split.spec.splits

  unfoldable pub create_lower : Splitter → String → CreateLowerOptions → Act K.World Volume
  create_lower s volume_name options = do
    access_modes ← lift (get_access_modes options.csi_access_modes)
    split ← create_split K s volume_name (split_spec_of volume_name options access_modes)
    create_lower_from_split split
    pure (record (new_volume_from_volume_split split) { capacity_bytes = pos 0 })

  -- Whether the claim was there. A claim that was not is no error.
  unfoldable pub delete_lower_claim_from_split :
      VolumeSplit → PersistentVolumeClaimSplit → Act K.World Bool
  delete_lower_claim_from_split split claim_split w =
      let gone = K.delete_claim split.spec.namespace claim_split.claim_name w in
      elim gone.0 [
        | none ↦ (ok true, gone.1)
        | some e ↦ (if K.is_not_found e then ok false else err e, gone.1)
      ]

  unfoldable pub delete_lower_loop :
      VolumeSplit → List PersistentVolumeClaimSplit → Act K.World (Unit {0})
  delete_lower_loop split [] = pure tt
  delete_lower_loop split (c ∷ cs) = do
    deleted ← delete_lower_claim_from_split split c
    delete_lower_loop split cs

  unfoldable pub delete_lower_from_split : VolumeSplit → Act K.World (Unit {0})
  delete_lower_from_split split = delete_lower_loop split split.spec.splits

  -- `split, err := u.splitter.GetSplit(…); if err != nil { return …, err }`
  unfoldable pub find_split : String → Act K.World VolumeSplit
  find_split volume_id w =
      let got = get_split K volume_id w in
      elim got.0.1 [ none ↦ (ok got.0.0, got.1) | some e ↦ (err e, got.1) ]

  unfoldable pub delete_lower : String → Act K.World (Unit {0})
  delete_lower volume_id = do
    split ← find_split volume_id
    delete_lower_from_split split
    call (delete_split K volume_id)
