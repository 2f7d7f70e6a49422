-- ===== src/Csi/Controller/Lifecycle.antt =====
-- `CreateVolume` and then `DeleteVolume` of what it answered.
use union_csi.Base.{
  String, List, map, ◌≡◌, ◌≢◌, refl, sym, ap, ◌∙◌, arith, inl, inr, Bool-cases, string_eq,
}
use union_csi.Csi.{CreateVolumeRequest, DeleteVolumeRequest}
use union_csi.Csi.Status.{Reply, replied, status, crash}
use union_csi.Csi.Validation.{FieldLibrary}
use union_csi.Csi.Validators.{create_volume_request_validate}
use union_csi.Csi.Controller.{
  ControllerServer, default_options, parse_parameters, get_capacity_bytes, any_block, mode_of,
  create_reply, CreateVolumeResponse, before, create_volume, delete_volume, delete_reply,
}
use union_csi.Csi.Controller.Deletion.{delete_volume_of}
use union_csi.Failure.{Result, ok, err, panic, after-eq-ok}
use union_csi.Kube.{AccessMode}
use union_csi.Kube.Cluster.{Cluster}
use union_csi.Kube.Cluster.Laws.{IsClassifier}
use union_csi.Kube.Cluster.Store.{View, IsSplitStore, IsClaimStore, IsHealthy}
use union_csi.Kube.Cluster.Working.{IsWorking}
use union_csi.Union.{CreateLowerOptions, Volume, new_volume_from_volume_split}
use union_csi.Union.AccessModes.{get_access_modes}
use union_csi.Union.Splitter.{Splitter}
use union_csi.Union.Splits.{new_split}
use union_csi.Union.Lower.{split_spec_of, create_lower, delete_lower}
use union_csi.Union.Lower.Creation.{volume_of}
use union_csi.Union.Lower.Liveness.{IsNew, split_of}
use union_csi.Union.Lower.Roundtrip.{delete_lower-create_lower}

-- The options for `CreateLower` that a request completes.
abbrev pub filled : CreateVolumeRequest → CreateLowerOptions → CreateLowerOptions
filled req o = record o {
  capacity_bytes = get_capacity_bytes req.capacity_range;
  csi_access_modes = map mode_of req.volume_capabilities;
}

before-eq-replied :
    {A B : Type 0} (K : Cluster) (x : Reply A) (f : A → K.World → Reply B × K.World) (w : K.World)
    {b : B}
    → (before K x f w).0 ≡ replied b
    → (a : A) × (x ≡ replied a) × (before K x f w ≡ f a w)
before-eq-replied K (replied a) f w h = (a, refl, refl)
before-eq-replied K (status c) f w h = absurd (ground arith)
before-eq-replied K crash f w h = absurd (ground arith)

create_reply-eq-replied :
    (x : Result Volume) {r : CreateVolumeResponse}
    → create_reply x ≡ replied r
    → (v : Volume) × (x ≡ ok v) × (r.volume_id ≡ v.volume_id)
unfolding create_reply
create_reply-eq-replied (ok v) h = (v, refl, ground arith)
create_reply-eq-replied (err e) h = absurd (ground arith)
create_reply-eq-replied panic h = absurd (ground arith)

module _ (K : Cluster) where
  -- The end of `CreateVolume`, once the parameters are parsed.
  abbrev asked :
      ControllerServer
      → CreateVolumeRequest
      → CreateLowerOptions
      → K.World
      → Reply CreateVolumeResponse × K.World
  asked s req o w =
      let created = create_lower K s.splitter req.name (filled req o) w in
      (create_reply created.0, created.1)

  -- A request that is answered with a volume went through to `CreateLower`.
  create_volume_reached :
      (F : FieldLibrary) (s : ControllerServer) (req : CreateVolumeRequest) (w : K.World)
      {r : CreateVolumeResponse}
      → (create_volume K F s req w).0 ≡ replied r
      → (o : CreateLowerOptions) × (parse_parameters req.parameters (default_options s) ≡ replied o)
        × (create_volume K F s req w ≡ (
          create_reply (create_lower K s.splitter req.name (filled req o) w).0,
          (create_lower K s.splitter req.name (filled req o) w).1,
        ))
  unfolding create_volume
  create_volume_reached F s req w h =
      let (u, valid, same) =
        before-eq-replied K (create_volume_request_validate F s.validator req) _ w h in
      elim (Bool-cases (any_block req.volume_capabilities)) [
        | inl blocks ↦ absurd (ground (arith, ap (λ x. x.0) same, blocks))
        | inr no_block ↦
            let step : create_volume K F s req w
                ≡ before K (parse_parameters req.parameters (default_options s)) (asked s req) w =
              same ∙ rw no_block refl in
            let (o, parsed, same') =
              before-eq-replied K (parse_parameters req.parameters (default_options s))
                (asked s req) w (sym (ap (λ x. x.0) step) ∙ h) in
            (o, parsed, step ∙ same')
      ]

  create_lower_modes :
      (s : Splitter) (v : String) (o : CreateLowerOptions) (w : K.World) {volume : Volume}
      → (create_lower K s v o w).0 ≡ ok volume
      → (modes : List AccessMode) × (get_access_modes o.csi_access_modes ≡ ok modes)
  unfolding create_lower
  create_lower_modes s v o w h =
      let (modes, known, rest, same) = after-eq-ok (get_access_modes o.csi_access_modes) _ w h in
      (modes, known)

module _ (K : Cluster) (V : View K) (S : IsSplitStore K V) (D : IsClaimStore K V)
    (C : IsClassifier K) (H : IsHealthy K V) (G : IsWorking K V) where
  open V use {splits, claims}

  id-split_of :
      (s : Splitter) (v : String) (o : CreateLowerOptions) (modes : List AccessMode)
      → (volume_of (split_of s v o modes)).volume_id ≡ v
  unfolding new_volume_from_volume_split new_split split_spec_of
  id-split_of s v o modes = refl

  delete_volume_done :
      (id : String) (w : K.World)
      → id ≢ ""
      → (delete_lower K id w).0 ≡ ok tt
      → delete_volume K (record { volume_id = id }) w ≡ (replied tt, (delete_lower K id w).1)
  unfolding delete_reply
  delete_volume_done id w named done =
      delete_volume_of K V S D C H (record { volume_id = id }) w named ∙ rw done refl

  abbrev pub delete_request : CreateVolumeResponse → DeleteVolumeRequest
  delete_request r = record { volume_id = r.volume_id }

  -- On a cluster that works, when CreateVolume answers a request with a volume that was new, its
  -- id is the name in the request. DeleteVolume of that id then answers that the volume is
  -- deleted, and the recorded splits and the claims are what they were before.
  pub delete_volume-create_volume :
      (F : FieldLibrary) (s : ControllerServer) (req : CreateVolumeRequest) (w : K.World)
      {r : CreateVolumeResponse} (o : CreateLowerOptions)
      → (create_volume K F s req w).0 ≡ replied r
      → parse_parameters req.parameters (default_options s) ≡ replied o
      → IsNew K V S D C H G s.splitter req.name (filled req o) w
      → req.name ≢ ""
      → let w1 = (create_volume K F s req w).1 in
        let w2 = (delete_volume K (delete_request r) w1).1 in
        (r.volume_id ≡ req.name)
        × ((delete_volume K (delete_request r) w1).0 ≡ replied tt)
        × ((m : String) → splits w2 m ≡ splits w m)
        × ((ns n : String) → claims w2 ns n ≡ claims w ns n)
  delete_volume-create_volume F s req w {r} o h parsed new named =
      let asked_o = filled req o in
      let (o', parsed', reached) = create_volume_reached K F s req w h in
      let is_it : o' ≡ o = ground (arith, parsed, parsed') in
      let ran : create_volume K F s req w ≡ (
        create_reply (create_lower K s.splitter req.name asked_o w).0,
        (create_lower K s.splitter req.name asked_o w).1,
      ) =
        rw is_it at reached in
      let (volume, made, id) =
        create_reply-eq-replied (create_lower K s.splitter req.name asked_o w).0
          (sym (ap (λ x. x.0) ran) ∙ h) in
      let (modes, known) = create_lower_modes K s.splitter req.name asked_o w made in
      let (created, deleted, same_splits, same_claims) =
        delete_lower-create_lower K V S D C H G s.splitter req.name asked_o w modes known new in
      let is_volume : volume ≡ volume_of (split_of s.splitter req.name asked_o modes) =
        ground (arith, made, created) in
      let is_name : r.volume_id ≡ req.name =
        id ∙ ap (λ v. v.volume_id) is_volume ∙ id-split_of s.splitter req.name asked_o modes in
      let w1 = (create_lower K s.splitter req.name asked_o w).1 in
      let ends : delete_volume K (delete_request r) (create_volume K F s req w).1
          ≡ (replied tt, (delete_lower K req.name w1).1) =
        ap (λ x. delete_volume K (delete_request r) x.1) ran
        ∙ ap (λ id. delete_volume K (record { volume_id = id }) w1) is_name
        ∙ delete_volume_done req.name w1 named deleted in
      (
        is_name,
        ap (λ x. x.0) ends,
        λ m. ap (λ x. splits x.1 m) ends ∙ same_splits m,
        λ ns n. ap (λ x. claims x.1 ns n) ends ∙ same_claims ns n,
      )
