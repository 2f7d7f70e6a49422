-- ===== src/Csi/Controller/Calls/History.antt =====
-- What holds after every history of calls of the controller service, with other clients at work in
-- between that touch no split and make no claim.
use union_csi.Base.{List, ◌≡◌, ◌==◌, string_eq, Bool-cases, inl, inr}
use union_csi.Csi.{
  ControllerCapType, CreateVolumeRequest, DeleteVolumeRequest, ControllerPublishVolumeRequest,
  ControllerUnpublishVolumeRequest,
}
use union_csi.Csi.Controller
use union_csi.Csi.Controller.{
  ControllerServer, any_block, parse_parameters, default_options, before,
}
use union_csi.Csi.Controller.Calls.{serve}
use union_csi.Csi.Controller.Request.{Request}
use union_csi.Csi.Status.{Reply, replied, status, crash}
use union_csi.Csi.Validation.{FieldLibrary}
use union_csi.Csi.Validators.{
  create_volume_request_validate, delete_volume_request_validate,
  controller_publish_volume_request_validate, controller_unpublish_volume_request_validate,
}
use union_csi.Kube.Cluster.{Cluster}
use union_csi.Kube.Cluster.Apart.{Untouched, IsApart}
use union_csi.Kube.Cluster.Store.{View, IsSplitStore, IsClaimStore}
use union_csi.Union.Attacher.Apart.{attach_lower-Untouched, detach_lower-Untouched}
use union_csi.Union.Lower.Cleanup.{delete_lower-IsOwned}
use union_csi.Union.Lower.Deletion.{Shrinks, Shrinks-IsOwned}
use union_csi.Union.Lower.Ownership.{IsOwned, create_lower-IsOwned}

-- What the world satisfies where a request is refused and where it was let through.
pub before_world :
    (K : Cluster) {A B : Type 0} (P : K.World → Type 0) (r : Reply A)
    (f : A → K.World → Reply B × K.World) (w : K.World)
    → P w
    → ((a : A) → P (f a w).1)
    → P (before K r f w).1
before_world K P (replied a) f w here next = next a
before_world K P (status c) f w here next = here
before_world K P crash f w here next = here

module _ (in_order : List ControllerCapType → List ControllerCapType) (K : Cluster) (V : View K)
    (S : IsSplitStore K V) (D : IsClaimStore K V) (A : IsApart K V) (F : FieldLibrary)
    (s : ControllerServer) where
  -- A history of the world: the controller serves calls, and in between other clients do what they
  -- like with pods and nodes and may delete claims, but touch no split and make no claim.
  pub data History (w : K.World) : K.World → Type 0 where
    start : History w w
    served :
        {w' w'' : K.World}
        → History w w'
        → (req : Request) → (serve in_order K F s req w').1 ≡ w''
        → History w w''
    elsewhere : {w' w'' : K.World} → History w w' → Shrinks K V w' w'' → History w w''

  Untouched-IsOwned : {w w' : K.World} → Untouched K V w w' → IsOwned K V w → IsOwned K V w'
  Untouched-IsOwned u =
      Shrinks-IsOwned K V (record { same = u.splits; gone = λ ns n h. rw (u.claims) h })

  create_volume-IsOwned :
      (req : CreateVolumeRequest) (w : K.World)
      → IsOwned K V w
      → IsOwned K V (Controller.create_volume K F s req w).1
  unfolding Controller.create_volume
  create_volume-IsOwned req w owned =
      before_world K (IsOwned K V) (create_volume_request_validate F s.validator req) _ w owned λ _.
        elim (Bool-cases (any_block req.volume_capabilities)) [
          | inl blocks ↦ rw blocks owned
          | inr mounts ↦ rw mounts (
              before_world K (IsOwned K V) (parse_parameters req.parameters (default_options s)) _ w
                owned λ o. create_lower-IsOwned K V S D s.splitter req.name _ w owned)
        ]

  delete_volume-IsOwned :
      (req : DeleteVolumeRequest) (w : K.World)
      → IsOwned K V w
      → IsOwned K V (Controller.delete_volume K req w).1
  unfolding Controller.delete_volume
  delete_volume-IsOwned req w owned =
      before_world K (IsOwned K V) (delete_volume_request_validate req) _ w owned
        λ _. delete_lower-IsOwned K V S D req.volume_id w owned

  controller_publish_volume-IsOwned :
      (req : ControllerPublishVolumeRequest) (w : K.World)
      → IsOwned K V w
      → IsOwned K V (Controller.controller_publish_volume K s req w).1
  unfolding Controller.controller_publish_volume
  controller_publish_volume-IsOwned req w owned =
      before_world K (IsOwned K V) (controller_publish_volume_request_validate s.validator req) _ w
        owned
        λ _. Untouched-IsOwned (attach_lower-Untouched K V S A req.volume_id req.node_id w) owned

  controller_unpublish_volume-IsOwned :
      (req : ControllerUnpublishVolumeRequest) (w : K.World)
      → IsOwned K V w
      → IsOwned K V (Controller.controller_unpublish_volume K req w).1
  unfolding Controller.controller_unpublish_volume
  controller_unpublish_volume-IsOwned req w owned =
      before_world K (IsOwned K V) (controller_unpublish_volume_request_validate req) _ w owned λ _.
        elim (Bool-cases (req.node_id == "")) [
          | inl empty ↦ rw empty owned
          | inr given ↦
              rw given (
                Untouched-IsOwned (detach_lower-Untouched K V S A req.volume_id req.node_id w)
                  owned)
        ]

  serve-IsOwned :
      (req : Request) (w : K.World) → IsOwned K V w → IsOwned K V (serve in_order K F s req w).1
  unfolding serve
  serve-IsOwned (Request.create_volume req) w owned = create_volume-IsOwned req w owned
  serve-IsOwned (Request.delete_volume req) w owned = delete_volume-IsOwned req w owned
  serve-IsOwned (Request.controller_publish_volume req) w owned =
      controller_publish_volume-IsOwned req w owned
  serve-IsOwned (Request.controller_unpublish_volume req) w owned =
      controller_unpublish_volume-IsOwned req w owned
  serve-IsOwned Request.validate_volume_capabilities w owned = owned
  serve-IsOwned Request.list_volumes w owned = owned
  serve-IsOwned Request.get_capacity w owned = owned
  serve-IsOwned Request.controller_get_capabilities w owned = owned
  serve-IsOwned Request.create_snapshot w owned = owned
  serve-IsOwned Request.delete_snapshot w owned = owned
  serve-IsOwned Request.list_snapshots w owned = owned
  serve-IsOwned Request.controller_expand_volume w owned = owned
  serve-IsOwned Request.controller_get_volume w owned = owned

  -- After every history of calls of the controller service, whatever the API answers, with steps of
  -- other clients in between that touch no split and make no claim, each claim that is stored is listed
  -- in a recorded split, if that was so at the start.
  pub History-IsOwned : {w w' : K.World} → History w w' → IsOwned K V w → IsOwned K V w'
  History-IsOwned start owned = owned
  History-IsOwned (served {w' = w1} past req e) owned =
      rw (← e) (serve-IsOwned req w1 (History-IsOwned past owned))
  History-IsOwned (elsewhere past other) owned =
      Shrinks-IsOwned K V other (History-IsOwned past owned)
