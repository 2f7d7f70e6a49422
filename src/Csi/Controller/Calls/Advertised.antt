-- ===== src/Csi/Controller/Calls/Advertised.antt =====
-- Which calls the controller service answers, beside the capabilities that it advertises.
use union_csi.Base.{
  String, Bool, true, false, Option, none, some, List, [], ◌∷◌, ◌||◌, ◌≡◌, ◌≢◌, ◌↔◌, ◌⊎◌, refl, ap,
  ◌∙◌, arith, contains, map, ◌==◌, string_eq, if◌then◌else◌, Bool-cases, inl, inr,
}
use union_csi.Csi.{
  ControllerCapType, controller_cap_type_eq, ControllerCapType-discrete, create_delete_volume,
  publish_unpublish_volume, list_volumes, get_capacity, create_delete_snapshot, list_snapshots,
  expand_volume, get_volume, VolumeCapability, CreateVolumeRequest, DeleteVolumeRequest,
  ControllerPublishVolumeRequest, ControllerUnpublishVolumeRequest,
}
use union_csi.Csi.Controller
use union_csi.Csi.Controller.{
  ControllerServer, new_controller_server, controller_capabilities, create_reply, create_code,
  delete_reply, publish_error, publish_reply, unpublish_reply, parse_parameter, parse_parameters,
  any_block, default_options, before, proceed,
}
use union_csi.Csi.Controller.Calls
use union_csi.Csi.Controller.Calls.{
  ControllerServiceCapability, rpc, get_controller_capabilities, serve, Response, answer, created,
  published, done,
}
use union_csi.Csi.Controller.Request.{Request}
use union_csi.Csi.Status.{Reply, replied, status, crash, unimplemented, invalid_argument}
use union_csi.Csi.Validation.{
  FieldLibrary, ErrorList, validate_create_volume_request, validate_delete_volume_request,
  validate_controller_publish_volume_request, validate_controller_unpublish_volume_request,
}
use union_csi.Csi.Validators.{
  VolumeValidator, refuse_errors, new_controller_validator, check_mode, check_modes,
  create_volume_request_validate, delete_volume_request_validate,
  controller_publish_volume_request_validate, controller_unpublish_volume_request_validate,
}
use union_csi.Failure.{Err, Result, ok, err, panic}
use union_csi.Kube.Cluster.{Cluster}
use union_csi.Union.{Volume, VolumeAttachment, CreateLowerOptions}
use union_csi.Union.Attacher.{Attached}
use union_csi.Union.Splitter.{Splitter}

-- The capability without which the Container Storage Interface does not ask a plugin for a call. The
-- other calls it asks of every plugin.
abbrev pub needs : Request → Option ControllerCapType
needs (Request.create_volume req) = some create_delete_volume
needs (Request.delete_volume req) = some create_delete_volume
needs (Request.controller_publish_volume req) = some publish_unpublish_volume
needs (Request.controller_unpublish_volume req) = some publish_unpublish_volume
needs Request.validate_volume_capabilities = none
needs Request.list_volumes = some list_volumes
needs Request.get_capacity = some get_capacity
needs Request.controller_get_capabilities = none
needs Request.create_snapshot = some create_delete_snapshot
needs Request.delete_snapshot = some create_delete_snapshot
needs Request.list_snapshots = some list_snapshots
needs Request.controller_expand_volume = some expand_volume
needs Request.controller_get_volume = some get_volume

abbrev pub offers : List ControllerServiceCapability → ControllerCapType → Bool
offers [] k = false
offers (rpc j ∷ cs) k = k == j || offers cs k

abbrev IsAnswered : {A : Type 0} → Reply A → Type 0
IsAnswered r = r ≢ status unimplemented

check_modes-IsAnswered :
    (v : VolumeValidator) (cs : List (Option VolumeCapability)) → IsAnswered (check_modes v cs)
unfolding check_modes check_mode
check_modes-IsAnswered v [] e = ground arith
check_modes-IsAnswered v (c ∷ cs) e = ground (arith, check_modes-IsAnswered v cs)

proceed-IsAnswered :
    {A B : Type 0} (r : Reply A) (f : A → Reply B)
    → IsAnswered r
    → ((a : A) → IsAnswered (f a))
    → IsAnswered (proceed r f)
proceed-IsAnswered (replied a) f h k e = k a e
proceed-IsAnswered (status c) f h k e = h (ground arith)
proceed-IsAnswered crash f h k e = ground arith

parse_parameter-IsAnswered :
    (k v : String) (o : CreateLowerOptions) → IsAnswered (parse_parameter k v o)
unfolding parse_parameter
parse_parameter-IsAnswered k v o e = ground arith

parse_parameters-IsAnswered :
    (params : List (String × String)) (o : CreateLowerOptions)
    → IsAnswered (parse_parameters params o)
unfolding parse_parameters
parse_parameters-IsAnswered [] o e = ground arith
parse_parameters-IsAnswered ((k, v) ∷ params) o e =
    proceed-IsAnswered (parse_parameter k v o) (parse_parameters params)
      (parse_parameter-IsAnswered k v o) (parse_parameters-IsAnswered params) e

refuse_errors-IsAnswered :
    (xs : ErrorList) (rest : Reply (Unit {0}))
    → IsAnswered rest
    → IsAnswered (refuse_errors xs rest)
refuse_errors-IsAnswered [] rest h e = h e
refuse_errors-IsAnswered (x ∷ xs) rest h e = ground arith

replied-IsAnswered : IsAnswered (replied tt)
replied-IsAnswered e = ground arith

publish_test-IsAnswered :
    (v : VolumeValidator) (c : Option VolumeCapability) (b : Bool)
    → IsAnswered (check_mode v c (if b then status invalid_argument else replied tt))
unfolding check_mode
publish_test-IsAnswered v c b e = ground arith

create_reply-IsAnswered : (r : Result Volume) → IsAnswered (create_reply r)
unfolding create_reply create_code
create_reply-IsAnswered r e = ground arith

delete_reply-IsAnswered : (r : Result (Unit {0})) → IsAnswered (delete_reply r)
unfolding delete_reply
delete_reply-IsAnswered r e = ground arith

publish_error-IsAnswered : (a : Option VolumeAttachment) (x : Err) → IsAnswered (publish_error a x)
unfolding publish_error
publish_error-IsAnswered a x e = ground arith

publish_reply-IsAnswered : (r : Result Attached) → IsAnswered (publish_reply r)
unfolding publish_reply
publish_reply-IsAnswered (ok (a, some x)) e = publish_error-IsAnswered a x e
publish_reply-IsAnswered (ok (some a, none)) e = ground arith
publish_reply-IsAnswered (ok (none, none)) e = ground arith
publish_reply-IsAnswered (err x) e = publish_error-IsAnswered none x e
publish_reply-IsAnswered panic e = ground arith

unpublish_reply-IsAnswered : (r : Result (Unit {0})) → IsAnswered (unpublish_reply r)
unfolding unpublish_reply
unpublish_reply-IsAnswered r e = ground arith

answer-IsAnswered :
    {A : Type 0} (f : A → Response) (r : Reply A) → IsAnswered r → IsAnswered (answer f r)
answer-IsAnswered f (replied a) h e = ground arith
answer-IsAnswered f (status c) h e = h (ground arith)
answer-IsAnswered f crash h e = ground arith

module _ (K : Cluster) where
  before-IsAnswered :
      {A B : Type 0} (r : Reply A) (f : A → K.World → Reply B × K.World) (w : K.World)
      → IsAnswered r
      → ((a : A) → IsAnswered (f a w).0)
      → IsAnswered (before K r f w).0
  before-IsAnswered (replied a) f w h k e = k a e
  before-IsAnswered (status c) f w h k e = h (ground arith)
  before-IsAnswered crash f w h k e = ground arith

  create_volume-IsAnswered :
      (F : FieldLibrary) (s : ControllerServer) (req : CreateVolumeRequest) (w : K.World)
      → IsAnswered (Controller.create_volume K F s req w).0
  unfolding Controller.create_volume create_volume_request_validate
  create_volume-IsAnswered F s req w =
      before-IsAnswered (create_volume_request_validate F s.validator req) _ w
        (refuse_errors-IsAnswered (validate_create_volume_request F req) _
          (check_modes-IsAnswered s.validator.volume_validator req.volume_capabilities))
        λ _. elim (Bool-cases (any_block req.volume_capabilities)) [
          | inl blocks ↦ λ e. ground (arith, blocks)
          | inr mounts ↦ rw mounts (
              before-IsAnswered (parse_parameters req.parameters (default_options s)) _ w
                (parse_parameters-IsAnswered req.parameters (default_options s))
                λ o. create_reply-IsAnswered _)
        ]

  delete_volume-IsAnswered :
      (req : DeleteVolumeRequest) (w : K.World) → IsAnswered (Controller.delete_volume K req w).0
  unfolding Controller.delete_volume delete_volume_request_validate
  delete_volume-IsAnswered req w =
      before-IsAnswered (delete_volume_request_validate req) _ w
        (refuse_errors-IsAnswered (validate_delete_volume_request req) _ replied-IsAnswered)
        λ _. delete_reply-IsAnswered _

  controller_publish_volume-IsAnswered :
      (s : ControllerServer) (req : ControllerPublishVolumeRequest) (w : K.World)
      → IsAnswered (Controller.controller_publish_volume K s req w).0
  unfolding Controller.controller_publish_volume controller_publish_volume_request_validate
  controller_publish_volume-IsAnswered s req w =
      before-IsAnswered (controller_publish_volume_request_validate s.validator req) _ w
        (refuse_errors-IsAnswered (validate_controller_publish_volume_request req) _
          (publish_test-IsAnswered s.validator.volume_validator req.volume_capability _))
        λ _. publish_reply-IsAnswered _

  controller_unpublish_volume-IsAnswered :
      (req : ControllerUnpublishVolumeRequest) (w : K.World)
      → IsAnswered (Controller.controller_unpublish_volume K req w).0
  unfolding Controller.controller_unpublish_volume controller_unpublish_volume_request_validate
  controller_unpublish_volume-IsAnswered req w =
      before-IsAnswered (controller_unpublish_volume_request_validate req) _ w
        (refuse_errors-IsAnswered (validate_controller_unpublish_volume_request req) _
          replied-IsAnswered)
        λ _. elim (Bool-cases (req.node_id == "")) [
          | inl empty ↦ λ e. ground (arith, empty)
          | inr given ↦ rw given (unpublish_reply-IsAnswered _)
        ]

new_controller_server-caps :
    (splitter : Splitter) (ns : String) {s : ControllerServer}
    → new_controller_server splitter ns ≡ ok s
    → s.validator.controller_cap_types_set ≡ controller_capabilities
unfolding new_controller_server new_controller_validator
new_controller_server-caps splitter ns h = ground arith

offers-map :
    (ks : List ControllerCapType) (k : ControllerCapType) → offers (map rpc ks) k ≡ contains ks k
offers-map [] k = refl
offers-map (j ∷ ks) k = ap (λ b. k == j || b) (offers-map ks k)

module _ (in_order : List ControllerCapType → List ControllerCapType)
    (same : (ks : List ControllerCapType) (k : ControllerCapType)
      → contains (in_order ks) k ≡ contains ks k)
    (K : Cluster) (F : FieldLibrary) (splitter : Splitter) (ns : String) {s : ControllerServer}
    (built : new_controller_server splitter ns ≡ ok s) where
  offers-controller_capabilities :
      (k : ControllerCapType)
      → offers (get_controller_capabilities in_order s.validator) k
        ≡ contains controller_capabilities k
  unfolding get_controller_capabilities
  offers-controller_capabilities k =
      offers-map (in_order s.validator.controller_cap_types_set) k
      ∙ same s.validator.controller_cap_types_set k
      ∙ ap (λ ks. contains ks k) (new_controller_server-caps splitter ns built)

  -- What a call that needs a capability answers.
  serve-cases :
      (req : Request) (w : K.World) {k : ControllerCapType}
      → needs req ≡ some k
      → ((contains controller_capabilities k ≡ true) × IsAnswered (serve in_order K F s req w).0)
        ⊎ ((contains controller_capabilities k ≡ false)
            × ((serve in_order K F s req w).0 ≡ status unimplemented))
  unfolding serve controller_cap_type_eq ControllerCapType-discrete Calls.list_volumes
      Calls.get_capacity Calls.create_snapshot Calls.delete_snapshot Calls.list_snapshots
      Calls.controller_expand_volume Calls.controller_get_volume
  serve-cases (Request.create_volume req) w h =
      inl (ground arith, answer-IsAnswered created _ (create_volume-IsAnswered K F s req w))
  serve-cases (Request.delete_volume req) w h =
      inl (ground arith, answer-IsAnswered (λ _. done) _ (delete_volume-IsAnswered K req w))
  serve-cases (Request.controller_publish_volume req) w h =
      inl (
        ground arith,
        answer-IsAnswered published _ (controller_publish_volume-IsAnswered K s req w),
      )
  serve-cases (Request.controller_unpublish_volume req) w h = inl (
    ground arith,
    answer-IsAnswered (λ _. done) _ (controller_unpublish_volume-IsAnswered K req w),
  )
  serve-cases Request.validate_volume_capabilities w h = absurd (ground arith)
  serve-cases Request.list_volumes w h = inr (ground arith, refl)
  serve-cases Request.get_capacity w h = inr (ground arith, refl)
  serve-cases Request.controller_get_capabilities w h = absurd (ground arith)
  serve-cases Request.create_snapshot w h = inr (ground arith, refl)
  serve-cases Request.delete_snapshot w h = inr (ground arith, refl)
  serve-cases Request.list_snapshots w h = inr (ground arith, refl)
  serve-cases Request.controller_expand_volume w h = inr (ground arith, refl)
  serve-cases Request.controller_get_volume w h = inr (ground arith, refl)

  -- The controller server that the driver makes advertises a capability exactly when it answers the
  -- calls that need it with something else than Unimplemented, whatever they ask and in every world.
  pub advertised_iff :
      (req : Request) (w : K.World) {k : ControllerCapType}
      → needs req ≡ some k
      → (offers (get_controller_capabilities in_order s.validator) k ≡ true)
        ↔ ((serve in_order K F s req w).0 ≢ status unimplemented)
  advertised_iff req w {k} h = rw (offers-controller_capabilities k) (elim (serve-cases req w h) [
    | inl (offered, answered) ↦ (λ _. answered, λ _. offered)
    | inr (lacking, refused) ↦ (λ e. absurd (ground (arith, lacking)), λ n. absurd (n refused))
  ])
