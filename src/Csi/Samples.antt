-- ===== src/Csi/Samples.antt =====
-- Requests of the controller service on a cluster in memory.
use text.Mathlib.TextEquality.{eq_iff}
use union_csi.Base.{
  Bool, false, not, Option, none, some, [], ◌∷◌, ◌≡◌, ◌≢◌, refl, arith, string_eq, ◌==◌, all, All,
  if◌then◌else◌,
}
use union_csi.Base.Int.{pos, ltb_ℤ}
use union_csi.Csi.{
  Segments, VolumeCapability, mount, single_node_writer, CreateVolumeRequest, DeleteVolumeRequest,
  ControllerPublishVolumeRequest, ControllerUnpublishVolumeRequest, create_delete_volume,
  publish_unpublish_volume,
}
use union_csi.Csi.Status.{invalid_argument, replied, status}
use union_csi.Csi.Validation.{reported, FieldLibrary}
use union_csi.Csi.Validation.Correct.{IsCapability}
use union_csi.Csi.Validation.Requests.{IsFieldLibrary, IsCreateRequest}
use union_csi.Csi.Validators.{
  ControllerValidator, create_volume_request_validate, controller_publish_volume_request_validate,
}
use union_csi.Csi.Validators.Modes.{
  Verdict, Supports, ReadonlyFits, create_volume_request_validate-Verdict,
  controller_publish_volume_request_validate-Verdict,
}
use union_csi.Csi.Controller.{
  ControllerServer, default_options, parse_parameters, create_volume, delete_volume,
  controller_publish_volume, controller_unpublish_volume,
}
use union_csi.Csi.Controller.Parameters.{
  IsParameter, Parsed, with_parameters, parse_parameters-Parsed, create_volume_refused,
}
use union_csi.Csi.Controller.Publish.{IsForeign, PublishOutcome, controller_publish_volume_outcome}
use union_csi.Csi.Controller.Unpublish.{UnpublishOutcome, controller_unpublish_volume_outcome}
use union_csi.Csi.Controller.Deletion.{delete_volume_again}
use union_csi.Failure.{is}
use union_csi.Kube.Cluster.Memory.{Store, memory, fetch_split, has_node}
use union_csi.Kube.Cluster.Memory.Laws.{
  memory_view, memory-IsClassifier, memory-IsRetryLoop, memory-IsLister, memory-IsSplitStore,
  memory-IsClaimStore, memory-IsHealthy,
}
use union_csi.Union.Attacher.Samples.{pod_at}
use union_csi.Union.Samples.{plain, blank, stocked, deleted, held}

-- Field checks that behave as documented.
abbrev pub labels : Segments → Bool
labels s = all (λ e. not (e.0 == "")) s

abbrev pub fields : FieldLibrary
fields = record {
  validate_nonnegative_field =
      λ v p. if ltb_ℤ v (pos 0) then reported "must be greater than or equal to 0" p ∷ [] else [];
  validate_labels = λ s p. if labels s then [] else reported "name part must be non-empty" p ∷ [];
}

pub fields-IsFieldLibrary : IsFieldLibrary fields labels
fields-IsFieldLibrary = record {
  nonnegative = λ v p. ground arith;
  valid_labels = λ s p. ground arith;
}

abbrev pub mounted : Option VolumeCapability
mounted = some (record {
  access_type = mount (some (record { fs_type = ""; mount_flags = [] }));
  access_mode = some single_node_writer;
})

abbrev create_request : CreateVolumeRequest
create_request = record {
  name = "v1";
  capacity_range = some (record { required_bytes = pos 11; limit_bytes = pos 0 });
  volume_capabilities = mounted ∷ [];
  parameters = ("LowerNamespace", "lower") ∷ [];
  volume_content_source = none;
  accessibility_requirements = none;
}

abbrev nameless : CreateVolumeRequest
nameless = record create_request { name = "" }

abbrev pub validator : ControllerValidator
validator = record {
  controller_cap_types_set = create_delete_volume ∷ publish_unpublish_volume ∷ [];
  volume_validator = record { volume_cap_modes_set = single_node_writer ∷ [] };
}

abbrev pub server : ControllerServer
server = record { splitter = plain; validator = validator; default_lower_namespace = "union" }

abbrev delete_request : DeleteVolumeRequest
delete_request = record { volume_id = "v1" }

abbrev pub publish_request : ControllerPublishVolumeRequest
publish_request = record {
  volume_id = "v1";
  node_id = "n1";
  volume_capability = mounted;
  readonly = false;
}

create_volume_request_validate-Verdict_example :
    Verdict
      (IsCreateRequest labels create_request
        × All (Supports validator.volume_validator) create_request.volume_capabilities)
      (create_volume_request_validate fields validator create_request)
create_volume_request_validate-Verdict_example =
    create_volume_request_validate-Verdict fields labels fields-IsFieldLibrary validator
      create_request

controller_publish_volume_request_validate-Verdict_example :
    Verdict
      (((publish_request.volume_id ≢ "")
          × (publish_request.node_id ≢ "")
          × IsCapability publish_request.volume_capability)
        × (Supports validator.volume_validator publish_request.volume_capability
            × ReadonlyFits validator publish_request))
      (controller_publish_volume_request_validate validator publish_request)
controller_publish_volume_request_validate-Verdict_example =
    controller_publish_volume_request_validate-Verdict validator publish_request

parse_parameters-Parsed_example :
    Parsed
      (All IsParameter create_request.parameters)
      (with_parameters create_request.parameters (default_options server))
      (parse_parameters create_request.parameters (default_options server))
parse_parameters-Parsed_example =
    parse_parameters-Parsed create_request.parameters (default_options server)

create_volume_refused_example :
    create_volume memory fields server nameless blank ≡ (status invalid_argument, blank)
create_volume_refused_example =
    create_volume_refused memory fields labels fields-IsFieldLibrary server nameless blank
      (λ h. h.0.name refl)

memory-IsForeign : IsForeign memory
unfolding fetch_split has_node is
memory-IsForeign = record { get = λ n r w t h. ground arith; node = λ n w h. ground arith }

-- The volume's split is recorded, and its attach pod comes to run on the node.
abbrev pub attaching : Store
attaching = record held {
  schedule = (pod_at "n1" "Pending" ∷ []) ∷ (pod_at "n1" "Running" ∷ []) ∷ [];
}

controller_publish_volume_outcome_example :
    PublishOutcome memory publish_request attaching
      (controller_publish_volume memory server publish_request attaching).0
      (controller_publish_volume memory server publish_request attaching).1
controller_publish_volume_outcome_example =
    controller_publish_volume_outcome memory publish_request memory-IsForeign memory-IsLister
      memory-IsRetryLoop server attaching

delete_named : delete_request.volume_id ≢ ""
delete_named e = ground (arith, eq_iff "v1" "")

delete_volume_again_example :
    ((delete_volume memory delete_request stocked).0 ≡ replied tt)
    × ((delete_volume memory delete_request (delete_volume memory delete_request stocked).1).0
        ≡ replied tt)
delete_volume_again_example =
    delete_volume_again memory memory_view memory-IsSplitStore memory-IsClaimStore
      memory-IsClassifier memory-IsHealthy delete_request stocked
      (delete_volume memory delete_request stocked).1 delete_named deleted refl

abbrev unpublish_request : ControllerUnpublishVolumeRequest
unpublish_request = record { volume_id = "v1"; node_id = "n1" }

-- The attach pod runs, and is gone after two polls.
abbrev detaching : Store
detaching = record held {
  pods = pod_at "n1" "Running" ∷ [];
  schedule = (pod_at "n1" "Running" ∷ []) ∷ [] ∷ [];
}

controller_unpublish_volume_outcome_example :
    UnpublishOutcome memory unpublish_request detaching
      (controller_unpublish_volume memory unpublish_request detaching).0
      (controller_unpublish_volume memory unpublish_request detaching).1
controller_unpublish_volume_outcome_example =
    controller_unpublish_volume_outcome memory unpublish_request memory-IsForeign memory-IsLister
      memory-IsRetryLoop detaching
