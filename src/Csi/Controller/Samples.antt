-- ===== src/Csi/Controller/Samples.antt =====
-- A volume that is created and deleted through the server.
use text.Mathlib.TextEquality.{eq_iff}
use union_csi.Base.{String, [], ◌∷◌, some, none, ◌≡◌, ◌≢◌, refl, arith, string_eq, nat_eq}
use union_csi.Base.Int.{pos, int_eq, ℤ-discrete}
use union_csi.Csi.{
  CreateVolumeRequest, single_node_writer, create_delete_volume, publish_unpublish_volume, mount,
  mode_eq, Mode-discrete,
}
use union_csi.Csi.Controller.{
  ControllerServer, CreateVolumeResponse, default_options, parse_parameters, create_volume,
  delete_volume, any_block, is_block, create_code, create_reply, get_capacity_bytes, mode_of,
  parse_parameter,
}
use union_csi.Csi.Controller.Lifecycle.{filled, delete_volume-create_volume}
use union_csi.Csi.Status.{replied}
use union_csi.Csi.Validation.{
  FieldLibrary, validate_create_volume_request, validate_capacity_range,
  validate_volume_capabilities, validate_volume_content_source, validate_accessibility_requirements,
  validate_access_mode, validate_access_type, validate_mode, validate_source_type,
  validate_topologies, validate_topology, validate_volume_capabilities_loop,
  validate_volume_capability,
}
use union_csi.Kube.Cluster.Memory.{
  Store, memory, post_split, fetch_split, remove_split, post_claim, remove_claim, post_pod,
  remove_pod, has_node, find_split, drop_split, find_claim, drop_claim, find_pod, has_reason, retry,
}
use union_csi.Kube.Cluster.Memory.Laws.{
  memory_view, memory-IsClassifier, memory-IsSplitStore, memory-IsClaimStore, memory-IsHealthy,
  memory-IsWorking,
}
use union_csi.Union.{CreateLowerOptions, new_volume_from_volume_split}
use union_csi.Union.Lower.Liveness.{IsNew}
use native.Mathlib.Decide.{ℕ_discrete}
use union_csi.Csi.Validators.{
  create_volume_request_validate, check_modes, check_mode, has_volume_capability_mode,
}
use union_csi.Base.Text.{itoa, to_lower}
use union_csi.Failure.{Sentinel-discrete, is, sentinel_eq}
use union_csi.Kube.{quantity_of}
use union_csi.Union.AccessModes.{csi_to_k8s_access_mode, get_access_modes, get_quantity}
use union_csi.Union.Lower.{
  create_claim_of, create_lower, create_lower_claim_from_split, create_lower_from_split,
  create_lower_loop, get_claim_local, is_valid_lower_claim_from_split, keep_claim, lower_claim,
  split_spec_of,
}
use union_csi.Union.Splits.{
  create_missing, create_split, do_create_split, get_again, get_split, if_compatible, new_split,
  volume_splits_create, volume_splits_get,
}
use union_csi.Union.Splitter.{
  is_access_modes_compatible, is_split_spec_compatible, make_claim_name, make_split_name,
  same_class, split_quantity_super_duper_dummy,
}

abbrev lenient : FieldLibrary
lenient = record { validate_nonnegative_field = λ v p. []; validate_labels = λ s p. [] }

abbrev request : CreateVolumeRequest
request = record {
  name = "v1";
  capacity_range = some (record { required_bytes = pos 11; limit_bytes = pos 0 });
  volume_capabilities =
      some (record {
        access_type = mount (some (record { fs_type = ""; mount_flags = [] }));
        access_mode = some single_node_writer;
      })
      ∷ [];
  parameters = ("LowerNamespace", "lower") ∷ [];
  volume_content_source = none;
  accessibility_requirements = none;
}

abbrev server : ControllerServer
server = record {
  splitter = record { claim_name_prefix = "" };
  validator = record {
    controller_cap_types_set = create_delete_volume ∷ publish_unpublish_volume ∷ [];
    volume_validator = record { volume_cap_modes_set = single_node_writer ∷ [] };
  };
  default_lower_namespace = "union";
}

abbrev bare : Store
bare = record { splits = []; claims = []; nodes = []; pods = []; schedule = [] }

abbrev answer : CreateVolumeResponse
answer = record { volume_id = "v1"; capacity_bytes = pos 0 }

answered : (create_volume memory lenient server request bare).0 ≡ replied answer
unfolding string_eq nat_eq ℕ_discrete create_volume any_block is_block parse_parameters create_code
    create_reply get_capacity_bytes mode_of parse_parameter create_volume_request_validate
    check_modes check_mode has_volume_capability_mode validate_create_volume_request
    validate_capacity_range validate_volume_capabilities validate_volume_content_source
    validate_accessibility_requirements validate_access_mode validate_access_type validate_mode
    validate_source_type validate_topologies validate_topology validate_volume_capabilities_loop
    validate_volume_capability mode_eq Mode-discrete int_eq ℤ-discrete itoa to_lower
    Sentinel-discrete is sentinel_eq quantity_of csi_to_k8s_access_mode get_access_modes
    get_quantity create_claim_of create_lower create_lower_claim_from_split create_lower_from_split
    create_lower_loop get_claim_local is_valid_lower_claim_from_split keep_claim lower_claim
    split_spec_of create_missing create_split do_create_split get_again get_split if_compatible
    new_split volume_splits_create volume_splits_get is_access_modes_compatible
    is_split_spec_compatible make_claim_name make_split_name same_class
    split_quantity_super_duper_dummy new_volume_from_volume_split post_split fetch_split
    remove_split post_claim remove_claim post_pod remove_pod has_node find_split drop_split
    find_claim drop_claim find_pod has_reason retry
answered = refl

abbrev parsed_options : CreateLowerOptions
parsed_options = record (default_options server) { lower_namespace = "lower" }

parsed : parse_parameters request.parameters (default_options server) ≡ replied parsed_options
unfolding parse_parameters string_eq to_lower
parsed = refl

bare-IsNew :
    IsNew memory memory_view memory-IsSplitStore memory-IsClaimStore memory-IsClassifier
      memory-IsHealthy memory-IsWorking server.splitter request.name
      (filled request parsed_options)
      bare
unfolding find_split find_claim
bare-IsNew = record { no_split = refl; no_twin = refl; no_first = refl; no_second = refl }

named : request.name ≢ ""
named e = ground (arith, eq_iff "v1" "")

delete_volume-create_volume_example :
    let w1 = (create_volume memory lenient server request bare).1 in
    let w2 = (delete_volume memory (record { volume_id = "v1" }) w1).1 in
    (answer.volume_id ≡ request.name)
    × ((delete_volume memory (record { volume_id = "v1" }) w1).0 ≡ replied tt)
    × ((m : String) → memory_view.splits w2 m ≡ memory_view.splits bare m)
    × ((ns n : String) → memory_view.claims w2 ns n ≡ memory_view.claims bare ns n)
delete_volume-create_volume_example =
    delete_volume-create_volume memory memory_view memory-IsSplitStore memory-IsClaimStore
      memory-IsClassifier memory-IsHealthy memory-IsWorking lenient server request bare
      parsed_options answered parsed bare-IsNew named
