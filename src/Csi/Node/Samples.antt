-- ===== src/Csi/Node/Samples.antt =====
-- A volume that is published on a node, with mounts kept in memory.
use text.Mathlib.TextEquality.{eq_iff}
use union_csi.Base.{
  String, Option, List, ◌≡◌, ◌≢◌, refl, arith, false, none, some, [], ◌∷◌, ◌==◌, string_eq,
  if◌then◌else◌,
}
use union_csi.Csi.{mount, single_node_writer, NodePublishVolumeRequest}
use union_csi.Csi.Validators.{
  NodeValidator, node_publish_volume_request_validate, node_unpublish_volume_request_validate,
}
use union_csi.Csi.Validators.Modes.{Verdict, Supports}
use union_csi.Csi.Validators.Node.{
  IsNodePublish, StagingFits, node_publish_volume_request_validate-Verdict,
}
use union_csi.Csi.Node.{node_publish_volume, node_unpublish_volume, mount_reply}
use union_csi.Csi.Node.Calls.{serve_all}
use union_csi.Csi.Node.Lifecycle.{undo, node_unpublish-node_publish, serve_all_other}
use union_csi.Csi.Node.Request.{Request}
use union_csi.Csi.Status.{replied}
use union_csi.Csi.Validation.{validate_node_unpublish_volume_request, validate_target_path}
use union_csi.Csi.Node.Publishing.{NodeOutcome, node_publish_volume_outcome}
use union_csi.Mount.{unpublish}
use union_csi.Mount.Memory.{
  Mounts, mount_memory, memory_device, mount_memory-IsMountTable, mount_memory-IsCleaning,
}

abbrev merged : Mounts
merged = record {
  paths = "/merged" ∷ [];
  device = λ p. if p == "/merged" then some "mergerfs" else none;
}

abbrev request : NodePublishVolumeRequest
request = record {
  volume_id = "v1";
  publish_context = ("path", "/merged") ∷ [];
  staging_target_path = "";
  target_path = "/target";
  volume_capability = some (record {
    access_type = mount (some (record { fs_type = ""; mount_flags = [] }));
    access_mode = some single_node_writer;
  });
  readonly = false;
}

abbrev validator : NodeValidator
validator = record {
  node_cap_types_set = [];
  volume_validator = record { volume_cap_modes_set = single_node_writer ∷ [] };
}

node_publish_volume_request_validate-Verdict_example :
    Verdict
      (IsNodePublish request
        × (Supports validator.volume_validator request.volume_capability
            × StagingFits validator request))
      (node_publish_volume_request_validate validator request)
node_publish_volume_request_validate-Verdict_example =
    node_publish_volume_request_validate-Verdict validator request

node_publish_volume_outcome_example :
    NodeOutcome mount_memory memory_device mount_memory-IsMountTable request merged
      (node_publish_volume mount_memory validator request merged).0
      (node_publish_volume mount_memory validator request merged).1
node_publish_volume_outcome_example =
    node_publish_volume_outcome mount_memory memory_device mount_memory-IsMountTable request
      validator merged

abbrev mounted_world : Mounts
mounted_world = (node_publish_volume mount_memory validator request merged).1

taken_off : (node_unpublish_volume mount_memory (undo request) mounted_world).0 ≡ replied tt
unfolding node_unpublish_volume node_unpublish_volume_request_validate mount_reply unpublish
    validate_node_unpublish_volume_request validate_target_path string_eq
taken_off = refl

node_unpublish-node_publish_example :
    memory_device (node_unpublish_volume mount_memory (undo request) mounted_world).1 "/target"
    ≡ none
unfolding string_eq
node_unpublish-node_publish_example =
    node_unpublish-node_publish mount_memory memory_device mount_memory-IsMountTable
      mount_memory-IsCleaning validator request merged refl taken_off "/target"

abbrev requests : List Request
requests =
    Request.node_get_info
    ∷ Request.node_publish_volume request
    ∷ Request.node_unpublish_volume (undo request)
    ∷ []

target-ne-merged : ◌≢◌ {A = Option String} (some "/target") (some "/merged")
target-ne-merged e = ground (arith, eq_iff "/target" "/merged")

serve_all_other_example :
    memory_device (serve_all (λ ks. ks) mount_memory "n1" validator requests merged) "/merged"
    ≡ some "mergerfs"
unfolding string_eq
serve_all_other_example =
    serve_all_other mount_memory memory_device mount_memory-IsMountTable mount_memory-IsCleaning
      (λ ks. ks) "n1" validator requests merged "/merged"
      (λ e. ground (arith, e), (target-ne-merged, (target-ne-merged, tt)))
