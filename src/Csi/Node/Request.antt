-- ===== src/Csi/Node/Request.antt =====
-- The requests of the node service, by the method of `csi.NodeServer` that they call.
use union_csi.Base.{String, Option, none, some}
use union_csi.Csi.{NodePublishVolumeRequest, NodeUnpublishVolumeRequest}

-- What a method does not read of its request is left out.
pub data Request : Type 0 where
  node_publish_volume : NodePublishVolumeRequest → Request
  node_unpublish_volume : NodeUnpublishVolumeRequest → Request
  node_stage_volume node_unstage_volume node_get_volume_stats node_expand_volume : Request
  node_get_capabilities node_get_info : Request

-- The path that a request names as its target.
abbrev pub target_of : Request → Option String
target_of (Request.node_publish_volume req) = some req.target_path
target_of (Request.node_unpublish_volume req) = some req.target_path
target_of _ = none
