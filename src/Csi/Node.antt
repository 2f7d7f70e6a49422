-- ===== src/Csi/Node.antt =====
-- pkg/csi/driver/node_server.go.
pub mod Publishing
pub mod Request
pub mod Calls
pub mod Lifecycle
mod Samples
use union_csi.Base.{
  String, Bool, Option, none, some, List, [], ◌∷◌, ◌==◌, string_eq, is_empty, if◌then◌else◌,
}
use union_csi.Csi.{
  AccessType, nil, nil_block, nil_mount, block, mount, foreign_type, MountVolume, VolumeCapability,
  NodePublishVolumeRequest, NodeUnpublishVolumeRequest,
}
use union_csi.Csi.Status.{invalid_argument, internal, Reply, replied, status, crash}
use union_csi.Csi.Validators.{
  NodeValidator, node_publish_volume_request_validate, node_unpublish_volume_request_validate,
}
use union_csi.Csi.Controller.{path_publish_context_key}
use union_csi.Failure.{Result, ok, err, panic}
use union_csi.Mount.{PublishOptions, MountUtils, publish, unpublish}

-- `value, ok := m[key]`
unfoldable pub lookup : List (String × String) → String → Option String
lookup [] key = none
lookup ((k, v) ∷ rest) key = if k == key then some v else lookup rest key

-- What the switch on the access type gives: a block volume is refused, the options of a mount
-- volume are set, and otherwise they stay nil. A typed nil of the mount type is dereferenced.
unfoldable pub publish_options : NodePublishVolumeRequest → Reply (Option PublishOptions)
publish_options req = elim req.volume_capability [
  | none ↦ replied none
  | some c ↦ elim c.access_type [
    | nil ↦ replied none
    | nil_block ↦ status invalid_argument
    | nil_mount ↦ crash
    | block b ↦ status invalid_argument
    | mount none ↦
        replied (some (record { fs_type = ""; read_only = req.readonly; mount_options = [] }))
    | mount (some m) ↦ replied (
        some
          (record { fs_type = m.fs_type; read_only = req.readonly; mount_options = m.mount_flags }))
    | foreign_type ↦ replied none
  ]
]

unfoldable pub mount_reply : Result (Unit {0}) → Reply (Unit {0})
mount_reply (ok u) = replied tt
mount_reply (err e) = status internal
mount_reply panic = crash

module _ (U : MountUtils) where
  -- From where the path in the publish context is known.
  unfoldable pub publish_from :
      NodePublishVolumeRequest → String → U.World → Reply (Unit {0}) × U.World
  publish_from req source w = elim (publish_options req) [
    | replied options ↦
        let done = publish U source req.target_path options w in (mount_reply done.0, done.1)
    | status c ↦ (status c, w)
    | crash ↦ (crash, w)
  ]

  unfoldable pub node_publish_volume :
      NodeValidator → NodePublishVolumeRequest → U.World → Reply (Unit {0}) × U.World
  node_publish_volume v req w = elim (node_publish_volume_request_validate v req) [
    | status c ↦ (status c, w)
    | crash ↦ (crash, w)
    | replied u ↦
        if is_empty req.publish_context
        then (status invalid_argument, w)
        else elim (lookup req.publish_context path_publish_context_key) [
          | none ↦ (status invalid_argument, w)
          | some source ↦ publish_from req source w
        ]
  ]

  unfoldable pub node_unpublish_volume :
      NodeUnpublishVolumeRequest → U.World → Reply (Unit {0}) × U.World
  node_unpublish_volume req w = elim (node_unpublish_volume_request_validate req) [
    | status c ↦ (status c, w)
    | crash ↦ (crash, w)
    | replied u ↦ let done = unpublish U req.target_path w in (mount_reply done.0, done.1)
  ]
