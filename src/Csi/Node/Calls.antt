-- ===== src/Csi/Node/Calls.antt =====
-- The rest of pkg/csi/driver/node_server.go: the calls that are not implemented, the getter of the
-- capabilities with what it calls of pkg/csi/validation/node_validator.go, and the service as a
-- whole.
use union_csi.Base.{ℕ, String, List, [], ◌∷◌, map}
use union_csi.Csi.{NodeCapType}
use union_csi.Csi.Node
use union_csi.Csi.Node.Request.{Request}
use union_csi.Csi.Status.{Reply, replied, status, crash, unimplemented}
use union_csi.Csi.Validators.{NodeValidator}
use union_csi.Mount.{MountUtils}

-- `NodeServiceCapability`, of which the driver makes those of the type `Rpc`.
pub data NodeServiceCapability : Type 0 where
  rpc : NodeCapType → NodeServiceCapability

-- What the methods answer to every request.
unfoldable pub node_stage_volume : Reply (Unit {0})
node_stage_volume = status unimplemented

unfoldable pub node_unstage_volume : Reply (Unit {0})
node_unstage_volume = status unimplemented

unfoldable pub node_get_volume_stats : Reply (Unit {0})
node_get_volume_stats = status unimplemented

unfoldable pub node_expand_volume : Reply (Unit {0})
node_expand_volume = status unimplemented

-- Without a limit of volumes, which is 0.
pub record NodeGetInfoResponse : Type 0 where
  pub node_id : String
  pub max_volumes_per_node : ℕ

-- Of the server, the method reads the name of the node.
unfoldable pub node_get_info : String → Reply NodeGetInfoResponse
node_get_info node_id = replied (record { node_id = node_id; max_volumes_per_node = 0 })

-- A response of the service.
pub data Response : Type 0 where
  capabilities : List NodeServiceCapability → Response
  information : NodeGetInfoResponse → Response
  done : Response

abbrev answer : {A : Type 0} → (A → Response) → Reply A → Reply Response
answer f (replied a) = replied (f a)
answer f (status c) = status c
answer f crash = crash

-- `in_order` lists a Go set in the order of one iteration.
module _ (in_order : List NodeCapType → List NodeCapType) where
  -- `nodeCaps`, which the constructor of the validator makes from its set.
  unfoldable pub node_caps : NodeValidator → List NodeServiceCapability
  node_caps v = map rpc (in_order v.node_cap_types_set)

  unfoldable pub get_node_capabilities : NodeValidator → List NodeServiceCapability
  unfolding node_caps
  get_node_capabilities v = node_caps v

  unfoldable pub node_get_capabilities : NodeValidator → Reply (List NodeServiceCapability)
  unfolding get_node_capabilities
  node_get_capabilities v = replied (get_node_capabilities v)

  -- `csi.NodeServer`, method by method, for a node with this name.
  module _ (U : MountUtils) (node_id : String) (v : NodeValidator) where
    unfoldable pub serve : Request → U.World → Reply Response × U.World
    unfolding node_get_capabilities
    serve (Request.node_publish_volume req) w =
        let r = Node.node_publish_volume U v req w in (answer (λ _. done) r.0, r.1)
    serve (Request.node_unpublish_volume req) w =
        let r = Node.node_unpublish_volume U req w in (answer (λ _. done) r.0, r.1)
    serve Request.node_stage_volume w = (answer (λ _. done) node_stage_volume, w)
    serve Request.node_unstage_volume w = (answer (λ _. done) node_unstage_volume, w)
    serve Request.node_get_volume_stats w = (answer (λ _. done) node_get_volume_stats, w)
    serve Request.node_expand_volume w = (answer (λ _. done) node_expand_volume, w)
    serve Request.node_get_capabilities w = (answer capabilities (node_get_capabilities v), w)
    serve Request.node_get_info w = (answer information (node_get_info node_id), w)

    -- The requests are served one after the other.
    abbrev pub serve_all : List Request → U.World → U.World
    serve_all [] w = w
    serve_all (req ∷ reqs) w = serve_all reqs (serve req w).1
