-- ===== src/Csi/Controller/Calls/Samples.antt =====
-- The controller service at concrete requests, on a cluster in memory.
use union_csi.Base.{true, none, some, List, [], ◌∷◌, ◌≡◌, ◌≢◌, ◌↔◌, refl, arith}
use union_csi.Csi.{
  ControllerCapType, controller_cap_type_eq, ControllerCapType-discrete, mode_eq, Mode-discrete,
  list_volumes, create_delete_volume, publish_unpublish_volume, single_node_writer, mount,
}
use union_csi.Base.Int.{pos}
use union_csi.Csi.Controller.{ControllerServer, new_controller_server}
use union_csi.Csi.Controller.Calls.{serve, get_controller_capabilities}
use union_csi.Csi.Controller.Calls.Advertised.{offers, advertised_iff}
use union_csi.Csi.Controller.Calls.History.{History, start, served, elsewhere, History-IsOwned}
use union_csi.Csi.Controller.Request.{Request}
use union_csi.Csi.Status.{status, unimplemented}
use union_csi.Csi.Samples.{fields}
use union_csi.Failure.{ok}
use union_csi.Kube.Cluster.Memory.{Store, memory, find_claim}
use union_csi.Kube.Cluster.Memory.Laws.{
  memory_view, memory-IsSplitStore, memory-IsClaimStore, memory-IsApart,
}
use union_csi.Union.Lower.Deletion.{Shrinks}
use union_csi.Union.Lower.Ownership.{IsOwned}

abbrev pub server : ControllerServer
server = record {
  splitter = record { claim_name_prefix = "" };
  validator = record {
    controller_cap_types_set = create_delete_volume ∷ publish_unpublish_volume ∷ [];
    volume_validator = record { volume_cap_modes_set = single_node_writer ∷ [] };
  };
  default_lower_namespace = "union";
}

pub server_built : new_controller_server (server.splitter) "union" ≡ ok server
unfolding new_controller_server controller_cap_type_eq ControllerCapType-discrete mode_eq
    Mode-discrete
server_built = refl

abbrev pub as_listed : List ControllerCapType → List ControllerCapType
as_listed ks = ks

abbrev pub bare : Store
bare = record { splits = []; claims = []; nodes = []; pods = []; schedule = [] }

abbrev pub creation : Request
creation = Request.create_volume (record {
  name = "v1";
  capacity_range = some (record { required_bytes = pos 11; limit_bytes = pos 0 });
  volume_capabilities =
      some (record {
        access_type = mount (some (record { fs_type = ""; mount_flags = [] }));
        access_mode = some single_node_writer;
      })
      ∷ [];
  parameters = ("LowerNamespace", "lower") ∷ [];
  volume_content_source = none;
  accessibility_requirements = none;
})

abbrev pub deletion : Request
deletion = Request.delete_volume (record { volume_id = "v1" })

advertised_iff_example :
    (offers (get_controller_capabilities as_listed server.validator) list_volumes ≡ true)
    ↔ ((serve as_listed memory fields server Request.list_volumes bare).0 ≢ status unimplemented)
advertised_iff_example =
    advertised_iff as_listed (λ ks k. refl) memory fields (server.splitter) "union" server_built
      Request.list_volumes bare refl

abbrev created_world : Store
created_world = (serve as_listed memory fields server creation bare).1

-- Another client has deleted the claims.
abbrev robbed_world : Store
robbed_world = record created_world { claims = [] }

abbrev left_world : Store
left_world = (serve as_listed memory fields server deletion robbed_world).1

robbed : Shrinks memory memory_view created_world robbed_world
unfolding find_claim
robbed = record { same = refl; gone = λ ns n h. refl }

-- The volume is created, loses its claims to another client, and is deleted.
past :
    History as_listed memory memory_view memory-IsSplitStore memory-IsClaimStore memory-IsApart
      fields server bare left_world
past = served (elsewhere (served start creation refl) robbed) deletion refl

bare-IsOwned : IsOwned memory memory_view bare
unfolding find_claim
bare-IsOwned ns n h = absurd (ground arith)

History-IsOwned_example : IsOwned memory memory_view left_world
History-IsOwned_example =
    History-IsOwned as_listed memory memory_view memory-IsSplitStore memory-IsClaimStore
      memory-IsApart fields server past bare-IsOwned
