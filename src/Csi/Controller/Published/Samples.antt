-- ===== src/Csi/Controller/Published/Samples.antt =====
-- A volume that is published on the cluster in memory.
use union_csi.Base.{[], ◌∷◌, inl, inr, ◌≡◌, refl, arith, string_eq}
use union_csi.Csi.{mode_eq, controller_cap_type_eq}
use union_csi.Csi.Controller.{path_publish_context_key, controller_publish_volume}
use union_csi.Csi.Controller.Published.{read, controller_publish_volume_live}
use union_csi.Csi.Samples.{server, publish_request, attaching}
use union_csi.Csi.Status.{replied}
use union_csi.Csi.Validation
use union_csi.Csi.Validators.{
  controller_publish_volume_request_validate, check_mode, has_volume_capability_mode,
}
use union_csi.Failure.{ok}
use union_csi.Kube.Cluster.Memory.{
  memory, find_pod, post_pod, has_node, has_reason, fetch_split, find_split,
}
use union_csi.Kube.Cluster.Memory.Patience.{Pauses, memory-IsPatient}
use union_csi.Union.{new_volume_from_volume_split}
use union_csi.Union.Attacher.{
  make_attach_pod_name, make_host_path, is_pod_terminating, is_pod_running, create_pod, ensure_pod,
}
use union_csi.Union.Attacher.Liveness.{IsReady, idle, Comes, waiting}
use union_csi.Union.Attacher.Samples.{pod_at}
use union_csi.Union.Lower
use union_csi.Union.Pod
use union_csi.Union.Pod.{build, new_builder}
use union_csi.Union.Samples.{first}
use union_csi.Union.Splits.{get_split, volume_splits_get, new_split}
use union_csi.Union.Splitter.{make_split_name}

let_through :
    controller_publish_volume_request_validate server.validator publish_request ≡ replied tt
unfolding controller_publish_volume_request_validate
    Validation.validate_controller_publish_volume_request string_eq
    Validation.validate_volume_capability check_mode has_volume_capability_mode mode_eq
    controller_cap_type_eq
let_through = refl

split_read : (Lower.find_split memory "v1" attaching).0 ≡ ok first
unfolding Lower.find_split get_split volume_splits_get fetch_split find_split string_eq
    make_split_name new_split
split_read = refl

attaching-IsReady :
    IsReady memory
      (new_volume_from_volume_split first)
      "n1"
      Pauses
      (read memory publish_request attaching)
unfolding find_pod post_pod has_reason Lower.find_split get_split volume_splits_get fetch_split
    find_split string_eq
attaching-IsReady = record { readable = λ e h. ground arith; accepted = λ p e h. ground arith }

-- The pod is made, is then bound to the node, and runs there after the second pause.
attaching-Comes : Comes memory (new_volume_from_volume_split first) "n1" Pauses 12 (
    waiting memory
      (new_volume_from_volume_split first)
      "n1"
      Pauses
      (read memory publish_request attaching))
unfolding ensure_pod create_pod post_pod find_pod has_reason make_attach_pod_name Pod.create build
    new_builder string_eq is_pod_terminating is_pod_running new_volume_from_volume_split
    Lower.find_split get_split volume_splits_get fetch_split find_split make_split_name new_split
attaching-Comes = inr (
  idle _ refl refl refl,
  λ w1 e1. rw e1 (
      inr (
        idle _ refl refl refl,
        λ w2 e2. rw e2 (
            inl (
              pod_at "n1" "Running",
              record { runs = (refl, refl); stays = refl; on_node = refl },
            )),
      )),
)

controller_publish_volume_live_example :
    (controller_publish_volume memory server publish_request attaching).0
    ≡ replied (
        (path_publish_context_key, make_host_path (new_volume_from_volume_split first).volume_id)
        ∷ [])
unfolding has_node string_eq Lower.find_split get_split volume_splits_get fetch_split find_split
    make_split_name new_split
controller_publish_volume_live_example =
    controller_publish_volume_live memory publish_request attaching Pauses memory-IsPatient server
      first let_through split_read refl attaching-IsReady attaching-Comes
