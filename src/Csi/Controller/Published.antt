-- ===== src/Csi/Controller/Published.antt =====
-- `ControllerPublishVolume` succeeds where the attach pod comes to run on the node in time.
mod Samples
use union_csi.Base.{none, some, [], ◌∷◌, ◌≡◌, refl, arith}
use union_csi.Csi.{ControllerPublishVolumeRequest}
use union_csi.Csi.Status.{replied}
use union_csi.Csi.Validators.{controller_publish_volume_request_validate}
use union_csi.Csi.Controller.{
  ControllerServer, publish_reply, path_publish_context_key, controller_publish_volume,
}
use union_csi.Failure.{ok}
use union_csi.Kube.{VolumeSplit}
use union_csi.Kube.Cluster.{Cluster}
use union_csi.Kube.Cluster.Patience.{IsPatient}
use union_csi.Union.{Volume, new_volume_from_volume_split}
use union_csi.Union.Lower.{find_split, get_node_local}
use union_csi.Union.Attacher.{find_node, attach, attach_backoff, attach_lower, make_host_path}
use union_csi.Union.Attacher.Liveness.{IsReady, Comes, waiting, attach_live}
use union_csi.Union.Attacher.Outcome.{attachment_at}

module _ (K : Cluster) (req : ControllerPublishVolumeRequest) (w : K.World) where
  -- The world in which the split of the volume has been read.
  abbrev pub read : K.World
  read = (find_split K req.volume_id w).1

  module _ (Next : K.World → K.World → Type 0) (L : IsPatient K Next) (s : ControllerServer)
      (split : VolumeSplit) where
    abbrev volume : Volume
    volume = new_volume_from_volume_split split

    find_node_known :
        K.node_lister req.node_id read ≡ none → find_node K req.node_id read ≡ (ok tt, read)
    unfolding find_node get_node_local
    find_node_known e = ground (arith, e)

    attach_lower_live :
        (find_split K req.volume_id w).0 ≡ ok split
        → K.node_lister req.node_id read ≡ none
        → IsReady K volume req.node_id Next read
        → Comes K volume req.node_id Next attach_backoff.steps
            (waiting K volume req.node_id Next read)
        → (attach_lower K req.volume_id req.node_id w).0
          ≡ ok (some (attachment_at K volume req.node_id req.node_id), none)
    unfolding attach_lower
    attach_lower_live found known ready comes =
        rw (found, attach_lower)
          (rw (find_node_known known) (attach_live K volume req.node_id Next L read ready comes))

    -- A request that is let through, for a volume whose split is recorded and a node that the cache
    -- knows, is answered with the path of the volume, where the cache of pods can be read, the API makes
    -- the attach pod or has it already, the wait is not cancelled, and one of its polls finds the pod
    -- running on the node, those before it having nothing to report.
    pub controller_publish_volume_live :
        controller_publish_volume_request_validate s.validator req ≡ replied tt
        → (find_split K req.volume_id w).0 ≡ ok split
        → K.node_lister req.node_id read ≡ none
        → IsReady K volume req.node_id Next read
        → Comes K volume req.node_id Next attach_backoff.steps
            (waiting K volume req.node_id Next read)
        → (controller_publish_volume K s req w).0
          ≡ replied ((path_publish_context_key, make_host_path volume.volume_id) ∷ [])
    unfolding controller_publish_volume publish_reply
    controller_publish_volume_live valid found known ready comes =
        rw (valid, controller_publish_volume) (rw (attach_lower_live found known ready comes) refl)
