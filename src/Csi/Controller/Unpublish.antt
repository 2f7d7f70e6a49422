-- ===== src/Csi/Controller/Unpublish.antt =====
-- `ControllerUnpublishVolume` never panics, and when it answers that a volume is detached.
use union_csi.Base.{
  String, true, some, false, ◌||◌, ◌≡◌, ◌≢◌, ◌⊎◌, inl, inr, refl, arith, Bool-cases, ◌==◌,
  string_eq,
}
use union_csi.Csi.{ControllerUnpublishVolumeRequest}
use union_csi.Csi.Status.{Code, invalid_argument, not_found, internal, Reply, replied, status}
use union_csi.Csi.Validation.{validate_controller_unpublish_volume_request}
use union_csi.Csi.Validators.{controller_unpublish_volume_request_validate}
use union_csi.Csi.Controller.{unpublish_reply, controller_unpublish_volume}
use union_csi.Csi.Controller.Publish.{IsForeign, find_split_foreign, find_node_foreign}
use union_csi.Failure.{
  Err, node_not_found, volume_not_found, attachment_not_found, is, is-sentinel, Result, ok, err,
}
use union_csi.Kube.{VolumeSplit, Pod}
use union_csi.Kube.Cluster.{Cluster}
use union_csi.Kube.Cluster.Laws.{IsLister, IsRetryLoop}
use union_csi.Union.{Volume, new_volume_from_volume_split}
use union_csi.Union.Lower.{find_split}
use union_csi.Union.Attacher.{detach_lower, make_attach_pod_name}
use union_csi.Union.Attacher.Polling.{Cached}
use union_csi.Union.Attacher.Detaching.{
  Uncached, DetachOutcome, gone, missing, undeleted, elsewhere, refused, detach_outcome,
}

module _ (K : Cluster) (req : ControllerUnpublishVolumeRequest) where
  -- The attach pod of a volume and the node that the volume is to be detached from.
  abbrev pub pod_name : Volume → String
  pod_name volume = make_attach_pod_name K volume.volume_id

  -- The volume of the split that is read for the request in the world w0.
  abbrev pub Requested : K.World → Volume → Type 0
  Requested w0 volume =
      (split : VolumeSplit) × ((find_split K req.volume_id w0).0 ≡ ok split)
      × (volume ≡ new_volume_from_volume_split split)

  -- The world in which the split of the volume has been read, from the world of the call.
  abbrev pub read : K.World → K.World
  read w0 = (find_split K req.volume_id w0).1

  -- What `ControllerUnpublishVolume`, called in w0, answers in a world w. That a volume is detached
  -- it says where the cache has no attach pod of it in the end, where the cache had none once the
  -- split was read, where the cache had it on the node but the API has none to delete, or where the
  -- pod does not stand on the node that was named.
  pub data UnpublishOutcome (w0 : K.World) (r : Reply (Unit {0})) (w : K.World) : Type 0 where
    detached :
        (volume : Volume)
        → Requested w0 volume
        → Uncached K req.node_id (pod_name volume) volume.namespace w
        → r ≡ replied tt
        → UnpublishOutcome w0 r w
    no_pod :
        (volume : Volume)
        → Requested w0 volume
        → Uncached K req.node_id (pod_name volume) volume.namespace (read w0)
        → r ≡ replied tt
        → UnpublishOutcome w0 r w
    undeletable :
        (volume : Volume) (pod : Pod) (e : Err)
        → Requested w0 volume
        → Cached K req.node_id (pod_name volume) volume.namespace (read w0) pod
        → pod.spec.node_name ≡ req.node_id
        → (K.delete_pod volume.namespace (pod_name volume) (read w0)).0 ≡ some e
        → K.is_not_found e ≡ true
        → r ≡ replied tt
        → UnpublishOutcome w0 r w
    away :
        (volume : Volume) (pod : Pod)
        → Requested w0 volume
        → Cached K req.node_id (pod_name volume) volume.namespace w pod
        → pod.spec.node_name ≢ req.node_id
        → r ≡ replied tt
        → UnpublishOutcome w0 r w
    failed :
        (c : Code)
        → (c ≡ invalid_argument) ⊎ ((c ≡ not_found) ⊎ (c ≡ internal))
        → r ≡ status c
        → UnpublishOutcome w0 r w

  unpublish_other :
      (w0 : K.World) (e : Err) (w : K.World) (r : Reply (Unit {0}))
      → is e attachment_not_found ≡ false
      → r ≡ unpublish_reply (err e)
      → UnpublishOutcome w0 r w
  unfolding unpublish_reply
  unpublish_other w0 e w r other same =
      elim (Bool-cases (is e volume_not_found || is e node_not_found)) [
        | inl lacks ↦ failed not_found (inr (inl refl)) (ground (arith, other, lacks))
        | inr fine ↦ failed internal (inr (inr refl)) (ground (arith, other, fine))
      ]

  unpublish_detached :
      (w0 : K.World) (volume : Volume) (r : Result (Unit {0})) (w : K.World)
      → Requested w0 volume
      → DetachOutcome K req.node_id (pod_name volume) volume.namespace (read w0) r w
      → UnpublishOutcome w0 (unpublish_reply r) w
  unfolding unpublish_reply is
  unpublish_detached w0 volume r w asked (gone absent e) = detached volume asked absent (rw e refl)
  unpublish_detached w0 volume r w asked (missing x answer absent e) =
      no_pod volume asked (x, answer, absent) (rw e refl)
  unpublish_detached w0 volume r w asked (undeleted pod x cached here refusal absent e) =
      undeletable volume pod x asked cached here refusal absent (rw e refl)
  unpublish_detached w0 volume r w asked (elsewhere pod cached other e) =
      away volume pod asked cached other (ground (arith, e, is-sentinel attachment_not_found))
  unpublish_detached w0 volume r w asked (refused x other e) =
      unpublish_other w0 x w (unpublish_reply r) other (rw e refl)

  module _ (X : IsForeign K) where
    detach_lower_outcome :
        IsLister K
        → IsRetryLoop K
        → req.node_id ≢ ""
        → (w : K.World)
        → let r = detach_lower K req.volume_id req.node_id w in
          UnpublishOutcome w (unpublish_reply r.0) r.1
    unfolding detach_lower unpublish_reply is
    detach_lower_outcome L R named w =
        elim (find_split_foreign K X attachment_not_found req.volume_id w refl) [
          | inr (e, bad, other) ↦ unpublish_other w e _ _ other (ground (arith, bad))
          | inl (split, found) ↦
              let w' = (find_split K req.volume_id w).1 in
              elim (find_node_foreign K X attachment_not_found req.node_id w' refl) [
                | inr (e, bad, other) ↦ unpublish_other w e _ _ other (ground (arith, found, bad))
                | inl there ↦
                    rw (found, there)
                      (unpublish_detached w (new_volume_from_volume_split split) _ _
                        (split, found, refl)
                        (detach_outcome K (new_volume_from_volume_split split) req.node_id L R named
                          w').0)
              ]
        ]

    invalid :
        (x : Reply (Unit {0}) × K.World) (w : K.World)
        → x ≡ (status invalid_argument, w)
        → UnpublishOutcome w x.0 x.1
    invalid x w e = rw e (failed invalid_argument (inl refl) refl)

    -- `ControllerUnpublishVolume` never panics, whatever the API and the caches answer and however the
    -- cluster changes while it waits. It answers that the volume is detached only where the cache has
    -- no attach pod of the requested volume in the end, the cache had none once the split was read,
    -- the cache had it on the node but the API has no pod of that namespace and name to delete, or the
    -- pod does not stand on the node that was named.
    pub controller_unpublish_volume_outcome :
        IsLister K
        → IsRetryLoop K
        → (w : K.World) → let r = controller_unpublish_volume K req w in UnpublishOutcome w r.0 r.1
    unfolding controller_unpublish_volume controller_unpublish_volume_request_validate
        validate_controller_unpublish_volume_request
    controller_unpublish_volume_outcome L R w = elim (Bool-cases (req.volume_id == "")) [
      | inl unnamed ↦ invalid _ w (ground (arith, unnamed))
      | inr named ↦ elim (Bool-cases (req.node_id == "")) [
        | inl nowhere ↦ invalid _ w (ground (arith, named, nowhere))
        | inr somewhere ↦
            rw (named, somewhere) (detach_lower_outcome L R (ground (arith, somewhere)) w)
      ]
    ]
