-- ===== src/Csi/Controller/Publish.antt =====
-- `ControllerPublishVolume` never panics, and what it answers about the attach pod.
use union_csi.Base.{
  String, false, ◌||◌, none, some, List, [], ◌∷◌, ◌≡◌, ◌≢◌, ◌⊎◌, inl, inr, refl, arith, Bool-cases,
  Option-cases,
}
use union_csi.Csi.{ControllerPublishVolumeRequest}
use union_csi.Csi.Status.{
  Code, invalid_argument, failed_precondition, not_found, internal, Reply, replied, status,
}
use union_csi.Csi.Validators.Modes.{
  accepts, refuses, controller_publish_volume_request_validate-Verdict,
}
use union_csi.Csi.Controller.{
  ControllerServer, publish_error, publish_reply, path_publish_context_key,
  controller_publish_volume,
}
use union_csi.Failure.{
  Sentinel, Err, sentinel, wrap_first, wrap_both, node_not_found, volume_not_found, volume_in_use,
  is, is-sentinel, Result, ok, err,
}
use union_csi.Kube.{VolumeSplit, Pod}
use union_csi.Kube.Cluster.{Cluster}
use union_csi.Kube.Cluster.Laws.{IsLister, IsRetryLoop}
use union_csi.Union.{Volume, new_volume_from_volume_split}
use union_csi.Union.Splitter.{make_split_name, empty_split}
use union_csi.Union.Splits.{get_split, volume_splits_get}
use union_csi.Union.Lower.{find_split, get_node_local}
use union_csi.Union.Attacher.{Attached, find_node, attach_lower, make_host_path}
use union_csi.Union.Attacher.Outcome.{
  Runs, AttachOutcome, attached, in_use, refused, attach_outcome,
}

-- The errors of the API and of the caches are none of the driver's.
pub record IsForeign (K : Cluster) : Type 0 where
  pub get :
      (n : String) (r : VolumeSplit) (w : K.World) (t : Sentinel) {e : Err}
      → (K.rest_get n r w).0.1 ≡ some e
      → is e t ≡ false
  pub node :
      (n : String) (w : K.World) (t : Sentinel) {e : Err}
      → K.node_lister n w ≡ some e
      → is e t ≡ false

-- How the split and the node of a request are looked up, where the errors of the API are not `t`.
module _ (K : Cluster) (X : IsForeign K) (t : Sentinel) where
  pub find_split_foreign :
      (v : String) (w : K.World)
      → is (sentinel volume_not_found) t ≡ false
      → ((split : VolumeSplit) × ((find_split K v w).0 ≡ ok split))
        ⊎ ((e : Err) × ((find_split K v w).0 ≡ err e) × (is e t ≡ false))
  unfolding find_split get_split volume_splits_get is
  find_split_foreign v w apart =
      elim (Option-cases (K.rest_get (make_split_name v) empty_split w).0.1) [
        | inl e ↦ inl ((K.rest_get (make_split_name v) empty_split w).0.0, ground (arith, e))
        | inr (x, e) ↦
            let other = X.get (make_split_name v) empty_split w t e in
            elim (Bool-cases (K.is_not_found x)) [
              | inl missing ↦ inr (
                wrap_both (sentinel volume_not_found) x,
                ground (arith, e, missing),
                ground (arith, other, apart),
              )
              | inr bad ↦ inr (x, ground (arith, e, bad), other)
            ]
      ]

  pub find_node_foreign :
      (n : String) (w : K.World)
      → is (sentinel node_not_found) t ≡ false
      → (find_node K n w ≡ (ok tt, w))
        ⊎ ((e : Err) × (find_node K n w ≡ (err e, w)) × (is e t ≡ false))
  unfolding find_node get_node_local is
  find_node_foreign n w apart = elim (Option-cases (K.node_lister n w)) [
    | inl e ↦ inl (ground (arith, e))
    | inr (x, e) ↦
        let other = X.node n w t e in
        elim (Bool-cases (K.is_not_found x)) [
          | inl missing ↦
              inr (wrap_first (sentinel node_not_found) x, ground (arith, e, missing), apart)
          | inr bad ↦ inr (x, ground (arith, e, bad), other)
        ]
  ]

module _ (K : Cluster) (req : ControllerPublishVolumeRequest) where
  -- The volume of the split that is read for the request in the world w0.
  abbrev pub Requested : K.World → Volume → Type 0
  Requested w0 volume =
      (split : VolumeSplit) × ((find_split K req.volume_id w0).0 ≡ ok split)
      × (volume ≡ new_volume_from_volume_split split)

  -- What `ControllerPublishVolume`, called in the world w0, answers in the world w: the path on the node that was asked for,
  -- where the volume's attach pod runs; a failed precondition, where that pod runs elsewhere; or
  -- another error.
  pub data PublishOutcome (w0 : K.World) (r : Reply (List (String × String))) (w : K.World)
      : Type 0 where
    published :
        (volume : Volume) (pod : Pod)
        → Requested w0 volume
        → Runs K volume req.node_id w pod
        → pod.spec.node_name ≡ req.node_id
        → r ≡ replied ((path_publish_context_key, make_host_path volume.volume_id) ∷ [])
        → PublishOutcome w0 r w
    elsewhere :
        (volume : Volume) (pod : Pod)
        → Requested w0 volume
        → Runs K volume req.node_id w pod
        → pod.spec.node_name ≢ req.node_id
        → r ≡ status failed_precondition
        → PublishOutcome w0 r w
    failed :
        (c : Code)
        → (c ≡ invalid_argument) ⊎ ((c ≡ not_found) ⊎ (c ≡ internal))
        → r ≡ status c
        → PublishOutcome w0 r w

  publish_other :
      (w0 : K.World) (e : Err) (w : K.World) (r : Reply (List (String × String)))
      → is e volume_in_use ≡ false
      → r ≡ publish_error none e
      → PublishOutcome w0 r w
  unfolding publish_error
  publish_other w0 e w r other same =
      elim (Bool-cases (is e volume_not_found || is e node_not_found)) [
        | inl missing ↦ failed not_found (inr (inl refl)) (ground (arith, other, missing))
        | inr else_ ↦ failed internal (inr (inr refl)) (ground (arith, other, else_))
      ]

  -- From the outcome of `Attach`.
  publish_attached :
      (w0 : K.World) (volume : Volume) (r : Result Attached) (w : K.World)
      → Requested w0 volume
      → AttachOutcome K volume req.node_id r w
      → PublishOutcome w0 (publish_reply r) w
  unfolding publish_reply publish_error
  publish_attached w0 volume r w asked (attached pod runs same e) =
      published volume pod asked runs same (rw e refl)
  publish_attached w0 volume r w asked (in_use pod runs other e) =
      elsewhere volume pod asked runs other (ground (arith, e, is-sentinel volume_in_use))
  publish_attached w0 volume r w asked (refused x other (inl e)) =
      publish_other w0 x w (publish_reply r) other (rw e refl)
  publish_attached w0 volume r w asked (refused x other (inr e)) =
      publish_other w0 x w (publish_reply r) other (rw e refl)

  module _ (X : IsForeign K) where
    attach_lower_outcome :
        IsLister K
        → IsRetryLoop K
        → (w : K.World)
        → let r = attach_lower K req.volume_id req.node_id w in
          PublishOutcome w (publish_reply r.0) r.1
    unfolding attach_lower publish_reply is
    attach_lower_outcome L R w = elim (find_split_foreign K X volume_in_use req.volume_id w refl) [
      | inr (e, failed_, other) ↦ publish_other w e _ _ other (ground (arith, failed_))
      | inl (split, found) ↦
          let w' = (find_split K req.volume_id w).1 in
          elim (find_node_foreign K X volume_in_use req.node_id w' refl) [
            | inr (e, failed_, other) ↦ publish_other w e _ _ other (ground (arith, found, failed_))
            | inl there ↦
                rw (found, there)
                  (publish_attached w (new_volume_from_volume_split split) _ _ (split, found, refl)
                    (attach_outcome K (new_volume_from_volume_split split) req.node_id L R w'))
          ]
    ]

    -- `ControllerPublishVolume` never panics, whatever the API and the caches answer and however the
    -- cluster changes while it waits. It answers with the path of the volume on the node only where
    -- the volume's attach pod runs on that node in the end, and with a failed precondition only where
    -- the pod runs on another node.
    pub controller_publish_volume_outcome :
        IsLister K
        → IsRetryLoop K
        → (s : ControllerServer) (w : K.World)
        → let r = controller_publish_volume K s req w in PublishOutcome w r.0 r.1
    unfolding controller_publish_volume
    controller_publish_volume_outcome L R s w =
        elim (controller_publish_volume_request_validate-Verdict s.validator req) [
          | refuses n e ↦ failed invalid_argument (inl refl) (ground (arith, e))
          | accepts good e ↦ rw e (attach_lower_outcome L R w)
        ]
