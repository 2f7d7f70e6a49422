-- ===== src/Union/Attacher/Outcome.antt =====
-- What `Attach` tells its caller, and what of it the cluster bears out.
use mathlib.Core.Option
use union_csi.Base.{String, true, false, Option, none, some, ◌≡◌, ◌≢◌, refl, ◌⊎◌, inl, inr, arith}
use union_csi.Failure.{
  Err, sentinel, volume_in_use, errorf, get_pod_failed, create_pod_failed, is, is-sentinel, Result,
  ok, err, panic, after,
}
use union_csi.Kube.{Pod}
use union_csi.Kube.Cluster.{Cluster}
use union_csi.Kube.Cluster.Laws.{IsLister, IsRetryLoop}
use union_csi.Union.{Volume, VolumeAttachment}
use union_csi.Union.Attacher.{
  Attached, is_pod_running, make_host_path, make_attach_pod_name, attach_backoff, attach_result,
  after_wait, wait_for_attach_func, wait_for_attach, create_pod, ensure_pod, attach,
}
use union_csi.Union.Attacher.Polling.{Cached, AttachWait, running, elsewhere, gave_up, attach_wait}

module _ (K : Cluster) (volume : Volume) (node : String) where
  -- The attach pod of the volume runs in the cluster, as the cache has it.
  abbrev pub Runs : K.World → Pod → Type 0
  Runs w pod =
      Cached K node (make_attach_pod_name K volume.volume_id) volume.namespace w pod
      × (is_pod_running pod ≡ true)

  abbrev pub attachment_at : String → VolumeAttachment
  attachment_at node_id = record {
    volume_id = volume.volume_id;
    node_id = node_id;
    host_path = make_host_path volume.volume_id;
  }

  -- The three ways in which `Attach` ends, in a world w.
  pub data AttachOutcome (r : Result Attached) (w : K.World) : Type 0 where
    attached :
        (pod : Pod)
        → Runs w pod
        → pod.spec.node_name ≡ node
        → r ≡ ok (some (attachment_at node), none)
        → AttachOutcome r w
    in_use :
        (pod : Pod)
        → Runs w pod
        → pod.spec.node_name ≢ node
        → r ≡ ok (some (attachment_at pod.spec.node_name), some (sentinel volume_in_use))
        → AttachOutcome r w
    refused :
        (e : Err)
        → is e volume_in_use ≡ false
        → (r ≡ err e) ⊎ (r ≡ ok (none, some e))
        → AttachOutcome r w

  abbrev add_path : Attached → Attached
  add_path a = (
    Option.map {A = VolumeAttachment}
        (λ v. record v { host_path = make_host_path volume.volume_id }) a.0,
    a.1,
  )

  -- Seeing to the pod succeeds, or fails with one of two errors.
  ensure_pod_ends :
      (name path : String) (w : K.World)
      → ((ensure_pod K name volume node path w).0 ≡ ok tt)
        ⊎ (((ensure_pod K name volume node path w).0 ≡ err (errorf get_pod_failed))
            ⊎ ((ensure_pod K name volume node path w).0 ≡ err (errorf create_pod_failed)))
  unfolding ensure_pod create_pod
  ensure_pod_ends name path w = ground arith

  -- What `waitForAttach` makes of the end of its loop, with the path that `Attach` adds.
  unfoldable pub finish : Result (Unit {0}) → Option Pod → Result Attached
  finish r kept = elim (after_wait K volume.volume_id r kept) [
    | ok a ↦ ok (add_path a)
    | err e ↦ err e
    | panic ↦ panic
  ]

  finish_outcome :
      (r : Result (Unit {0})) (w : K.World) (kept : Option Pod)
      → AttachWait K node (make_attach_pod_name K volume.volume_id) volume.namespace r w kept
      → AttachOutcome (finish r kept) w
  unfolding finish after_wait attach_result
  finish_outcome r w kept (running pod cached keeps runs same e) =
      attached pod (cached, runs) same (rw (e, keeps, same) refl)
  finish_outcome r w kept (elsewhere pod cached keeps runs other e) =
      in_use pod (cached, runs) other (ground (arith, e, keeps, is-sentinel volume_in_use))
  finish_outcome r w kept (gave_up x not_it e) = refused x not_it (inr (ground (arith, e, not_it)))

  pub wait_for_attach-finish :
      (w : K.World)
      → let name = make_attach_pod_name K volume.volume_id in
        let waited =
          K.exponential_backoff
            (Option Pod)
            attach_backoff
            (wait_for_attach_func K node name volume.namespace)
            w
            none in
        let r = wait_for_attach K volume.volume_id node name volume.namespace w in
        after r.0 (λ a w'. (ok (add_path a), w')) r.1 ≡ (finish waited.0 waited.2, waited.1)
  unfolding wait_for_attach finish
  wait_for_attach-finish w = ground arith

  -- `Attach` ends in one of three ways, whatever the API and the caches answer and however the
  -- cluster changes while it waits. It reports an attachment at the node it was asked for exactly
  -- where the attach pod runs there in the end; that the volume is in use, with the node where the
  -- attach pod runs instead; or another error. It never dereferences a nil pod.
  pub attach_outcome :
      IsLister K
      → IsRetryLoop K
      → (w : K.World) → AttachOutcome (attach K volume node w).0 (attach K volume node w).1
  unfolding attach is
  attach_outcome L R w =
      let name = make_attach_pod_name K volume.volume_id in
      let path = make_host_path volume.volume_id in
      let w' = (ensure_pod K name volume node path w).1 in
      elim (ensure_pod_ends name path w) [
        | inl e ↦
            rw (e, attach)
              (rw (wait_for_attach-finish w') (
                finish_outcome _ _ _ (
                  attach_wait K node name volume.namespace L (
                    R.runs (Option Pod) attach_backoff
                      (wait_for_attach_func K node name volume.namespace) w' none))))
        | inr (inl e) ↦ refused (errorf get_pod_failed) refl (inl (ground (arith, e)))
        | inr (inr e) ↦ refused (errorf create_pod_failed) refl (inl (ground (arith, e)))
      ]
