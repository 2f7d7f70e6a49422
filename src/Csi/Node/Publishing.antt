-- ===== src/Csi/Node/Publishing.antt =====
-- What `NodePublishVolume` mounts.
use union_csi.Base.{
  String, Option, some, ◌≡◌, ◌≢◌, refl, arith, Bool-cases, Option-cases, ◌⊎◌, inl, inr, is_empty,
}
use union_csi.Csi.{VolumeCapability, NodePublishVolumeRequest}
use union_csi.Csi.Status.{Code, invalid_argument, internal, Reply, replied, status}
use union_csi.Csi.Validation.Correct.{IsCapability, capability, block_given, mount_given}
use union_csi.Csi.Validators.{NodeValidator}
use union_csi.Csi.Validators.Modes.{accepts, refuses}
use union_csi.Csi.Validators.Node.{node_publish_volume_request_validate-Verdict}
use union_csi.Csi.Controller.{path_publish_context_key}
use union_csi.Csi.Node.{lookup, publish_options, mount_reply, publish_from, node_publish_volume}
use union_csi.Failure.{Result, ok, err, panic}
use union_csi.Mount.{PublishOptions, MountUtils, publish}
use union_csi.Mount.Publishing.{IsMountTable, publish_lem, publish_total}

module _ (U : MountUtils) (device : U.World → String → Option String) (T : IsMountTable U device)
    (req : NodePublishVolumeRequest) where
  -- How `NodePublishVolume` ends: the volume of the publish context is mounted at the target; or an
  -- error is answered. Every mount is kept.
  pub data NodeOutcome (w : U.World) (r : Reply (Unit {0})) (w' : U.World) : Type 0 where
    mounted :
        (source : String)
        → lookup req.publish_context path_publish_context_key ≡ some source
        → device w' req.target_path ≡ device w source
        → ((p d : String) → device w p ≡ some d → device w' p ≡ some d)
        → r ≡ replied tt
        → NodeOutcome w r w'
    failed :
        (c : Code)
        → ((p d : String) → device w p ≡ some d → device w' p ≡ some d)
        → r ≡ status c
        → NodeOutcome w r w'

  -- The options of a capability that passed the validation are set.
  options_cases :
      {o : Option VolumeCapability}
      → IsCapability o
      → o ≡ req.volume_capability
      → (publish_options req ≡ status invalid_argument)
        ⊎ ((p : PublishOptions) × (publish_options req ≡ replied (some p)))
  unfolding publish_options
  options_cases (capability block_given known) e = inl (rw (← e) refl)
  options_cases (capability (mount_given {v = m}) known) e = inr (
    record { fs_type = m.fs_type; read_only = req.readonly; mount_options = m.mount_flags },
    rw (← e) refl,
  )

  refused :
      (w : U.World) (x : Reply (Unit {0}) × U.World)
      → x ≡ (status invalid_argument, w)
      → NodeOutcome w x.0 x.1
  refused w x e = rw e (failed invalid_argument (λ p d h. h) refl)

  mount_reply_outcome :
      (source : String) (w : U.World) (r : Result (Unit {0})) (w' : U.World)
      → lookup req.publish_context path_publish_context_key ≡ some source
      → r ≢ panic
      → ((p d : String) → device w p ≡ some d → device w' p ≡ some d)
      → (r ≡ ok tt → device w' req.target_path ≡ device w source)
      → NodeOutcome w (mount_reply r) w'
  unfolding mount_reply
  mount_reply_outcome source w (ok u) w' found total keeps binds =
      mounted source found (binds refl) keeps refl
  mount_reply_outcome source w (err e) w' found total keeps binds = failed internal keeps refl
  mount_reply_outcome source w panic w' found total keeps binds = absurd (total refl)

  publish_outcome :
      (source : String) (p : PublishOptions) (w : U.World)
      → lookup req.publish_context path_publish_context_key ≡ some source
      → let r = publish U source req.target_path (some p) w in NodeOutcome w (mount_reply r.0) r.1
  publish_outcome source p w found =
      let (keeps, binds) = publish_lem U device T source req.target_path (some p) w in
      mount_reply_outcome source w _ _ found (publish_total U source req.target_path p w) keeps
        binds

  publish_from_outcome :
      (source : String) (w : U.World)
      → IsCapability req.volume_capability
      → lookup req.publish_context path_publish_context_key ≡ some source
      → let r = publish_from U req source w in NodeOutcome w r.0 r.1
  unfolding publish_from
  publish_from_outcome source w good found = elim (options_cases good refl) [
    | inl e ↦ refused w _ (ground (arith, e))
    | inr (p, e) ↦ rw (e, publish_from) (publish_outcome source p w found)
  ]

  -- `NodePublishVolume` never panics. When it succeeds, the device that is mounted at the path in the
  -- publish context is mounted at the target path. Whatever it answers, every path that was mounted
  -- is mounted as before.
  pub node_publish_volume_outcome :
      (v : NodeValidator) (w : U.World)
      → let r = node_publish_volume U v req w in NodeOutcome w r.0 r.1
  unfolding node_publish_volume
  node_publish_volume_outcome v w = elim (node_publish_volume_request_validate-Verdict v req) [
    | refuses n e ↦ refused w _ (ground (arith, e))
    | accepts good e ↦ elim (Bool-cases (is_empty req.publish_context)) [
      | inl empty ↦ refused w _ (ground (arith, e, empty))
      | inr given ↦ elim (Option-cases (lookup req.publish_context path_publish_context_key)) [
        | inl none_ ↦ refused w _ (ground (arith, e, given, none_))
        | inr (source, found) ↦
            rw (e, given, found, node_publish_volume) (publish_from_outcome source w good.0.3 found)
      ]
    ]
  ]
