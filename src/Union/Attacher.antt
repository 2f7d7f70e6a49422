-- ===== src/Union/Attacher.antt =====
-- pkg/union/attacher.go, and `AttachLower` and `DetachLower` of pkg/union/union.go.
pub mod Polling
pub mod Outcome
pub mod Liveness
pub mod Samples
pub mod Detaching
pub mod Apart
use mathlib.Core.Option
use union_csi.Base.{
  String, ◌<>◌, Bool, true, false, not, ◌&&◌, ◌||◌, Option, none, some, [], ◌∷◌, ◌==◌, string_eq,
  is_some, if◌then◌else◌,
}
use union_csi.Base.Text.{join_path}
use union_csi.Failure.{
  Err, sentinel, errorf, wrap_first, wrap_both, node_not_found, attachment_not_found, volume_in_use,
  get_pod_failed, create_pod_failed, delete_pod_failed, pod_terminating, is, Result, ok, err, panic,
  Act, ◌>>=◌, ◌>>◌, pure, fail,
}
use union_csi.Kube.{Pod}
use union_csi.Kube.Cluster.{Cluster, Backoff, Polled, polled, crashed, Condition}
use union_csi.Union.{Volume, VolumeAttachment, new_volume_from_volume_split}
use union_csi.Union.Lower.{find_split, get_node_local}
use union_csi.Union.Pod

-- `v1.PodRunning`, `v1.PodFailed` and `v1.PodSucceeded`
abbrev pub pod_running : String
pod_running = "Running"

abbrev pub pod_failed : String
pod_failed = "Failed"

abbrev pub pod_succeeded : String
pod_succeeded = "Succeeded"

unfoldable pub is_pod_terminating : Pod → Bool
is_pod_terminating pod = pod.phase == pod_failed || pod.phase == pod_succeeded

unfoldable pub is_pod_running : Pod → Bool
is_pod_running pod = not (pod.spec.node_name == "") && pod.phase == pod_running

unfoldable pub make_host_path : String → String
unfolding join_path
make_host_path volume_id =
    join_path ("/var/lib/union-csi-driver.union.io/volumes" ∷ volume_id ∷ "merged" ∷ [])

-- What a function that returns `(*VolumeAttachment, error)` gives where both may be set.
abbrev pub Attached : Type 0
Attached = Option VolumeAttachment × Option Err

-- The steps are polls, and the durations are milliseconds.
abbrev pub attach_backoff : Backoff
attach_backoff = record { duration_ms = 1000; factor_tenths = 15; steps = 12 }

abbrev pub detach_backoff : Backoff
detach_backoff = record { duration_ms = 1000; factor_tenths = 20; steps = 12 }

-- `err != nil && !apierrors.IsNotFound(err)`
abbrev is_other_error : Cluster → Option Err → Bool
is_other_error K none = false
is_other_error K (some e) = not (K.is_not_found e)

module _ (K : Cluster) where
  -- The text is hashed to hexadecimal digits.
  unfoldable pub make_attach_pod_name : String → String
  make_attach_pod_name volume_id = "attach-pod-" <> K.sha256_hex volume_id

  -- What the condition of `waitForAttach` says of a pod that is in the cache.
  unfoldable pub poll_pod : String → Pod → Polled
  poll_pod expected_node_id pod =
      if is_pod_terminating pod
      then polled false (some (errorf pod_terminating))
      else if not (is_pod_running pod)
      then polled false none
      else if not (pod.spec.node_name == expected_node_id)
      then polled true (some (sentinel volume_in_use))
      else polled true none

  -- The condition assigns the variable `pod` of the function around it, also to nil.
  unfoldable pub wait_for_attach_func : String → String → String → Condition K.World (Option Pod)
  wait_for_attach_func expected_node_id pod_name pod_namespace w pod =
      let got = K.pod_lister pod_namespace pod_name w in
      (
        elim got.1 [
          | some e ↦
              if not (K.is_not_found e)
              then polled false (some (errorf get_pod_failed))
              else polled false none
          | none ↦ elim got.0 [ none ↦ crashed | some p ↦ poll_pod expected_node_id p ]
        ],
        got.0,
      )

  -- The result of `waitForAttach`, which reads the pod that the last poll left.
  unfoldable pub attach_result : String → Option Pod → Option Err → Result Attached
  attach_result volume_id none wait_err = panic
  attach_result volume_id (some pod) wait_err = ok (
    some (record { volume_id = volume_id; node_id = pod.spec.node_name; host_path = "" }),
    wait_err,
  )

  -- The error of the retry loop is passed on alone unless it is `ErrVolumeInUse`.
  unfoldable pub after_wait : String → Result (Unit {0}) → Option Pod → Result Attached
  after_wait volume_id (ok _) pod = attach_result volume_id pod none
  after_wait volume_id (err e) pod =
      if not (is e volume_in_use) then ok (none, some e) else attach_result volume_id pod (some e)
  after_wait volume_id panic pod = panic

  unfoldable pub wait_for_attach : String → String → String → String → Act K.World Attached
  wait_for_attach volume_id expected_node_id pod_name pod_namespace w =
      let waited =
        K.exponential_backoff (Option Pod) attach_backoff
          (wait_for_attach_func expected_node_id pod_name pod_namespace) w none in
      (after_wait volume_id waited.0 waited.2, waited.1)

  -- A new attach pod. That it exists already is no error.
  unfoldable pub create_pod : String → Volume → String → String → Act K.World (Unit {0})
  create_pod pod_name volume node_id host_path w =
      let pod =
        Pod.create pod_name volume.namespace volume.claim_names host_path volume.volume_id in
      let bound = record pod {
        spec = record (pod.spec) { node_selector = ("kubernetes.io/hostname", node_id) ∷ [] };
      } in
      let made = K.create_pod volume.namespace bound w in
      elim made.0 [
        | none ↦ (ok tt, made.1)
        | some e ↦ (if K.is_already_exists e then ok tt else err (errorf create_pod_failed), made.1)
      ]

  -- The part of `Attach` that sees to it that there is a pod.
  unfoldable pub ensure_pod : String → Volume → String → String → Act K.World (Unit {0})
  ensure_pod pod_name volume node_id host_path w =
      let got = K.pod_lister volume.namespace pod_name w in
      if is_other_error K got.1
      then (err (errorf get_pod_failed), w)
      else if is_some got.0
      then (ok tt, w)
      else create_pod pod_name volume node_id host_path w

  unfoldable pub attach : Volume → String → Act K.World Attached
  attach volume node_id = do
    let pod_name = make_attach_pod_name volume.volume_id
    let host_path = make_host_path volume.volume_id
    ensure_pod pod_name volume node_id host_path
    attached ← wait_for_attach volume.volume_id node_id pod_name volume.namespace
    pure (
      Option.map {A = VolumeAttachment} (λ a. record a { host_path = host_path }) attached.0,
      attached.1,
    )

  -- `waitForDetach` keeps nothing between polls.
  unfoldable pub wait_for_detach_func : String → String → String → Condition K.World (Unit {0})
  wait_for_detach_func expected_node_id pod_name pod_namespace w _ =
      let got = K.pod_lister pod_namespace pod_name w in
      (
        elim got.1 [
          | some e ↦
              if not (K.is_not_found e)
              then polled false (some (errorf get_pod_failed))
              else polled true none
          | none ↦ elim got.0 [
            | none ↦ crashed
            | some p ↦
                if not (p.spec.node_name == expected_node_id)
                then polled false (some (sentinel attachment_not_found))
                else polled false none
          ]
        ],
        tt,
      )

  unfoldable pub wait_for_detach : String → String → String → Act K.World (Unit {0})
  wait_for_detach expected_node_id pod_name pod_namespace w =
      let waited =
        K.exponential_backoff (Unit {0}) detach_backoff
          (wait_for_detach_func expected_node_id pod_name pod_namespace) w tt in
      (waited.0, waited.1)

  -- The deletion in `Detach`, which a pod that is being deleted already does not get again.
  unfoldable pub remove_pod : String → String → Pod → Act K.World (Unit {0})
  remove_pod pod_name namespace pod w =
      if is_some pod.deletion_timestamp
      then (ok tt, w)
      else let gone = K.delete_pod namespace pod_name w in
        (
          elim gone.0 [
            | none ↦ ok tt
            | some e ↦
                if K.is_not_found e
                then err (wrap_both (sentinel attachment_not_found) e)
                else err (errorf delete_pod_failed)
          ],
          gone.1,
        )

  -- `Detach` of a pod that the cache holds.
  unfoldable pub detach_pod : String → String → String → Pod → Act K.World (Unit {0})
  detach_pod pod_name namespace node_id pod =
      if pod.spec.node_name == ""
      then fail (sentinel attachment_not_found)
      else if not (pod.spec.node_name == node_id)
      then fail (sentinel attachment_not_found)
      else (do remove_pod pod_name namespace pod; wait_for_detach node_id pod_name namespace)

  unfoldable pub detach : Volume → String → Act K.World (Unit {0})
  detach volume node_id w =
      let pod_name = make_attach_pod_name volume.volume_id in
      let got = K.pod_lister volume.namespace pod_name w in
      elim got.1 [
        | some e ↦ (
          if K.is_not_found e
              then err (wrap_both (sentinel attachment_not_found) e)
              else err (errorf get_pod_failed),
          w,
        )
        | none ↦ elim got.0 [
          | none ↦ (panic, w)
          | some pod ↦ detach_pod pod_name volume.namespace node_id pod w
        ]
      ]

  -- `getNodeLocal` and what `AttachLower` and `DetachLower` make of its error.
  unfoldable pub find_node : String → Act K.World (Unit {0})
  find_node node_id w = elim (get_node_local K node_id w) [
    | none ↦ (ok tt, w)
    | some e ↦ (err (if K.is_not_found e then wrap_first (sentinel node_not_found) e else e), w)
  ]

  unfoldable pub attach_lower : String → String → Act K.World Attached
  attach_lower volume_id node_id = do
    split ← find_split K volume_id
    find_node node_id
    attach (new_volume_from_volume_split split) node_id

  unfoldable pub detach_lower : String → String → Act K.World (Unit {0})
  detach_lower volume_id node_id = do
    split ← find_split K volume_id
    find_node node_id
    detach (new_volume_from_volume_split split) node_id
