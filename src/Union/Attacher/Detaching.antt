-- ===== src/Union/Attacher/Detaching.antt =====
-- What `Detach` tells its caller, and what of it the cluster bears out.
use union_csi.Base.{
  ℕ, String, Bool, true, false, none, some, ◌≡◌, ◌≢◌, refl, ◌⊎◌, inl, inr, arith, Bool-cases,
  Option-cases, ◌==◌, ==_iff, string_eq,
}
use union_csi.Failure.{
  Err, sentinel, attachment_not_found, wrap_both, foreign, errorf, get_pod_failed,
  delete_pod_failed, is, Result, ok, err, after,
}
use union_csi.Kube.{Pod}
use union_csi.Kube.Cluster.{Cluster, Polled, polled, crashed, Condition}
use union_csi.Kube.Cluster.Laws.{
  IsAnswer, IsLister, Waited, done, broke, fell, again, stopped, IsRetryLoop,
}
use union_csi.Union.{Volume}
use union_csi.Union.Attacher.{
  make_attach_pod_name, detach_backoff, wait_for_detach_func, wait_for_detach, remove_pod,
  detach_pod, detach,
}
use union_csi.Union.Attacher.Polling.{Cached, answer_cases}

module _ (K : Cluster) (node name ns : String) where
  -- The cache has no such pod.
  abbrev pub Uncached : K.World → Type 0
  Uncached w = (e : Err) × (K.pod_lister ns name w ≡ (none, some e)) × (K.is_not_found e ≡ true)

  -- How a detachment that begins in a world w0 ends, in a world w: the pod is gone; the cache had none
  -- at the start; the cache had it on the node, but the API, asked to delete it, has none; it stands
  -- on another node; or another error.
  pub data DetachOutcome (w0 : K.World) (r : Result (Unit {0})) (w : K.World) : Type 0 where
    gone : Uncached w → r ≡ ok tt → DetachOutcome w0 r w
    missing :
        (e : Err)
        → K.pod_lister ns name w0 ≡ (none, some e)
        → K.is_not_found e ≡ true
        → r ≡ err (wrap_both (sentinel attachment_not_found) e)
        → DetachOutcome w0 r w
    undeleted :
        (pod : Pod) (e : Err)
        → Cached K node name ns w0 pod
        → pod.spec.node_name ≡ node
        → (K.delete_pod ns name w0).0 ≡ some e
        → K.is_not_found e ≡ true
        → r ≡ err (wrap_both (sentinel attachment_not_found) e)
        → DetachOutcome w0 r w
    elsewhere :
        (pod : Pod)
        → Cached K node name ns w pod
        → pod.spec.node_name ≢ node
        → r ≡ err (sentinel attachment_not_found)
        → DetachOutcome w0 r w
    refused : (e : Err) → is e attachment_not_found ≡ false → r ≡ err e → DetachOutcome w0 r w

  abbrev poll_detach : Condition K.World (Unit {0})
  poll_detach = wait_for_detach_func K node name ns

  -- The verdicts of one poll.
  data DetachVerdict (w : K.World) (answer : Polled) : Type 0 where
    waits : answer ≡ polled false none → DetachVerdict w answer
    vanished : Uncached w → answer ≡ polled true none → DetachVerdict w answer
    moved :
        (pod : Pod)
        → Cached K node name ns w pod
        → pod.spec.node_name ≢ node
        → answer ≡ polled false (some (sentinel attachment_not_found))
        → DetachVerdict w answer
    ends : answer ≡ polled false (some (errorf get_pod_failed)) → DetachVerdict w answer

  poll_detach-DetachVerdict :
      (w : K.World) (u : Unit {0})
      → IsAnswer (K.pod_lister ns name w)
      → DetachVerdict w (poll_detach w u).0
  unfolding wait_for_detach_func
  poll_detach-DetachVerdict w u answer = elim (answer_cases answer) [
    | inl (pod, cached) ↦ elim (Bool-cases (pod.spec.node_name == node)) [
      | inl same ↦ waits (ground (arith, cached, same))
      | inr other ↦ moved pod cached (ground (arith, other)) (ground (arith, cached, other))
    ]
    | inr (e, h) ↦ elim (Bool-cases (K.is_not_found e)) [
      | inl absent ↦ vanished (e, h, absent) (ground (arith, h, absent))
      | inr other ↦ ends (ground (arith, h, other))
    ]
  ]

  -- From the verdict of the last poll.
  verdict_done :
      {w0 : K.World} (w : K.World) (answer : Polled)
      → DetachVerdict w answer
      → answer ≡ polled true none
      → DetachOutcome w0 (ok tt) w
  verdict_done w answer (vanished absent p) e = gone absent refl
  verdict_done w answer (waits p) e = absurd (ground arith)
  verdict_done w answer (moved pod cached other p) e = absurd (ground arith)
  verdict_done w answer (ends p) e = absurd (ground arith)

  verdict_broke :
      {w0 : K.World} (w : K.World) (answer : Polled) (b : Bool) (x : Err)
      → DetachVerdict w answer
      → answer ≡ polled b (some x)
      → DetachOutcome w0 (err x) w
  unfolding is
  verdict_broke w answer b x (vanished absent p) e = absurd (ground arith)
  verdict_broke w answer b x (waits p) e = absurd (ground arith)
  verdict_broke w answer b x (moved pod cached other p) e =
      elsewhere pod cached other (ground arith)
  verdict_broke w answer b x (ends p) e = refused (errorf get_pod_failed) refl (ground arith)

  verdict_crashed : (w : K.World) (answer : Polled) → DetachVerdict w answer → answer ≢ crashed
  verdict_crashed w answer (vanished absent p) e = ground arith
  verdict_crashed w answer (waits p) e = ground arith
  verdict_crashed w answer (moved pod cached other p) e = ground arith
  verdict_crashed w answer (ends p) e = ground arith

  detach_wait :
      {w0 : K.World}
      → IsLister K
      → {n : ℕ} {w w' : K.World} {c c' : Unit {0}} {r : Result (Unit {0})}
      → Waited poll_detach n w c r w' c'
      → DetachOutcome w0 r w'
  unfolding is
  detach_wait L (done {w = w} {c = c} e k) =
      verdict_done w _ (poll_detach-DetachVerdict w c (L.pod ns name w)) e
  detach_wait L (broke {w = w} {c = c} {b = b} {e = x} e k) =
      verdict_broke w _ b x (poll_detach-DetachVerdict w c (L.pod ns name w)) e
  detach_wait L (fell {w = w} {c = c} e k) =
      absurd (verdict_crashed w _ (poll_detach-DetachVerdict w c (L.pod ns name w)) e)
  detach_wait L (again e k rest) = detach_wait L rest
  detach_wait L (stopped {text = text}) = refused (foreign text) refl refl

  wait_for_detach_outcome :
      {w0 : K.World}
      → IsLister K
      → IsRetryLoop K
      → (w : K.World) → let r = wait_for_detach K node name ns w in DetachOutcome w0 r.0 r.1
  unfolding wait_for_detach
  wait_for_detach_outcome L R w = detach_wait L (R.runs (Unit {0}) detach_backoff poll_detach w tt)

  -- The deletion succeeds or fails in one of two ways.
  remove_pod_ends :
      (pod : Pod) (w : K.World)
      → let r = (remove_pod K name ns pod w).0 in
        (r ≡ ok tt)
        ⊎ (((e : Err) × ((K.delete_pod ns name w).0 ≡ some e)
              × (K.is_not_found e ≡ true)
              × (r ≡ err (wrap_both (sentinel attachment_not_found) e)))
            ⊎ (r ≡ err (errorf delete_pod_failed)))
  unfolding remove_pod
  remove_pod_ends pod w = elim (Option-cases pod.deletion_timestamp) [
    | inr (t, deleting) ↦ inl (ground (arith, deleting))
    | inl live ↦ elim (Option-cases (K.delete_pod ns name w).0) [
      | inl e ↦ inl (ground (arith, live, e))
      | inr (x, e) ↦ elim (Bool-cases (K.is_not_found x)) [
        | inl absent ↦ inr (inl (x, e, absent, ground (arith, live, e, absent)))
        | inr other ↦ inr (inr (ground (arith, live, e, other)))
      ]
    ]
  ]

  wait_after_removal :
      IsLister K
      → IsRetryLoop K
      → (pod : Pod) (w : K.World) → Cached K node name ns w pod
      → pod.spec.node_name ≡ node
      → let r =
          after
            (remove_pod K name ns pod w).0
            (λ _. wait_for_detach K node name ns)
            (remove_pod K name ns pod w).1 in
        DetachOutcome w r.0 r.1
  unfolding is
  wait_after_removal L R pod w cached here = elim (remove_pod_ends pod w) [
    | inl e ↦ rw e (wait_for_detach_outcome L R (remove_pod K name ns pod w).1)
    | inr (inl (x, asked, absent, e)) ↦ undeleted pod x cached here asked absent (rw e refl)
    | inr (inr e) ↦ refused (errorf delete_pod_failed) refl (rw e refl)
  ]

  -- The cluster is left alone, unless the pod stands on the node in the cache.
  abbrev pub IsSpared : K.World → K.World → Type 0
  IsSpared w w' =
      (w' ≡ w) ⊎ ((pod : Pod) × Cached K node name ns w pod × (pod.spec.node_name ≡ node))

  detach_pod_outcome :
      IsLister K
      → IsRetryLoop K
      → (pod : Pod) (w : K.World) → node ≢ ""
      → Cached K node name ns w pod
      → let r = detach_pod K name ns node pod w in DetachOutcome w r.0 r.1 × IsSpared w r.1
  unfolding detach_pod
  detach_pod_outcome L R pod w named cached = elim (Bool-cases (pod.spec.node_name == "")) [
    | inl unset ↦ (
      elsewhere pod (ground (arith, unset, cached)) (ground (arith, unset)) (ground (arith, unset)),
      inl (ground (arith, unset)),
    )
    | inr set ↦ elim (Bool-cases (pod.spec.node_name == node)) [
      | inr other ↦ (
        elsewhere pod (ground (arith, set, other, cached)) (ground (arith, other))
            (ground (arith, set, other)),
        inl (ground (arith, set, other)),
      )
      | inl same ↦
          let on_node : pod.spec.node_name ≡ node = (==_iff _ _).0 same in
          (rw (set, same) (wait_after_removal L R pod w cached on_node), inr (pod, cached, on_node))
    ]
  ]

detach_present :
    (K : Cluster) (volume : Volume) (node : String) (pod : Pod) (w : K.World)
    → let name = make_attach_pod_name K volume.volume_id in
      K.pod_lister volume.namespace name w ≡ (some pod, none)
      → detach K volume node w ≡ detach_pod K name volume.namespace node pod w
unfolding detach
detach_present K volume node pod w h = ground arith

pub detach_outcome :
    (K : Cluster) (volume : Volume) (node : String)
    → IsLister K
    → IsRetryLoop K
    → node ≢ ""
    → (w : K.World)
    → let name = make_attach_pod_name K volume.volume_id in
      let r = detach K volume node w in
      DetachOutcome K node name volume.namespace w r.0 r.1
      × IsSpared K node name volume.namespace w r.1
unfolding detach is
detach_outcome K volume node L R named w =
    let name = make_attach_pod_name K volume.volume_id in
    elim (answer_cases (L.pod volume.namespace name w)) [
      | inl (pod, cached) ↦
          rw (detach_present K volume node pod w cached)
            (detach_pod_outcome K node name volume.namespace L R pod w named cached)
      | inr (e, h) ↦ elim (Bool-cases (K.is_not_found e)) [
        | inl absent ↦ (missing e h absent (ground (arith, h, absent)), inl (ground (arith, h)))
        | inr other ↦ (
          refused (errorf get_pod_failed) refl (ground (arith, h, other)),
          inl (ground (arith, h)),
        )
      ]
    ]
