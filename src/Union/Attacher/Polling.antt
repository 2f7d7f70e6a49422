-- ===== src/Union/Attacher/Polling.antt =====
-- How the waits of the attacher end.
use union_csi.Base.{
  ℕ, String, Bool, true, false, Option, none, some, ◌≡◌, ◌≢◌, refl, ◌⊎◌, inl, inr, arith,
  Bool-cases, ◌==◌, ==_iff, string_eq,
}
use union_csi.Failure.{
  Err, sentinel, volume_in_use, foreign, errorf, get_pod_failed, pod_terminating, is, Result, ok,
  err,
}
use union_csi.Kube.{Pod}
use union_csi.Kube.Cluster.{Cluster, Polled, polled, crashed, Condition}
use union_csi.Kube.Cluster.Laws.{
  IsAnswer, found, failed, IsLister, Waited, done, broke, fell, again, stopped,
}
use union_csi.Union.Attacher.{is_pod_running, is_pod_terminating, poll_pod, wait_for_attach_func}

-- An answer of a lister, as an equation.
pub answer_cases :
    {A : Type 0} {x : Option A × Option Err}
    → IsAnswer x
    → ((a : A) × (x ≡ (some a, none))) ⊎ ((e : Err) × (x ≡ (none, some e)))
answer_cases (found {a = a}) = inl (a, refl)
answer_cases (failed {e = e}) = inr (e, refl)

module _ (K : Cluster) (node name ns : String) where
  -- The pod stands in the cache.
  abbrev pub Cached : K.World → Pod → Type 0
  Cached w pod = K.pod_lister ns name w ≡ (some pod, none)

  -- How `waitForAttach` may leave its retry loop, with the pod that it keeps.
  pub data AttachWait (r : Result (Unit {0})) (w : K.World) (kept : Option Pod) : Type 0 where
    running :
        (pod : Pod)
        → Cached w pod
        → kept ≡ some pod
        → is_pod_running pod ≡ true
        → pod.spec.node_name ≡ node
        → r ≡ ok tt
        → AttachWait r w kept
    elsewhere :
        (pod : Pod)
        → Cached w pod
        → kept ≡ some pod
        → is_pod_running pod ≡ true
        → pod.spec.node_name ≢ node
        → r ≡ err (sentinel volume_in_use)
        → AttachWait r w kept
    gave_up : (e : Err) → is e volume_in_use ≡ false → r ≡ err e → AttachWait r w kept

  abbrev poll_attach : Condition K.World (Option Pod)
  poll_attach = wait_for_attach_func K node name ns

  -- What one poll says, from what the lister answers.
  poll_found :
      (w : K.World) (c : Option Pod) (pod : Pod)
      → Cached w pod
      → (poll_attach w c ≡ (poll_pod K node pod, some pod))
  unfolding wait_for_attach_func
  poll_found w c pod h = ground arith

  poll_failed :
      (w : K.World) (c : Option Pod) {e : Err}
      → K.pod_lister ns name w ≡ (none, some e)
      → ((poll_attach w c).0 ≡ polled false none)
        ⊎ ((x : Err) × ((poll_attach w c).0 ≡ polled false (some x)) × (is x volume_in_use ≡ false))
  unfolding wait_for_attach_func is
  poll_failed w c {e} h = elim (Bool-cases (K.is_not_found e)) [
    | inl missing ↦ inl (ground (arith, missing))
    | inr other ↦ inr (errorf get_pod_failed, ground (arith, other), refl)
  ]

  -- The verdicts on a pod.
  data PodVerdict (pod : Pod) (answer : Polled) : Type 0 where
    waits : answer ≡ polled false none → PodVerdict pod answer
    here :
        is_pod_running pod ≡ true
        → pod.spec.node_name ≡ node
        → answer ≡ polled true none
        → PodVerdict pod answer
    away :
        is_pod_running pod ≡ true
        → pod.spec.node_name ≢ node
        → answer ≡ polled true (some (sentinel volume_in_use))
        → PodVerdict pod answer
    ends : answer ≡ polled false (some (errorf pod_terminating)) → PodVerdict pod answer

  poll_pod_verdict : (pod : Pod) → PodVerdict pod (poll_pod K node pod)
  unfolding poll_pod
  poll_pod_verdict pod = elim (Bool-cases (is_pod_terminating pod)) [
    | inl dead ↦ ends (ground (arith, dead))
    | inr alive ↦ elim (Bool-cases (is_pod_running pod)) [
      | inr idle ↦ waits (ground (arith, alive, idle))
      | inl runs ↦ elim (Bool-cases (pod.spec.node_name == node)) [
        | inl same ↦ here runs ((==_iff _ _).0 same) (ground (arith, alive, runs, same))
        | inr other ↦ away runs (ground (arith, other)) (ground (arith, alive, runs, other))
      ]
    ]
  ]

  -- A poll that ends the loop justifies what the loop gives.
  poll_done :
      (w : K.World) (c c' : Option Pod)
      → IsAnswer (K.pod_lister ns name w)
      → (poll_attach w c).0 ≡ polled true none
      → (poll_attach w c).1 ≡ c'
      → AttachWait (ok tt) w c'
  poll_done w c c' answer e kept = elim (answer_cases answer) [
    | inl (pod, cached) ↦
        let step = poll_found w c pod cached in
        elim (poll_pod_verdict pod) [
          | waits p ↦ absurd (ground (arith, step))
          | here runs same p ↦ running pod cached (ground (arith, step)) runs same refl
          | away runs other p ↦ absurd (ground (arith, step))
          | ends p ↦ absurd (ground (arith, step))
        ]
    | inr (x, h) ↦ elim (poll_failed w c h) [
      | inl p ↦ absurd (ground arith)
      | inr (y, p, q) ↦ absurd (ground arith)
    ]
  ]

  poll_broke :
      (w : K.World) (c c' : Option Pod) (b : Bool) (x : Err)
      → IsAnswer (K.pod_lister ns name w)
      → (poll_attach w c).0 ≡ polled b (some x)
      → (poll_attach w c).1 ≡ c'
      → AttachWait (err x) w c'
  unfolding is
  poll_broke w c c' b x answer e kept = elim (answer_cases answer) [
    | inl (pod, cached) ↦
        let step = poll_found w c pod cached in
        elim (poll_pod_verdict pod) [
          | waits p ↦ absurd (ground (arith, step))
          | here runs same p ↦ absurd (ground (arith, step))
          | away runs other p ↦
              elsewhere pod cached (ground (arith, step)) runs other (ground (arith, step))
          | ends p ↦ gave_up (errorf pod_terminating) refl (ground (arith, step))
        ]
    | inr (y, h) ↦ elim (poll_failed w c h) [
      | inl p ↦ absurd (ground arith)
      | inr (z, p, q) ↦ gave_up z q (ground arith)
    ]
  ]

  poll_crashed :
      (w : K.World) (c : Option Pod)
      → IsAnswer (K.pod_lister ns name w)
      → (poll_attach w c).0 ≢ crashed
  poll_crashed w c answer e = elim (answer_cases answer) [
    | inl (pod, cached) ↦
        let step = poll_found w c pod cached in
        elim (poll_pod_verdict pod) [
          | waits p ↦ ground (arith, step)
          | here runs same p ↦ ground (arith, step)
          | away runs other p ↦ ground (arith, step)
          | ends p ↦ ground (arith, step)
        ]
    | inr (y, h) ↦ elim (poll_failed w c h) [ inl p ↦ ground arith | inr (z, p, q) ↦ ground arith ]
  ]

  -- Every run of the loop ends in one of the three ways, and never in a panic.
  pub attach_wait :
      IsLister K
      → {n : ℕ} {w w' : K.World} {c c' : Option Pod} {r : Result (Unit {0})}
      → Waited (wait_for_attach_func K node name ns) n w c r w' c'
      → AttachWait r w' c'
  unfolding is
  attach_wait L (done {w = w} {c = c} {c' = c'} e k) = poll_done w c c' (L.pod ns name w) e k
  attach_wait L (broke {w = w} {c = c} {c' = c'} {b = b} {e = x} e k) =
      poll_broke w c c' b x (L.pod ns name w) e k
  attach_wait L (fell {w = w} {c = c} e k) = absurd (poll_crashed w c (L.pod ns name w) e)
  attach_wait L (again e k rest) = attach_wait L rest
  attach_wait L (stopped {text = text}) = gave_up (foreign text) refl refl
