-- ===== src/Union/Attacher/Liveness.antt =====
-- `Attach` succeeds where the attach pod comes to run on the node in time.
use union_csi.Base.{
  [], ◌∷◌, ℕ, zero, suc, String, true, false, Option, none, some, ◌≡◌, ◌⊎◌, inl, inr, refl, arith,
  Option-cases, ==_iff, string_eq,
}
use union_csi.Failure.{Err, Result, ok}
use union_csi.Kube.{Pod}
use union_csi.Kube.Cluster.{Cluster, polled, Condition}
use union_csi.Kube.Cluster.Patience.{Polls, done, broke, fell, again, used_up, IsPatient}
use union_csi.Union.{Volume}
use union_csi.Union.Attacher.{
  is_pod_running, is_pod_terminating, make_host_path, make_attach_pod_name, attach_backoff,
  attach_result, after_wait, poll_pod, wait_for_attach_func, create_pod, ensure_pod, attach,
}
use union_csi.Union.Attacher.Outcome.{Runs, attachment_at, finish, wait_for_attach-finish}
use union_csi.Union.Attacher.Polling.{Cached}
use union_csi.Union.Pod

module _ (K : Cluster) (volume : Volume) (node : String) (Next : K.World → K.World → Type 0) where
  abbrev name : String
  name = make_attach_pod_name K volume.volume_id

  -- The attach pod runs on the node, and is not being deleted.
  pub record IsHere (w : K.World) (pod : Pod) : Type 0 where
    pub runs : Runs K volume node w pod
    pub stays : is_pod_terminating pod ≡ false
    pub on_node : pod.spec.node_name ≡ node

  -- The cache has no attach pod, or one that does not run yet.
  pub data IsAwaited (w : K.World) : Type 0 where
    missing :
        (e : Err)
        → K.pod_lister volume.namespace name w ≡ (none, some e)
        → K.is_not_found e ≡ true
        → IsAwaited w
    idle :
        (pod : Pod)
        → Cached K node name volume.namespace w pod
        → is_pod_terminating pod ≡ false
        → is_pod_running pod ≡ false
        → IsAwaited w

  -- However the world changes in the pauses, one of the next n polls finds the attach pod running on
  -- the node, and those before it find nothing else to report.
  abbrev pub Comes : ℕ → K.World → Type 0
  Comes zero w = ⊥
  Comes (suc n) w =
      ((pod : Pod) × IsHere w pod) ⊎ (IsAwaited w × ((w' : K.World) → Next w w' → Comes n w'))

  abbrev poll : Condition K.World (Option Pod)
  poll = wait_for_attach_func K node name volume.namespace

  poll_here :
      (w : K.World) (c : Option Pod) (pod : Pod)
      → IsHere w pod
      → poll w c ≡ (polled true none, some pod)
  unfolding wait_for_attach_func poll_pod
  poll_here w c pod h =
      ground (arith, h.runs.0, h.runs.1, h.stays, h.on_node, (==_iff pod.spec.node_name node).1)

  poll_awaits : (w : K.World) (c : Option Pod) → IsAwaited w → (poll w c).0 ≡ polled false none
  unfolding wait_for_attach_func poll_pod
  poll_awaits w c (missing e answer absent) = ground (arith, answer, absent)
  poll_awaits w c (idle pod cached stays not_yet) = ground (arith, cached, stays, not_yet)

  -- How the loop then ends.
  Found : Result (Unit {0}) → K.World → Option Pod → Type 0
  Found r w c = (pod : Pod) × IsHere w pod × (r ≡ ok tt) × (c ≡ some pod)

  loop_finds :
      {n : ℕ} {w w' : K.World} {c c' : Option Pod} {r : Result (Unit {0})}
      → Polls Next poll n w c r w' c'
      → Comes n w
      → Found r w' c'
  unfolding Found
  loop_finds (done {w = w} {c = c} e k) (inl (pod, h)) =
      (pod, h, refl, ground (arith, k, poll_here w c pod h))
  loop_finds (done {w = w} {c = c} e k) (inr (a, later)) =
      absurd (ground (arith, e, poll_awaits w c a))
  loop_finds (broke {w = w} {c = c} e k) (inl (pod, h)) =
      absurd (ground (arith, e, poll_here w c pod h))
  loop_finds (broke {w = w} {c = c} e k) (inr (a, later)) =
      absurd (ground (arith, e, poll_awaits w c a))
  loop_finds (fell {w = w} {c = c} e k) (inl (pod, h)) =
      absurd (ground (arith, e, poll_here w c pod h))
  loop_finds (fell {w = w} {c = c} e k) (inr (a, later)) =
      absurd (ground (arith, e, poll_awaits w c a))
  loop_finds (again {w = w} {c = c} e k step rest) (inl (pod, h)) =
      absurd (ground (arith, e, poll_here w c pod h))
  loop_finds (again {w' = w'} e k step rest) (inr (a, later)) = loop_finds rest (later w' step)
  loop_finds used_up never = absurd never

  -- The cache can be read, and the API makes the pod or has it already.
  pub record IsReady (w : K.World) : Type 0 where
    pub readable :
        (e : Err) → (K.pod_lister volume.namespace name w).1 ≡ some e → K.is_not_found e ≡ true
    pub accepted :
        (p : Pod) (e : Err)
        → (K.create_pod volume.namespace p w).0 ≡ some e
        → K.is_already_exists e ≡ true

  create_pod_succeeds :
      (path : String) (w : K.World) → IsReady w → (create_pod K name volume node path w).0 ≡ ok tt
  unfolding create_pod
  create_pod_succeeds path w h =
      let pod = Pod.create name volume.namespace volume.claim_names path volume.volume_id in
      let bound = record pod {
        spec = record (pod.spec) { node_selector = ("kubernetes.io/hostname", node) ∷ [] };
      } in
      elim (Option-cases (K.create_pod volume.namespace bound w).0) [
        | inl fine ↦ ground (arith, fine)
        | inr (e, failed) ↦ ground (arith, failed, h.accepted bound e failed)
      ]

  ensure_pod_succeeds :
      (path : String) (w : K.World) → IsReady w → (ensure_pod K name volume node path w).0 ≡ ok tt
  unfolding ensure_pod
  ensure_pod_succeeds path w h =
      let made = create_pod_succeeds path w h in
      elim (Option-cases (K.pod_lister volume.namespace name w).1) [
        | inl fine ↦ ground (arith, fine, made)
        | inr (e, failed) ↦ ground (arith, failed, h.readable e failed, made)
      ]

  finish_here :
      (pod : Pod)
      → pod.spec.node_name ≡ node
      → finish K volume node (ok tt) (some pod) ≡ ok (some (attachment_at K volume node node), none)
  unfolding finish after_wait attach_result
  finish_here pod e = rw e refl

  -- The world in which `Attach` begins to wait.
  abbrev pub waiting : K.World → K.World
  waiting w = (ensure_pod K name volume node (make_host_path volume.volume_id) w).1

  -- Where the cache can be read and the API makes the attach pod or has it already, the wait is not
  -- cancelled, and one of its polls finds the pod running on the node, those before it having
  -- nothing to report, `Attach` answers with an attachment at that node.
  pub attach_live :
      IsPatient K Next
      → (w : K.World) → IsReady w
      → Comes attach_backoff.steps (waiting w)
      → (attach K volume node w).0 ≡ ok (some (attachment_at K volume node node), none)
  unfolding attach Found
  attach_live L w ready comes =
      let (pod, h, succeeds, kept) =
        loop_finds (L.polls (Option Pod) attach_backoff poll (waiting w) none) comes in
      rw (ensure_pod_succeeds (make_host_path volume.volume_id) w ready, attach)
        (rw (wait_for_attach-finish K volume node (waiting w))
          (rw (succeeds, kept) (finish_here pod h.on_node)))
