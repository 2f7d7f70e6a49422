-- ===== src/Union/Attacher/Apart.antt =====
-- `AttachLower` and `DetachLower` touch neither splits nor lower claims.
use union_csi.Base.{
  [], ◌∷◌, String, none, inl, inr, arith, Bool-cases, Option-cases, ◌==◌, string_eq,
}
use union_csi.Failure.{Act, ◌>>=◌}
use union_csi.Kube.{Pod}
use union_csi.Kube.Cluster.{Cluster}
use union_csi.Kube.Cluster.Apart.{Untouched, Untouched-refl, >>=-Untouched, IsApart}
use union_csi.Kube.Cluster.Store.{View, IsSplitStore}
use union_csi.Union.{Volume, new_volume_from_volume_split}
use union_csi.Union.Attacher.{
  create_pod, ensure_pod, wait_for_attach, attach, wait_for_detach, remove_pod, detach_pod, detach,
  find_node, attach_lower, detach_lower, make_attach_pod_name,
}
use union_csi.Union.Lower.{find_split}
use union_csi.Union.Pod
use union_csi.Union.Splits.{get_split, volume_splits_get}
use union_csi.Union.Splitter.{make_split_name, empty_split}

module _ (K : Cluster) (V : View K) (S : IsSplitStore K V) (A : IsApart K V) where
  find_split-Untouched : (v : String) (w : K.World) → Untouched K V w (find_split K v w).1
  unfolding find_split get_split volume_splits_get
  find_split-Untouched v w = record {
    splits = ground (arith, S.get-splits (make_split_name v) empty_split w);
    claims = ground (arith, S.get-claims (make_split_name v) empty_split w);
  }

  find_node-Untouched : (n : String) (w : K.World) → Untouched K V w (find_node K n w).1
  unfolding find_node
  find_node-Untouched n w = record { splits = ground arith; claims = ground arith }

  create_pod-Untouched :
      (p : String) (v : Volume) (n h : String) (w : K.World)
      → Untouched K V w (create_pod K p v n h w).1
  unfolding create_pod
  create_pod-Untouched p v n h w =
      let pod = Pod.create p v.namespace v.claim_names h v.volume_id in
      let bound = record pod {
        spec = record (pod.spec) { node_selector = ("kubernetes.io/hostname", n) ∷ [] };
      } in
      let made = A.create_pod v.namespace bound w in
      record { splits = ground (arith, made.splits); claims = ground (arith, made.claims) }

  ensure_pod-Untouched :
      (p : String) (v : Volume) (n h : String) (w : K.World)
      → Untouched K V w (ensure_pod K p v n h w).1
  unfolding ensure_pod
  ensure_pod-Untouched p v n h w =
      let made = create_pod-Untouched p v n h w in
      record { splits = ground (arith, made.splits); claims = ground (arith, made.claims) }

  wait_for_attach-Untouched :
      (v n p ns : String) (w : K.World) → Untouched K V w (wait_for_attach K v n p ns w).1
  unfolding wait_for_attach
  wait_for_attach-Untouched v n p ns w = A.wait _ _ _ w none

  attach-Untouched : (v : Volume) (n : String) (w : K.World) → Untouched K V w (attach K v n w).1
  unfolding attach
  attach-Untouched v n w =
      >>=-Untouched K V (ensure_pod K _ v n _) _ w (ensure_pod-Untouched _ v n _ w) λ _ w'.
        >>=-Untouched K V (wait_for_attach K v.volume_id n _ v.namespace) _ w'
          (wait_for_attach-Untouched _ n _ _ w') λ _ w''. Untouched-refl K V w''

  remove_pod-Untouched :
      (p ns : String) (pod : Pod) (w : K.World) → Untouched K V w (remove_pod K p ns pod w).1
  unfolding remove_pod
  remove_pod-Untouched p ns pod w =
      let gone = A.delete_pod ns p w in
      record { splits = ground (arith, gone.splits); claims = ground (arith, gone.claims) }

  detach_pod-Untouched :
      (p ns n : String) (pod : Pod) (w : K.World) → Untouched K V w (detach_pod K p ns n pod w).1
  unfolding detach_pod wait_for_detach
  detach_pod-Untouched p ns n pod w = elim (Bool-cases (pod.spec.node_name == "")) [
    | inl unbound ↦ rw (unbound, detach_pod) (Untouched-refl K V w)
    | inr bound ↦ elim (Bool-cases (pod.spec.node_name == n)) [
      | inr elsewhere ↦ rw (bound, elsewhere, detach_pod) (Untouched-refl K V w)
      | inl on_node ↦
          rw (bound, on_node, detach_pod)
            (>>=-Untouched K V (remove_pod K p ns pod) _ w (remove_pod-Untouched p ns pod w)
              λ _ w'. A.wait _ _ _ w' tt)
    ]
  ]

  detach-Untouched : (v : Volume) (n : String) (w : K.World) → Untouched K V w (detach K v n w).1
  unfolding detach
  detach-Untouched v n w =
      let got = K.pod_lister v.namespace (make_attach_pod_name K v.volume_id) w in
      elim (Option-cases got.1) [
        | inr (e, failed) ↦ rw (failed, detach) (Untouched-refl K V w)
        | inl fine ↦ elim (Option-cases got.0) [
          | inl nothing ↦ rw (fine, nothing, detach) (Untouched-refl K V w)
          | inr (pod, found) ↦ rw (fine, found, detach) (detach_pod-Untouched _ _ n pod w)
        ]
      ]

  -- What `AttachLower` and `DetachLower` have in common.
  with_node-Untouched :
      {B : Type 0} (v n : String) (last : Volume → Act K.World B) (w : K.World)
      → ((a : Volume) (w' : K.World) → Untouched K V w' (last a w').1)
      → Untouched K V w
          ((find_split K v >>= λ split.
              find_node K n >>= λ _. last (new_volume_from_volume_split split))
            w).1
  with_node-Untouched v n last w rest =
      >>=-Untouched K V (find_split K v) _ w (find_split-Untouched v w) λ split w'.
        >>=-Untouched K V (find_node K n) _ w' (find_node-Untouched n w') λ _ w''. rest _ w''

  pub attach_lower-Untouched :
      (v n : String) (w : K.World) → Untouched K V w (attach_lower K v n w).1
  unfolding attach_lower
  attach_lower-Untouched v n w =
      with_node-Untouched v n (λ a. attach K a n) w (λ a w'. attach-Untouched a n w')

  pub detach_lower-Untouched :
      (v n : String) (w : K.World) → Untouched K V w (detach_lower K v n w).1
  unfolding detach_lower
  detach_lower-Untouched v n w =
      with_node-Untouched v n (λ a. detach K a n) w (λ a w'. detach-Untouched a n w')
