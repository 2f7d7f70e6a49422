-- ===== src/Kube/Cluster/Memory/Laws.antt =====
-- The cluster in memory has the documented behaviour.
use union_csi.Base.{
  ℕ, zero, suc, String, true, false, none, some, List, [], ◌∷◌, ◌≡◌, refl, arith, ◌==◌, string_eq,
  is_some, if◌then◌else◌, ◌&&◌,
}
use union_csi.Kube.{VolumeSplit, PersistentVolumeClaim}
use union_csi.Kube.Cluster.{Polled, polled, crashed, Condition}
use union_csi.Kube.Cluster.Laws.{
  IsClassifier, IsAnswer, found, failed, IsLister, Waited, done, broke, fell, again, stopped,
  IsRetryLoop,
}
use union_csi.Kube.Cluster.Apart.{Untouched, Untouched-refl, Untouched-trans, IsApart}
use union_csi.Kube.Cluster.Store.{View, IsSplitStore, IsClaimStore, IsHealthy}
use union_csi.Kube.Cluster.Working.{IsWorking}
use union_csi.Kube.Cluster.Memory.{
  Store, post_split, fetch_split, remove_split, post_claim, remove_claim, post_pod, remove_pod,
  has_node, has_reason, find_split, drop_split, find_claim, drop_claim, retry, find_pod, pause,
  listed, missing, existing, memory,
}

pub memory-IsClassifier : IsClassifier memory
unfolding post_split fetch_split remove_split post_claim remove_claim post_pod remove_pod has_node
    find_split drop_split find_claim drop_claim find_pod has_reason retry
memory-IsClassifier = record {
  not_found-sentinel = λ s. refl;
  not_found-errorf = λ s. refl;
  not_found-wrap_first = λ a b. refl;
  not_found-wrap_both = λ a b. refl;
}

abbrev pub memory_view : View memory
memory_view = record {
  splits = λ w n. find_split n w.splits;
  claims = λ w ns n. is_some (find_claim ns n w.claims);
}

find_split-drop_split :
    (n m : String) (ss : List VolumeSplit)
    → find_split m (drop_split n ss) ≡ (if m == n then none else find_split m ss)
unfolding find_split drop_split
find_split-drop_split n m [] = ground arith
find_split-drop_split n m (s ∷ ss) = ground (arith, find_split-drop_split n m ss)

find_claim-drop_claim_self :
    (ns n : String) (cs : List PersistentVolumeClaim) → find_claim ns n (drop_claim ns n cs) ≡ none
unfolding find_claim drop_claim
find_claim-drop_claim_self ns n [] = refl
find_claim-drop_claim_self ns n (c ∷ cs) = ground (arith, find_claim-drop_claim_self ns n cs)

find_claim-drop_claim_none :
    (ns n ms m : String) (cs : List PersistentVolumeClaim)
    → is_some (find_claim ms m cs) ≡ false
    → is_some (find_claim ms m (drop_claim ns n cs)) ≡ false
unfolding find_claim drop_claim
find_claim-drop_claim_none ns n ms m [] h = refl
find_claim-drop_claim_none ns n ms m (c ∷ cs) h =
    ground (arith, find_claim-drop_claim_none ns n ms m cs)

find_claim-drop_claim_other :
    (ns n ms m : String) (cs : List PersistentVolumeClaim)
    → (ms == ns && m == n) ≡ false
    → is_some (find_claim ms m cs) ≡ true
    → is_some (find_claim ms m (drop_claim ns n cs)) ≡ true
unfolding find_claim drop_claim
find_claim-drop_claim_other ns n ms m [] other h = h
find_claim-drop_claim_other ns n ms m (c ∷ cs) other h =
    ground (arith, find_claim-drop_claim_other ns n ms m cs)

module _ {C : Type 0} (poll : Condition Store C) where
  -- One poll, when the later ones are runs of the loop.
  retry_step-Waited :
      (n : ℕ) (w : Store) (c : C)
      → ((c' : C) → let r = retry n poll (pause w) c' in Waited poll n (pause w) c' r.0 r.1 r.2)
      → (answer : Polled) → (poll w c).0 ≡ answer
      → let r = retry (suc n) poll w c in Waited poll (suc n) w c r.0 r.1 r.2
  unfolding retry
  retry_step-Waited n w c later crashed e = rw (e, retry) (fell e refl)
  retry_step-Waited n w c later (polled b (some x)) e = rw (e, retry) (broke e refl)
  retry_step-Waited n w c later (polled true none) e = rw (e, retry) (done e refl)
  retry_step-Waited n w c later (polled false none) e =
      rw (e, retry) (again e refl (later (poll w c).1))

  pub retry-Waited :
      (n : ℕ) (w : Store) (c : C) → let r = retry n poll w c in Waited poll n w c r.0 r.1 r.2
  unfolding retry
  retry-Waited zero w c = stopped
  retry-Waited (suc n) w c =
      retry_step-Waited n w c (λ c'. retry-Waited n (pause w) c') (poll w c).0 refl

pub memory-IsRetryLoop : IsRetryLoop memory
unfolding post_split fetch_split remove_split post_claim remove_claim post_pod remove_pod has_node
    find_split drop_split find_claim drop_claim find_pod has_reason retry
memory-IsRetryLoop = record { runs = λ C b poll w c. retry-Waited poll b.steps w c }

pub memory-IsLister : IsLister memory
unfolding post_split fetch_split remove_split post_claim remove_claim post_pod remove_pod has_node
    find_split drop_split find_claim drop_claim find_pod has_reason retry
memory-IsLister = record {
  claim = λ ns n w. elim (find_claim ns n w.claims) as (λ o. IsAnswer (listed o)) [
    | none ↦ failed
    | some c ↦ found
  ];
  pod = λ ns n w. elim (find_pod ns n w.pods) as (λ o. IsAnswer (listed o)) [
    | none ↦ failed
    | some p ↦ found
  ];
}

pub memory-IsSplitStore : IsSplitStore memory memory_view
unfolding post_split fetch_split remove_split post_claim remove_claim post_pod remove_pod has_node
    find_split drop_split find_claim drop_claim find_pod has_reason retry
memory-IsSplitStore = record {
  get_found = λ n r w h. ground arith;
  get_missing = λ n r w h k. ground arith;
  get_failed = λ n r w h. ground arith;
  get-splits = λ n r w. ground arith;
  get-claims = λ n r w. ground arith;
  post_done = λ s r w n h. ground arith;
  post_refused = λ s r w h k. ground arith;
  post_keeps = λ s r w n h. ground arith;
  post-claims = λ s r w. ground arith;
  delete_done = λ n w h. ground (arith, find_split-drop_split n n w.splits);
  delete-splits_other = λ n m w h. ground (arith, find_split-drop_split n m w.splits);
  delete-claims = λ n w. ground arith;
}

pub memory-IsClaimStore : IsClaimStore memory memory_view
unfolding post_split fetch_split remove_split post_claim remove_claim post_pod remove_pod has_node
    find_split drop_split find_claim drop_claim find_pod has_reason retry
memory-IsClaimStore = record {
  create_done = λ ns c w h. ground arith;
  create_keeps = λ ns c w ms n h. ground arith;
  create_only = λ ns c w ms n h. ground arith;
  create-splits = λ ns c w. ground arith;
  delete_done = λ ns n w h. ground (arith, find_claim-drop_claim_self ns n w.claims);
  delete_missing = λ ns n w h k. ground arith;
  delete_only = λ ns n w ms m h. ground (arith, find_claim-drop_claim_none ns n ms m w.claims);
  delete_other =
      λ ns n w ms m other h. ground (arith, find_claim-drop_claim_other ns n ms m w.claims other);
  delete-splits = λ ns n w. ground arith;
}

pub memory-IsHealthy : IsHealthy memory memory_view
unfolding string_eq post_split fetch_split remove_split post_claim remove_claim post_pod remove_pod
    has_node find_split drop_split find_claim drop_claim find_pod has_reason retry
memory-IsHealthy = record {
  get_present = λ n r w h. ground arith;
  get_absent = λ n r w h. (missing, ground arith, refl);
  post_present = λ s r w h. (existing, ground arith, refl);
}

pub memory-IsWorking : IsWorking memory memory_view
unfolding string_eq post_split fetch_split remove_split post_claim remove_claim post_pod remove_pod
    has_node find_split drop_split find_claim drop_claim find_pod has_reason retry
memory-IsWorking = record {
  post_absent = λ s r w h. ground arith;
  delete_present = λ n w h. ground arith;
  lister_absent = λ ns n w h. (missing, ground arith, refl);
  create_absent = λ ns c w h. ground arith;
  delete_claim_present = λ ns n w h. ground arith;
  delete_claim_absent = λ ns n w h. (missing, ground arith, refl);
}

module _ {C : Type 0} (poll : Condition Store C) where
  pause-Untouched : (w : Store) → Untouched memory memory_view w (pause w)
  pause-Untouched w =
      elim w.schedule
        as (λ ps.
          Untouched memory memory_view w
            (elim ps [ [] ↦ w | qs ∷ rest ↦ record w { pods = qs; schedule = rest } ])) [
              | [] ↦ Untouched-refl memory memory_view w
              | qs ∷ rest ↦ record { splits = refl; claims = refl }
            ]

  -- One poll, when the later ones leave splits and claims alone.
  retry_step-Untouched :
      (n : ℕ) (w : Store) (c : C)
      → ((c' : C) → Untouched memory memory_view (pause w) (retry n poll (pause w) c').1)
      → (answer : Polled) → (poll w c).0 ≡ answer
      → Untouched memory memory_view w (retry (suc n) poll w c).1
  unfolding retry
  retry_step-Untouched n w c later crashed e = rw (e, retry) (Untouched-refl memory memory_view w)
  retry_step-Untouched n w c later (polled b (some x)) e =
      rw (e, retry) (Untouched-refl memory memory_view w)
  retry_step-Untouched n w c later (polled true none) e =
      rw (e, retry) (Untouched-refl memory memory_view w)
  retry_step-Untouched n w c later (polled false none) e =
      rw (e, retry) (Untouched-trans memory memory_view (pause-Untouched w) (later (poll w c).1))

  retry-Untouched :
      (n : ℕ) (w : Store) (c : C) → Untouched memory memory_view w (retry n poll w c).1
  unfolding retry
  retry-Untouched zero w c = Untouched-refl memory memory_view w
  retry-Untouched (suc n) w c =
      retry_step-Untouched n w c (λ c'. retry-Untouched n (pause w) c') (poll w c).0 refl

pub memory-IsApart : IsApart memory memory_view
unfolding post_pod remove_pod
memory-IsApart = record {
  create_pod = λ ns p w. record { splits = ground arith; claims = ground arith };
  delete_pod = λ ns n w. record { splits = ground arith; claims = ground arith };
  wait = λ C b poll w c. retry-Untouched poll b.steps w c;
}
