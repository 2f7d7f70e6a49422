-- ===== src/Kube/Cluster/Store.antt =====
-- The API server as the driver's only client of VolumeSplits and lower claims sees it: what is
-- stored, and how each request reads or changes it. A request that fails with an error other than
-- "not found" or "already exists" may or may not have been carried out.
use union_csi.Base.{
  String, Bool, true, false, Option, none, some, ◌≡◌, ◌⊎◌, ◌==◌, ◌&&◌, string_eq, if◌then◌else◌,
}
use union_csi.Failure.{Err}
use union_csi.Kube.{VolumeSplit, PersistentVolumeClaim}
use union_csi.Kube.Cluster.{Cluster}

-- The stored splits by name, and the stored claims by namespace and name.
pub record View (K : Cluster) : Type 0 where
  pub splits : K.World → String → Option VolumeSplit
  pub claims : K.World → String → String → Bool

module _ (K : Cluster) (V : View K) where
  open V use {splits, claims}

  pub record IsSplitStore : Type 0 where
    pub get_found :
        (n : String) (r : VolumeSplit) (w : K.World)
        → (K.rest_get n r w).0.1 ≡ none
        → splits w n ≡ some (K.rest_get n r w).0.0
    pub get_missing :
        (n : String) (r : VolumeSplit) (w : K.World) {e : Err}
        → (K.rest_get n r w).0.1 ≡ some e
        → K.is_not_found e ≡ true
        → splits w n ≡ none
    -- an object that could not be read is left as it was
    pub get_failed :
        (n : String) (r : VolumeSplit) (w : K.World) {e : Err}
        → (K.rest_get n r w).0.1 ≡ some e
        → (K.rest_get n r w).0.0 ≡ r
    pub get-splits :
        (n : String) (r : VolumeSplit) (w : K.World) → splits (K.rest_get n r w).1 ≡ splits w
    pub get-claims :
        (n : String) (r : VolumeSplit) (w : K.World) → claims (K.rest_get n r w).1 ≡ claims w
    pub post_done :
        (s r : VolumeSplit) (w : K.World) (n : String)
        → (K.rest_post s r w).0.1 ≡ none
        → splits (K.rest_post s r w).1 n ≡ (if n == s.name then some s else splits w n)
    pub post_refused :
        (s r : VolumeSplit) (w : K.World) {e : Err}
        → (K.rest_post s r w).0.1 ≡ some e
        → K.is_already_exists e ≡ true
        → splits (K.rest_post s r w).1 ≡ splits w
    -- a post never replaces another split
    pub post_keeps :
        (s r : VolumeSplit) (w : K.World) (n : String) {t : VolumeSplit}
        → splits w n ≡ some t
        → splits (K.rest_post s r w).1 n ≡ some t
    pub post-claims : (s r : VolumeSplit) (w : K.World) → claims (K.rest_post s r w).1 ≡ claims w
    pub delete_done :
        (n : String) (w : K.World)
        → (K.rest_delete n w).0 ≡ none
        → splits (K.rest_delete n w).1 n ≡ none
    pub delete-splits_other :
        (n m : String) (w : K.World)
        → (m == n) ≡ false
        → splits (K.rest_delete n w).1 m ≡ splits w m
    pub delete-claims : (n : String) (w : K.World) → claims (K.rest_delete n w).1 ≡ claims w

  pub record IsClaimStore : Type 0 where
    pub create_done :
        (ns : String) (c : PersistentVolumeClaim) (w : K.World)
        → (K.create_claim ns c w).0 ≡ none
        → claims (K.create_claim ns c w).1 ns c.name ≡ true
    pub create_keeps :
        (ns : String) (c : PersistentVolumeClaim) (w : K.World) (ms n : String)
        → claims w ms n ≡ true
        → claims (K.create_claim ns c w).1 ms n ≡ true
    pub create_only :
        (ns : String) (c : PersistentVolumeClaim) (w : K.World) (ms n : String)
        → claims (K.create_claim ns c w).1 ms n ≡ true
        → (claims w ms n ≡ true) ⊎ ((ms ≡ ns) × (n ≡ c.name))
    pub create-splits :
        (ns : String) (c : PersistentVolumeClaim) (w : K.World)
        → splits (K.create_claim ns c w).1 ≡ splits w
    pub delete_done :
        (ns n : String) (w : K.World)
        → (K.delete_claim ns n w).0 ≡ none
        → claims (K.delete_claim ns n w).1 ns n ≡ false
    pub delete_missing :
        (ns n : String) (w : K.World) {e : Err}
        → (K.delete_claim ns n w).0 ≡ some e
        → K.is_not_found e ≡ true
        → claims (K.delete_claim ns n w).1 ns n ≡ false
    -- a deletion brings no claim into being
    pub delete_only :
        (ns n : String) (w : K.World) (ms m : String)
        → claims w ms m ≡ false
        → claims (K.delete_claim ns n w).1 ms m ≡ false
    -- and removes no other claim
    pub delete_other :
        (ns n : String) (w : K.World) (ms m : String)
        → (ms == ns && m == n) ≡ false
        → claims w ms m ≡ true
        → claims (K.delete_claim ns n w).1 ms m ≡ true
    pub delete-splits : (ns n : String) (w : K.World) → splits (K.delete_claim ns n w).1 ≡ splits w

-- Requests that can be carried out are, and the others are refused for the documented reason.
pub record IsHealthy (K : Cluster) (V : View K) : Type 0 where
  pub get_present :
      (n : String) (r : VolumeSplit) (w : K.World) {s : VolumeSplit}
      → V.splits w n ≡ some s
      → (K.rest_get n r w).0.1 ≡ none
  pub get_absent :
      (n : String) (r : VolumeSplit) (w : K.World)
      → V.splits w n ≡ none
      → (e : Err) × ((K.rest_get n r w).0.1 ≡ some e) × (K.is_not_found e ≡ true)
  pub post_present :
      (s r : VolumeSplit) (w : K.World) {t : VolumeSplit}
      → V.splits w s.name ≡ some t
      → (e : Err) × ((K.rest_post s r w).0.1 ≡ some e) × (K.is_already_exists e ≡ true)
