-- ===== src/Kube/Cluster/Working.antt =====
-- A cluster that carries out every request it can, and whose cache of claims follows the store.
use union_csi.Base.{String, true, false, none, some, ◌≡◌}
use union_csi.Failure.{Err}
use union_csi.Kube.{VolumeSplit, PersistentVolumeClaim}
use union_csi.Kube.Cluster.{Cluster}
use union_csi.Kube.Cluster.Store.{View}

pub record IsWorking (K : Cluster) (V : View K) : Type 0 where
  pub post_absent :
      (s r : VolumeSplit) (w : K.World) → V.splits w s.name ≡ none → (K.rest_post s r w).0.1 ≡ none
  pub delete_present :
      (n : String) (w : K.World) {s : VolumeSplit}
      → V.splits w n ≡ some s
      → (K.rest_delete n w).0 ≡ none
  pub lister_absent :
      (ns n : String) (w : K.World)
      → V.claims w ns n ≡ false
      → (e : Err) × ((K.claim_lister ns n w).1 ≡ some e) × (K.is_not_found e ≡ true)
  pub create_absent :
      (ns : String) (c : PersistentVolumeClaim) (w : K.World)
      → V.claims w ns c.name ≡ false
      → (K.create_claim ns c w).0 ≡ none
  pub delete_claim_present :
      (ns n : String) (w : K.World) → V.claims w ns n ≡ true → (K.delete_claim ns n w).0 ≡ none
  pub delete_claim_absent :
      (ns n : String) (w : K.World)
      → V.claims w ns n ≡ false
      → (e : Err) × ((K.delete_claim ns n w).0 ≡ some e) × (K.is_not_found e ≡ true)
