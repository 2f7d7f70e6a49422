-- ===== src/Kube/Cluster/Apart.antt =====
-- The requests for pods, and the waits of the retry loop, touch neither splits nor lower claims.
use union_csi.Base.{String, ◌≡◌, ◌∙◌, refl}
use union_csi.Failure.{Act, ◌>>=◌, after_world}
use union_csi.Kube.{Pod}
use union_csi.Kube.Cluster.{Cluster, Backoff, Condition}
use union_csi.Kube.Cluster.Store.{View}

module _ (K : Cluster) (V : View K) where
  pub record Untouched (w w' : K.World) : Type 0 where
    pub splits : V.splits w' ≡ V.splits w
    pub claims : V.claims w' ≡ V.claims w

  pub Untouched-refl : (w : K.World) → Untouched w w
  Untouched-refl w = record { splits = refl; claims = refl }

  pub Untouched-trans : {w w' w'' : K.World} → Untouched w w' → Untouched w' w'' → Untouched w w''
  Untouched-trans a b = record { splits = b.splits ∙ a.splits; claims = b.claims ∙ a.claims }

  -- A chain of actions leaves alone what each of them does.
  pub >>=-Untouched :
      {A B : Type 0} (m : Act K.World A) (f : A → Act K.World B) (w : K.World)
      → Untouched w (m w).1
      → ((a : A) (w' : K.World) → Untouched w' (f a w').1)
      → Untouched w ((m >>= f) w).1
  >>=-Untouched m f w first rest =
      after_world (Untouched w) (m w).0 f (m w).1 first
        λ a _. Untouched-trans first (rest a (m w).1)

  -- The driver is the only client of splits and lower claims, also while it waits.
  pub record IsApart : Type 1 where
    pub create_pod : (ns : String) (p : Pod) (w : K.World) → Untouched w (K.create_pod ns p w).1
    pub delete_pod : (ns n : String) (w : K.World) → Untouched w (K.delete_pod ns n w).1
    pub wait :
        (C : Type 0) (b : Backoff) (poll : Condition K.World C) (w : K.World) (c : C)
        → Untouched w (K.exponential_backoff C b poll w c).1
