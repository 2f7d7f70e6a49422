-- ===== src/Kube/Cluster.antt =====
-- What the driver calls and does not implement: the Kubernetes API behind the clients of
-- pkg/k8s/client and client-go, the informers' caches, the classification of API errors, the
-- retry loop of `wait.ExponentialBackoffWithContext`, and SHA-256.
pub mod Laws
pub mod Store
pub mod Working
pub mod Apart
pub mod Patience
pub mod Memory
use union_csi.Base.{ℕ, String, Bool, Option}
use union_csi.Failure.{Err, Result}
use union_csi.Kube.{VolumeSplit, PersistentVolumeClaim, Pod}

-- `wait.Backoff`, with the factor in tenths.
pub record Backoff : Type 0 where
  pub duration_ms : ℕ
  pub factor_tenths : ℕ
  pub steps : ℕ

-- What a poll of a condition ends with: `(done, err)`, or a panic.
pub data Polled : Type 0 where
  polled : Bool → Option Err → Polled
  crashed : Polled

-- A condition that the retry loop polls. It reads the world and may keep something in `C`.
abbrev pub Condition : Type 0 → Type 0 → Type 0
Condition World C = World → C → Polled × C

-- A call returns the world as it stands when the call returns: what other clients did meanwhile,
-- and what the caches learnt, is part of it. A lister only reads.
pub record Cluster : Type 1 where
  pub World : Type 0
  pub is_not_found : Err → Bool
  pub is_already_exists : Err → Bool
  -- the REST verbs on the resource "volumesplits": the object that `Into` fills, and an error
  pub rest_get : String → VolumeSplit → World → (VolumeSplit × Option Err) × World
  pub rest_post : VolumeSplit → VolumeSplit → World → (VolumeSplit × Option Err) × World
  pub rest_delete : String → World → Option Err × World
  pub claim_lister : String → String → World → Option PersistentVolumeClaim × Option Err
  pub pod_lister : String → String → World → Option Pod × Option Err
  -- the driver reads no field of a node
  pub node_lister : String → World → Option Err
  pub create_claim : String → PersistentVolumeClaim → World → Option Err × World
  pub delete_claim : String → String → World → Option Err × World
  pub create_pod : String → Pod → World → Option Err × World
  pub delete_pod : String → String → World → Option Err × World
  pub exponential_backoff :
      (C : Type 0) → Backoff → Condition World C → World → C → Result (Unit {0}) × World × C
  pub sha256_hex : String → String
