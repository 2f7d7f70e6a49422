-- ===== src/Kube/Cluster/Laws.antt =====
-- The documented behaviour of what the driver calls, as hypotheses of its theorems.
use union_csi.Base.{ℕ, suc, String, true, false, ◌||◌, Option, none, some, ◌≡◌, Bool}
use union_csi.Failure.{
  Err, Sentinel, sentinel, foreign, errorf, wrap_first, wrap_both, Site, Result, ok, err, panic,
}
use union_csi.Kube.Cluster.{Cluster, Backoff, polled, crashed, Condition}

-- `apierrors.IsNotFound` and `IsAlreadyExists` see through wrapped errors, and know only errors of
-- the API.
pub record IsClassifier (K : Cluster) : Type 0 where
  pub not_found-sentinel : (s : Sentinel) → K.is_not_found (sentinel s) ≡ false
  pub not_found-errorf : (s : Site) → K.is_not_found (errorf s) ≡ false
  pub not_found-wrap_first : (a b : Err) → K.is_not_found (wrap_first a b) ≡ K.is_not_found a
  pub not_found-wrap_both :
      (a b : Err) → K.is_not_found (wrap_both a b) ≡ (K.is_not_found a || K.is_not_found b)

-- A lister answers with an object or with an error, never with both or neither.
pub data IsAnswer {A : Type 0} : Option A × Option Err → Type 0 where
  found : {a : A} → IsAnswer (some a, none)
  failed : {e : Err} → IsAnswer (none, some e)

pub record IsLister (K : Cluster) : Type 0 where
  pub claim : (ns name : String) (w : K.World) → IsAnswer (K.claim_lister ns name w)
  pub pod : (ns name : String) (w : K.World) → IsAnswer (K.pod_lister ns name w)

-- The runs of the retry loop: it polls at most `steps` times, ends when the condition is done or
-- fails, and may be stopped before any poll, by its context or for want of steps, with an error
-- that is none of the driver's. Between two polls the world changes as it likes.
pub data Waited {W C : Type 0} (poll : Condition W C)
    : ℕ → W → C → Result (Unit {0}) → W → C → Type 0 where
  done :
      {n : ℕ} {w : W} {c c' : C}
      → (poll w c).0 ≡ polled true none
      → (poll w c).1 ≡ c'
      → Waited poll (suc n) w c (ok tt) w c'
  broke :
      {n : ℕ} {w : W} {c c' : C} {b : Bool} {e : Err}
      → (poll w c).0 ≡ polled b (some e)
      → (poll w c).1 ≡ c'
      → Waited poll (suc n) w c (err e) w c'
  fell :
      {n : ℕ} {w : W} {c c' : C}
      → (poll w c).0 ≡ crashed
      → (poll w c).1 ≡ c'
      → Waited poll (suc n) w c panic w c'
  again :
      {n : ℕ} {w w' w'' : W} {c c' c'' : C} {r : Result (Unit {0})}
      → (poll w c).0 ≡ polled false none
      → (poll w c).1 ≡ c'
      → Waited poll n w' c' r w'' c''
      → Waited poll (suc n) w c r w'' c''
  stopped : {n : ℕ} {w : W} {c : C} {text : String} → Waited poll n w c (err (foreign text)) w c

pub record IsRetryLoop (K : Cluster) : Type 1 where
  pub runs :
      (C : Type 0) (b : Backoff) (poll : Condition K.World C) (w : K.World) (c : C)
      → let r = K.exponential_backoff C b poll w c in Waited poll b.steps w c r.0 r.1 r.2
