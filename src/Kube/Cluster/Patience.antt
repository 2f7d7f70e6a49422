-- ===== src/Kube/Cluster/Patience.antt =====
-- A retry loop whose context is not cancelled: it polls until the condition ends it or the steps are
-- used up.
use union_csi.Base.{ℕ, zero, suc, Bool, true, false, none, some, ◌≡◌}
use union_csi.Failure.{Err, Result, ok, err, panic}
use union_csi.Kube.Cluster.{Cluster, Backoff, polled, crashed, Condition}

-- `Next w w'` says that the world may change from w to w' in the pause between two polls.
pub data Polls {W C : Type 0} (Next : W → W → Type 0) (poll : Condition W C)
    : ℕ → W → C → Result (Unit {0}) → W → C → Type 0 where
  done :
      {n : ℕ} {w : W} {c c' : C}
      → (poll w c).0 ≡ polled true none
      → (poll w c).1 ≡ c'
      → Polls Next poll (suc n) w c (ok tt) w c'
  broke :
      {n : ℕ} {w : W} {c c' : C} {b : Bool} {e : Err}
      → (poll w c).0 ≡ polled b (some e)
      → (poll w c).1 ≡ c'
      → Polls Next poll (suc n) w c (err e) w c'
  fell :
      {n : ℕ} {w : W} {c c' : C}
      → (poll w c).0 ≡ crashed
      → (poll w c).1 ≡ c'
      → Polls Next poll (suc n) w c panic w c'
  again :
      {n : ℕ} {w w' w'' : W} {c c' c'' : C} {r : Result (Unit {0})}
      → (poll w c).0 ≡ polled false none
      → (poll w c).1 ≡ c'
      → Next w w'
      → Polls Next poll n w' c' r w'' c''
      → Polls Next poll (suc n) w c r w'' c''
  used_up : {w : W} {c : C} {e : Err} → Polls Next poll zero w c (err e) w c

pub record IsPatient (K : Cluster) (Next : K.World → K.World → Type 0) : Type 1 where
  pub polls :
      (C : Type 0) (b : Backoff) (poll : Condition K.World C) (w : K.World) (c : C)
      → let r = K.exponential_backoff C b poll w c in Polls Next poll b.steps w c r.0 r.1 r.2
