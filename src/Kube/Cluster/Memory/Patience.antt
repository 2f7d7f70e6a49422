-- ===== src/Kube/Cluster/Memory/Patience.antt =====
-- The retry loop of the cluster in memory is never stopped early.
use union_csi.Base.{ℕ, zero, suc, true, false, none, some, ◌≡◌, refl}
use union_csi.Kube.Cluster.{Polled, polled, crashed, Condition}
use union_csi.Kube.Cluster.Memory.{Store, memory, retry, pause}
use union_csi.Kube.Cluster.Patience.{Polls, done, broke, fell, again, used_up, IsPatient}

-- What the schedule makes of the world in a pause.
abbrev pub Pauses : Store → Store → Type 0
Pauses w w' = w' ≡ pause w

module _ {C : Type 0} (poll : Condition Store C) where
  -- One poll, when the later ones are runs of the loop.
  retry_step-Polls :
      (n : ℕ) (w : Store) (c : C)
      → ((c' : C)
          → let r = retry n poll (pause w) c' in Polls Pauses poll n (pause w) c' r.0 r.1 r.2)
      → (answer : Polled) → (poll w c).0 ≡ answer
      → let r = retry (suc n) poll w c in Polls Pauses poll (suc n) w c r.0 r.1 r.2
  unfolding retry
  retry_step-Polls n w c later crashed e = rw (e, retry) (fell e refl)
  retry_step-Polls n w c later (polled b (some x)) e = rw (e, retry) (broke e refl)
  retry_step-Polls n w c later (polled true none) e = rw (e, retry) (done e refl)
  retry_step-Polls n w c later (polled false none) e =
      rw (e, retry) (again e refl refl (later (poll w c).1))

  retry-Polls :
      (n : ℕ) (w : Store) (c : C) → let r = retry n poll w c in Polls Pauses poll n w c r.0 r.1 r.2
  unfolding retry
  retry-Polls zero w c = used_up
  retry-Polls (suc n) w c =
      retry_step-Polls n w c (λ c'. retry-Polls n (pause w) c') (poll w c).0 refl

pub memory-IsPatient : IsPatient memory Pauses
memory-IsPatient = record { polls = λ C b poll w c. retry-Polls poll b.steps w c }
