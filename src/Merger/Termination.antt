-- ===== src/Merger/Termination.antt =====
-- Calls of one blockingMerger come to an end, or to a point where they wait.
use union_csi.Base.{ℕ, suc, ◌+◌, ◌*◌, ◌≤◌, ◌<◌, ◌≡◌, true, arith}
use union_csi.Merger.{Merger, MergeArgs}
use union_csi.Merger.Threads.{update, load, load-update, load-le}
use union_csi.Merger.Blocking.{
  Pc, Shared, Move, System, idle, run_lock, stop_lock, clean_lock, run_check, run_merge, run_mark,
  run_unlock, run_return, selecting, stopping, marking, leaving, confirming, stop_check,
  stop_return, stop_send, stop_unlock, stop_wait, clean_check, clean_unmerge, clean_return,
  unlock_stopping, lock_run,
}
use union_csi.Merger.Progress.{in_call}

-- How many steps a call can still make.
abbrev rank : Pc → ℕ
rank (idle r) = 0
rank run_lock = 10
rank run_check = 9
rank run_merge = 8
rank run_mark = 7
rank run_unlock = 6
rank (run_return r) = 1
rank selecting = 5
rank (stopping b) = 4
rank (marking b) = 3
rank (leaving b) = 2
rank confirming = 1
rank stop_lock = 5
rank stop_check = 4
rank stop_return = 1
rank stop_send = 3
rank stop_unlock = 2
rank stop_wait = 1
rank clean_lock = 4
rank clean_check = 3
rank clean_unmerge = 2
rank (clean_return r) = 1

rank-le : (p : Pc) → rank p ≤ 10
rank-le run_lock = omega arith
rank-le p = omega arith

module _ (M : Merger) (A : MergeArgs) where
  -- A run of k steps in which no goroutine begins a call.
  pub data Works (n : ℕ) (s : System M A) : ℕ → System M A → Type 0 where
    still : Works n s 0 s
    works :
        {k : ℕ} {t : System M A} (i : ℕ) {m : Shared M} {p : Pc}
        → Works n s k t
        → i < n
        → in_call (t.pc i) ≡ true
        → Move M A true t.mem (t.pc i) m p
        → Works n s (suc k) (record { mem = m; pc = update t.pc i p })

  Move-rank :
      {m m' : Shared M} {p p' : Pc} → Move M A true m p m' p' → in_call p ≡ true → rank p' < rank p
  Move-rank (unlock_stopping {b}) q = grind arith
  Move-rank (lock_run e) q = omega arith
  Move-rank mv q = ground arith

  Works-rank :
      {n : ℕ} {s : System M A} {k : ℕ} {t : System M A}
      → Works n s k t
      → k + load rank t.pc n ≤ load rank s.pc n
  Works-rank still = omega arith
  Works-rank {n} (works {t} i {p} before lt on mv) =
      omega (arith, Works-rank before, Move-rank mv on, load-update rank t.pc i p n lt)

  -- A run in which no goroutine begins a call has at most ten steps for each goroutine, in
  -- whatever order they go.
  pub Works-bounded : {n k : ℕ} {s t : System M A} → Works n s k t → k ≤ n * 10
  Works-bounded {n} {s} run = omega (arith, Works-rank run, load-le rank 10 rank-le s.pc n)
