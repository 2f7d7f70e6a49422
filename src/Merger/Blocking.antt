-- ===== src/Merger/Blocking.antt =====
-- gogomergerfs/pkg/merger/internal.go: `Run`, `Stop` and `CleanUp` of one blockingMerger, called by
-- goroutines that are interleaved in any order, one access to shared state at a time.
use union_csi.Base.{ℕ, ◌+◌, ◌-◌, ◌<◌, ◌≡◌, Bool, true, false, Option, none, some}
use union_csi.Failure.{Err, errorf, merge_failed, unmerge_failed}
use union_csi.Merger.{Merger, MergeArgs}
use union_csi.Merger.Threads.{update}

-- The capacity of the channels `manualStop` and `stopped`.
abbrev pub capacity : ℕ
capacity = 1

-- `Merge` and `Unmerge` of blockingMerger: what the call of the Merger answers, told anew.
abbrev pub merge_error : Option Err → Option Err
merge_error none = none
merge_error (some e) = some (errorf merge_failed)

abbrev pub unmerge_error : Option Err → Option Err
unmerge_error none = none
unmerge_error (some e) = some (errorf unmerge_failed)

-- Where a goroutine stands. `by_stop` says which case of the `select` it took.
pub data Pc : Type 0 where
  idle : (result : Option Err) → Pc  -- in no call; what the last one returned
  run_lock run_check run_merge run_mark run_unlock : Pc
  run_return : (result : Option Err) → Pc  -- before an early `Unlock` and `return`
  selecting : Pc
  stopping marking leaving : (by_stop : Bool) → Pc  -- the three lines of `stopRunning`
  confirming : Pc
  stop_lock stop_check stop_return stop_send stop_unlock stop_wait : Pc
  clean_lock clean_check clean_unmerge : Pc
  clean_return : (result : Option Err) → Pc  -- before the deferred `Unlock`

-- What `stopRunning` is followed by.
abbrev pub after_leaving : Bool → Pc
after_leaving true = confirming
after_leaving false = idle none

module _ (M : Merger) where
  -- The fields of blockingMerger that change, with the length of what is in the channels' buffers.
  pub record Shared : Type 0 where
    pub world : M.World
    pub locked : Bool
    pub running : Bool
    pub manual_stop : ℕ
    pub stopped : ℕ

  -- `NewBlockingMerger`
  abbrev pub new_blocking_merger : M.World → Shared
  new_blocking_merger w = record {
    world = w;
    locked = false;
    running = false;
    manual_stop = 0;
    stopped = 0;
  }

  module _ (A : MergeArgs) where
    abbrev pub merge_call : M.World → Option Err × M.World
    merge_call w = M.merge A.branches A.target A.options w

    abbrev pub unmerge_call : M.World → Option Err × M.World
    unmerge_call w = M.unmerge A.target w

    -- One step of one goroutine. `done` says whether the context of its `Run` is cancelled by then,
    -- without which that case of the `select` cannot be taken.
    pub data Move (done : Bool) (m : Shared) : Pc → Shared → Pc → Type 0 where
      call_run : {r : Option Err} → Move done m (idle r) m run_lock
      call_stop : {r : Option Err} → Move done m (idle r) m stop_lock
      call_clean : {r : Option Err} → Move done m (idle r) m clean_lock
      -- Run
      lock_run : m.locked ≡ false → Move done m run_lock (record m { locked = true }) run_check
      run_again : m.running ≡ true → Move done m run_check m (run_return none)
      run_first : m.running ≡ false → Move done m run_check m run_merge
      merge_fails :
          {e : Err}
          → (merge_call m.world).0 ≡ some e
          → Move done m run_merge
              (record m { world = (merge_call m.world).1 })
              (run_return (merge_error (some e)))
      merge_succeeds :
          (merge_call m.world).0 ≡ none
          → Move done m run_merge (record m { world = (merge_call m.world).1 }) run_mark
      return_run :
          {r : Option Err} → Move done m (run_return r) (record m { locked = false }) (idle r)
      mark_running : Move done m run_mark (record m { running = true }) run_unlock
      unlock_run : Move done m run_unlock (record m { locked = false }) selecting
      cancelled : done ≡ true → Move done m selecting m (stopping false)
      receive_stop :
          0 < m.manual_stop
          → Move done m selecting (record m { manual_stop = m.manual_stop - 1 }) (stopping true)
      lock_stopping :
          {b : Bool}
          → m.locked ≡ false
          → Move done m (stopping b) (record m { locked = true }) (marking b)
      mark_stopped : {b : Bool} → Move done m (marking b) (record m { running = false }) (leaving b)
      unlock_stopping :
          {b : Bool} → Move done m (leaving b) (record m { locked = false }) (after_leaving b)
      confirm :
          m.stopped < capacity
          → Move done m confirming (record m { stopped = m.stopped + 1 }) (idle none)
      -- Stop
      lock_stop : m.locked ≡ false → Move done m stop_lock (record m { locked = true }) stop_check
      stop_nothing : m.running ≡ false → Move done m stop_check m stop_return
      return_stop : Move done m stop_return (record m { locked = false }) (idle none)
      stop_running : m.running ≡ true → Move done m stop_check m stop_send
      send_stop :
          m.manual_stop < capacity
          → Move done m stop_send (record m { manual_stop = m.manual_stop + 1 }) stop_unlock
      unlock_stop : Move done m stop_unlock (record m { locked = false }) stop_wait
      receive_stopped :
          0 < m.stopped → Move done m stop_wait (record m { stopped = m.stopped - 1 }) (idle none)
      -- CleanUp
      lock_clean :
          m.locked ≡ false → Move done m clean_lock (record m { locked = true }) clean_check
      clean_nothing : m.running ≡ true → Move done m clean_check m (clean_return none)
      clean_first : m.running ≡ false → Move done m clean_check m clean_unmerge
      unmerge :
          Move done m clean_unmerge
            (record m { world = (unmerge_call m.world).1 })
            (clean_return (unmerge_error (unmerge_call m.world).0))
      return_clean :
          {r : Option Err} → Move done m (clean_return r) (record m { locked = false }) (idle r)

    pub record System : Type 0 where
      pub mem : Shared
      pub pc : ℕ → Pc

    -- One of the first n goroutines makes its next step. Its context may be cancelled at any time, so
    -- every step is possible that a cancelled context allows.
    pub data Step (n : ℕ) (s : System) : System → Type 0 where
      pick :
          (i : ℕ) {m : Shared} {p : Pc}
          → i < n
          → Move true s.mem (s.pc i) m p
          → Step n s (record { mem = m; pc = update s.pc i p })

    abbrev pub start_system : M.World → System
    start_system w = record { mem = new_blocking_merger w; pc = λ i. idle none }

    pub data Steps (n : ℕ) (s : System) : System → Type 0 where
      here : Steps n s s
      later : {t u : System} → Steps n s t → Step n t u → Steps n s u
