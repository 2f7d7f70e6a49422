-- ===== src/Merger/Samples.antt =====
-- A merger that mounts one directory, three goroutines that use it, and the command around it.
use union_csi.Base.{
  ℕ, zero, suc, List, String, Bool, true, false, Option, none, some, [], ◌∷◌, ◌≡◌, refl, arith, ◌+◌,
  ◌*◌, ◌≤◌, string_eq,
}
use union_csi.Failure.{Err, foreign, check}
use union_csi.Merger.{Merger, MergeArgs}
use union_csi.Merger.Threads.{count, update}
use union_csi.Merger.Blocking.{
  capacity, idle, run_lock, run_check, stop_send, Move, System, start_system, Steps, here, later,
  pick, new_blocking_merger,
}
use union_csi.Merger.Phases.{holds, runs, owes, waits}
use union_csi.Merger.Invariant.{Merged}
use union_csi.Merger.Safety.{calls, Jammed, run-Merged, stop_tokens, stop-Jammed}
use union_csi.Merger.Termination.{Works, still, works, Works-bounded}
use union_csi.Merger.Progress.{Outlook, Steps-Outlook}
use union_csi.Merger.Program.{Reader, merges, shows, exited, execute, execute_restores}
use union_csi.Merger.Mergerfs.{
  Host, Flags, IsStacking, merge_args_of, new_mergerfs, run_alone, clean_up_alone, merge,
  merge_outcome, unmerge, unmount_outcome, merge_args, run_command,
}
use union_csi.Merger.Alone.{run_command-Steps}
use native.Mathlib.Decide.{ℕ_discrete}

-- The world tells whether something is mounted.
abbrev toggle : Merger
toggle = record {
  World = Bool;
  merge = λ branches target options w. (none, true);
  unmerge = λ target w. (none, false);
}

abbrev two_branches : MergeArgs
two_branches = record { branches = "/a" ∷ "/b" ∷ []; target = "/merged"; options = [] }

abbrev Run : System toggle two_branches → Type 0
Run s = Steps toggle two_branches 3 (start_system toggle two_branches false) s

-- Goroutine 0 runs the merger and waits to be stopped.
abbrev one_runs : (s : System toggle two_branches) × Run s
unfolding ℕ_discrete
one_runs = (
  _,
  later
      (later
        (later
          (later
            (later (later here (pick 0 (omega arith) Move.call_run))
              (pick 0 (omega arith) (Move.lock_run refl)))
            (pick 0 (omega arith) (Move.run_first refl)))
          (pick 0 (omega arith) (Move.merge_succeeds refl)))
        (pick 0 (omega arith) Move.mark_running))
      (pick 0 (omega arith) Move.unlock_run),
)

-- Goroutine 1 calls `Stop`, the context is cancelled, and goroutine 2 calls `Stop`.
abbrev two_stops : (s : System toggle two_branches) × Run s
unfolding ℕ_discrete
two_stops = (
  _,
  later
      (later
        (later
          (later
            (later
              (later
                (later
                  (later (later one_runs.1 (pick 1 (omega arith) Move.call_stop))
                    (pick 1 (omega arith) (Move.lock_stop refl)))
                  (pick 1 (omega arith) (Move.stop_running refl)))
                (pick 1 (omega arith) (Move.send_stop (omega arith))))
              (pick 1 (omega arith) Move.unlock_stop))
            (pick 0 (omega arith) (Move.cancelled refl)))
          (pick 2 (omega arith) Move.call_stop))
        (pick 2 (omega arith) (Move.lock_stop refl)))
      (pick 2 (omega arith) (Move.stop_running refl)),
)

two_stops_jam : Jammed toggle two_branches 3 2 two_stops.0
unfolding count ℕ_discrete
two_stops_jam = record { sends = refl; full = refl; unread = refl }

run-Merged_example :
    (count runs 3 one_runs.0.pc ≡ 1)
    × (count calls 3 one_runs.0.pc ≡ 0)
    × Merged toggle two_branches one_runs.0.mem.world
unfolding ℕ_discrete
run-Merged_example = run-Merged toggle two_branches 3 one_runs.1 0 (omega arith) refl

stop_tokens_example :
    (count holds 3 two_stops.0.pc ≤ 1)
    × (two_stops.0.mem.manual_stop ≤ capacity)
    × (two_stops.0.mem.stopped ≤ capacity)
    × (count waits 3 two_stops.0.pc
        ≡ two_stops.0.mem.manual_stop + two_stops.0.mem.stopped + count owes 3 two_stops.0.pc)
stop_tokens_example = stop_tokens toggle two_branches 3 two_stops.1

stop-Jammed_example :
    (two_stops.0.pc 2 ≡ stop_send)
    × (two_stops.0.mem.locked ≡ true)
    × (two_stops.0.mem.running ≡ true)
stop-Jammed_example =
    stop-Jammed toggle two_branches 3 2 (omega arith) two_stops.1 two_stops_jam here

Steps-Outlook_example : Outlook toggle two_branches 3 two_stops.0
Steps-Outlook_example = Steps-Outlook toggle two_branches two_stops.1

abbrev text_of : Err → String
text_of (foreign text) = text
text_of e = ""

-- A host with one mount point, and the number of mounts that are stacked there.
abbrev one_mount : Host
one_mount = record {
  World = ℕ;
  combined_output =
      λ name args w. (record { error = none; success = true; exit_error = foreign "exit" }, suc w);
  unmount = λ t w. elim w [ zero ↦ (some (foreign "not mounted"), zero) | suc n ↦ (none, n) ];
  error_text = text_of;
}

one_mount-IsStacking : IsStacking one_mount (λ w t. w)
one_mount-IsStacking = record {
  mounts = λ bs t more w h. refl;
  unmounts = λ t w h. ground arith;
  not_mounted = λ t w e h q. ground arith;
}

abbrev blocking_flags : Flags
blocking_flags = record {
  branches = "/a" ∷ "/b" ∷ [];
  target = "/merged";
  options = [];
  block = true;
}

-- Reads the name of the command and two words as the command that blocks.
abbrev three_words : Reader
three_words root cmds defaults (command ∷ branch ∷ target ∷ []) =
    merges
      (record { branches = branch ∷ []; target = target; options = defaults.options; block = true })
three_words root cmds defaults words = shows

abbrev command_line : List String
command_line = "mergerfs" ∷ "/a" ∷ "/merged" ∷ []

-- The pod has a mount at the target already.
ends_well : (execute one_mount three_words command_line (λ w. w) 1).0 ≡ exited 0
unfolding execute run_command run_alone clean_up_alone merge merge_outcome unmerge unmount_outcome
    merge_args string_eq
ends_well = refl

execute_restores_example : (execute one_mount three_words command_line (λ w. w) 1).1 ≡ 1
execute_restores_example =
    execute_restores one_mount three_words (λ w t. w) one_mount-IsStacking command_line
      (record { branches = "/a" ∷ []; target = "/merged"; options = []; block = true }) (λ w. w) 1
      refl refl refl ends_well

run_command-Steps_example :
    let N = new_mergerfs one_mount in
    let out = run_command one_mount blocking_flags (λ v. v) 0 in
    (s : System N (merge_args_of blocking_flags)) × Steps N
      (merge_args_of blocking_flags)
      1
      (start_system N (merge_args_of blocking_flags) 0)
      s
    × (s.mem ≡ new_blocking_merger N out.1)
    × ((r : Option Err) × (s.pc 0 ≡ idle r) × (out.0 ≡ check r))
run_command-Steps_example = run_command-Steps one_mount blocking_flags 0 refl

-- One goroutine has called `Run`, and takes the lock.
abbrev called : System toggle two_branches
called = record { mem = new_blocking_merger toggle false; pc = update (λ i. idle none) 0 run_lock }

one_step : Works toggle two_branches 1 called 1 (record {
  mem = record (new_blocking_merger toggle false) { locked = true };
  pc = update called.pc 0 run_check;
})
unfolding ℕ_discrete
one_step = works 0 still (omega arith) refl (Move.lock_run refl)

Works-bounded_example : 1 ≤ 1 * 10
Works-bounded_example = Works-bounded toggle two_branches one_step
