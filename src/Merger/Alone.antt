-- ===== src/Merger/Alone.antt =====
-- The command's one goroutine calls `Run` and then `CleanUp`: as the interleaved steps have it, it
-- does what the plain functions of runCommand do.
use union_csi.Base.{
  ℕ, ◌<◌, ◌≡◌, refl, sym, subst, true, Option, none, some, arith, inl, inr, Option-cases,
}
use union_csi.Failure.{Err, errorf, merge_failed, check, ◌>>◌}
use union_csi.Merger.{Merger, MergeArgs}
use union_csi.Merger.Threads.{update}
use union_csi.Merger.Blocking.{
  Pc, idle, Shared, Move, System, pick, new_blocking_merger, start_system, Steps, here, later,
  merge_call, unmerge_call, unmerge_error,
}
use union_csi.Merger.Mergerfs.{
  Host, Flags, merge_args_of, new_mergerfs, run_alone, clean_up_alone, run_command,
}

module _ (M : Merger) (A : MergeArgs) where
  -- Steps of one goroutine while the others stand still.
  data Moves (m : Shared M) (p : Pc) : Shared M → Pc → Type 0 where
    stay : Moves m p m p
    next :
        {m' m'' : Shared M} {p' p'' : Pc}
        → Moves m p m' p'
        → Move M A true m' p' m'' p''
        → Moves m p m'' p''

  abbrev Reached : ℕ → System M A → Shared M → Pc → Type 0
  Reached n s m p = (t : System M A) × Steps M A n s t × (t.mem ≡ m) × (t.pc 0 ≡ p)

  Reached-next :
      {n : ℕ} {m m' : Shared M} {p p' : Pc} (s : System M A)
      → 0 < n
      → Reached n s m p
      → Move M A true m p m' p'
      → Reached n s m' p'
  Reached-next {m} {m'} {p} {p'} s lt (t, steps, mem_eq, pc_eq) mv = (
    record { mem = m'; pc = update t.pc 0 p' },
    later steps (pick 0 lt here_too),
    refl,
    ground arith,
  )
    where
      here_too : Move M A true t.mem (t.pc 0) m' p'
      here_too =
          subst (λ v. Move M A true v (t.pc 0) m' p') (sym mem_eq)
            (subst (λ v. Move M A true m v m' p') (sym pc_eq) mv)

  Moves-Reached :
      {n : ℕ} {m : Shared M} {p : Pc} {m' : Shared M} {p' : Pc} (s : System M A)
      → 0 < n
      → s.mem ≡ m
      → s.pc 0 ≡ p
      → Moves m p m' p'
      → Reached n s m' p'
  Moves-Reached s lt e q stay = (s, here, e, q)
  Moves-Reached s lt e q (next before mv) = Reached-next s lt (Moves-Reached s lt e q before) mv

  -- `CleanUp` after a `Run` that returned.
  clean_up-Moves :
      (w : M.World) (r : Option Err)
      → Moves
          (new_blocking_merger M w)
          (idle r)
          (new_blocking_merger M (unmerge_call M A w).1)
          (idle (unmerge_error (unmerge_call M A w).0))
  clean_up-Moves w r =
      next
        (next
          (next (next (next stay Move.call_clean) (Move.lock_clean refl)) (Move.clean_first refl))
          Move.unmerge)
        Move.return_clean

  run_fails-Moves :
      (w : M.World) (e : Err)
      → (merge_call M A w).0 ≡ some e
      → Moves
          (new_blocking_merger M w)
          (idle none)
          (new_blocking_merger M (merge_call M A w).1)
          (idle (some (errorf merge_failed)))
  run_fails-Moves w e failed =
      next
        (next (next (next (next stay Move.call_run) (Move.lock_run refl)) (Move.run_first refl))
          (Move.merge_fails failed))
        Move.return_run

  run_merged-Moves :
      (w : M.World)
      → (merge_call M A w).0 ≡ none
      → Moves
          (new_blocking_merger M w)
          (idle none)
          (new_blocking_merger M (merge_call M A w).1)
          (idle none)
  run_merged-Moves w fine =
      next
        (next
          (next
            (next
              (next
                (next
                  (next
                    (next (next (next stay Move.call_run) (Move.lock_run refl))
                      (Move.run_first refl))
                    (Move.merge_succeeds fine))
                  Move.mark_running)
                Move.unlock_run)
              (Move.cancelled refl))
            (Move.lock_stopping refl))
          Move.mark_stopped)
        Move.unlock_stopping

  trans_Moves :
      {m : Shared M} {p : Pc} {m' : Shared M} {p' : Pc} {m'' : Shared M} {p'' : Pc}
      → Moves m p m' p'
      → Moves m' p' m'' p''
      → Moves m p m'' p''
  trans_Moves first stay = first
  trans_Moves first (next rest mv) = next (trans_Moves first rest) mv

  abbrev stopped_at_once : M.World → M.World
  stopped_at_once w = w

  run_then_clean :
      (w : M.World)
      → let out = (run_alone M A stopped_at_once >> clean_up_alone M A) w in
        (r : Option Err) × (out.0 ≡ check r)
        × Moves (new_blocking_merger M w) (idle none) (new_blocking_merger M out.1) (idle r)
  unfolding run_alone clean_up_alone
  run_then_clean w = elim (Option-cases (merge_call M A w).0) [
    | inr (e, failed) ↦
        rw (failed, run_alone) (some (errorf merge_failed), refl, run_fails-Moves w e failed)
    | inl fine ↦
        rw (fine, run_alone)
          (
            unmerge_error (unmerge_call M A (merge_call M A w).1).0,
            refl,
            trans_Moves (run_merged-Moves w fine) (clean_up-Moves (merge_call M A w).1 none),
          )
  ]

-- With `block` and a signal that comes when the merge is done, the command is a run of the
-- interleaved steps: its one goroutine, that calls Run and CleanUp, can come to the world and to
-- the answer that runCommand has.
pub run_command-Steps :
    (H : Host) (flags : Flags) (w : H.World)
    → flags.block ≡ true
    → let N = new_mergerfs H in
      let out = run_command H flags (λ v. v) w in
      (s : System N (merge_args_of flags)) × Steps N
        (merge_args_of flags)
        1
        (start_system N (merge_args_of flags) w)
        s
      × (s.mem ≡ new_blocking_merger N out.1)
      × ((r : Option Err) × (s.pc 0 ≡ idle r) × (out.0 ≡ check r))
unfolding run_command
run_command-Steps H flags w on =
    let N = new_mergerfs H in
    let A = merge_args_of flags in
    let (r, answer, moves) = run_then_clean N A w in
    let (s, steps, mem_eq, pc_eq) =
      Moves-Reached N A (start_system N A w) (omega arith) refl refl moves in
    rw on (s, steps, mem_eq, (r, pc_eq, answer))
