-- ===== src/Merger/Safety.antt =====
-- What no interleaving of `Run`, `Stop` and `CleanUp` can break, and where two `Stop`s hang.
use union_csi.Base.{ℕ, ◌+◌, ◌≤◌, ◌<◌, ◌≡◌, refl, Bool, true, false, arith}
use union_csi.Merger.{Merger, MergeArgs}
use union_csi.Merger.Threads.{
  update, one_if, count, count-le, count-positive, count_unique, count-update,
}
use union_csi.Merger.Blocking.{
  capacity, Pc, run_first, run_merge, clean_unmerge, selecting, stop_send, Shared, Move, System,
  pick, start_system, Steps, here, later,
}
use union_csi.Merger.Phases.{holds, runs, owes, waits, found_off}
use union_csi.Merger.Invariant.{guard, Merged, Inv, Move-Inv, Steps-Inv}
use native.Mathlib.Decide.{dec_lt}

-- About to call `Merge` or `Unmerge` of the Merger.
abbrev pub calls : Pc → Bool
calls run_merge = true
calls clean_unmerge = true
calls _ = false

abbrev pub selects : Pc → Bool
selects selecting = true
selects _ = false

calls-off : (p : Pc) → calls p ≡ true → found_off p ≡ true
calls-off run_merge q = refl
calls-off p q = ground arith

module _ (M : Merger) (A : MergeArgs) (n : ℕ) where
  -- Whatever the goroutines do: while one of them is in a Run that has merged and has not been
  -- stopped, no other one is, the world is as a successful merge of the arguments left it, and no
  -- goroutine is about to merge or to unmerge.
  pub run-Merged :
      {w : M.World} {s : System M A}
      → Steps M A n (start_system M A w) s
      → (i : ℕ) → i < n
      → runs (s.pc i) ≡ true
      → (count runs n s.pc ≡ 1) × (count calls n s.pc ≡ 0) × Merged M A s.mem.world
  run-Merged {s} r i lt on = (one, none_calls, inv.merged running)
    where
      inv : Inv M A n s.mem s.pc
      inv = Steps-Inv M A r

      running : s.mem.running ≡ true
      running = ground (arith, inv.runner, count-le runs n s.pc i lt)

      one : count runs n s.pc ≡ 1
      one = ground (arith, inv.runner, running)

      none_calls : count calls n s.pc ≡ 0
      none_calls = elim (dec_lt 0 (count calls n s.pc)) [
        | no zero_count ↦ omega arith
        | yes some_calls ↦
            let (j, below, found) = count-positive calls n s.pc some_calls in
            absurd (ground (arith, running, inv.off j below (calls-off (s.pc j) found)))
      ]

  -- Whatever the goroutines do, at most one is under the lock, neither channel holds more than one
  -- token, and there are as many Stops that wait as tokens in the two channels and in Runs that
  -- have taken one and will pass it on.
  pub stop_tokens :
      {w : M.World} {s : System M A}
      → Steps M A n (start_system M A w) s
      → (count holds n s.pc ≤ 1)
        × (s.mem.manual_stop ≤ capacity)
        × (s.mem.stopped ≤ capacity)
        × (count waits n s.pc ≡ s.mem.manual_stop + s.mem.stopped + count owes n s.pc)
  stop_tokens {s} r =
      (ground (arith, inv.lock_held), inv.manual_stop_room, inv.stopped_room, inv.tokens)
    where
      inv : Inv M A n s.mem s.pc
      inv = Steps-Inv M A r

  -- Goroutine i is in `Stop`, under the lock, before the full channel that no `Run` will read.
  pub record Jammed (i : ℕ) (s : System M A) : Type 0 where
    pub sends : s.pc i ≡ stop_send
    pub full : s.mem.manual_stop ≡ capacity
    pub unread : count selects n s.pc ≡ 0

  module _ {m : Shared M} {pc : ℕ → Pc} (inv : Inv M A n m pc) (i j : ℕ) where
    -- The next step is of goroutine j, from p to p', while goroutine i is jammed.
    record JammedMover (p p' : Pc) : Type 0 where
      here_sends : pc i ≡ stop_send
      here_full : m.manual_stop ≡ capacity
      here_unread : count selects n pc ≡ 0
      at : pc j ≡ p
      lock_held : m.locked ≡ true
      alone : holds p ≡ true → i ≡ j
      readers :
          count selects n (update pc j p') + one_if (selects p)
          ≡ count selects n pc + one_if (selects p')

    Move-still :
        {p p' : Pc} {m' : Shared M}
        → Move M A true m p m' p'
        → JammedMover p p'
        → (update pc j p' i ≡ stop_send)
          × (m'.manual_stop ≡ capacity)
          × (count selects n (update pc j p') ≡ 0)
    Move-still (run_first e) f = ground (arith, f.alone)
    Move-still mv f = ground (arith, guard M A mv, f.alone)

    Move-Jammed :
        {p' : Pc} {m' : Shared M}
        → i < n
        → j < n
        → Jammed i (record { mem = m; pc = pc })
        → Move M A true m (pc j) m' p'
        → Jammed i (record { mem = m'; pc = update pc j p' })
    Move-Jammed {p'} lt below jam mv =
        let still = Move-still mv mover in
        record { sends = still.0; full = still.1; unread = still.2 }
      where
        held : m.locked ≡ true
        held = ground (arith, inv.lock_held, count-le holds n pc i lt, jam.sends)

        mover : JammedMover (pc j) p'
        mover = record {
          here_sends = jam.sends;
          here_full = jam.full;
          here_unread = jam.unread;
          at = refl;
          lock_held = held;
          alone = λ on.
              count_unique holds n pc (ground (arith, inv.lock_held)) i j lt below
                (ground (arith, jam.sends)) on;
          readers = count-update selects n pc j p' below;
        }

  Steps-Jammed :
      {s t : System M A} (i : ℕ)
      → i < n
      → Inv M A n s.mem s.pc
      → Jammed i s
      → Steps M A n s t
      → Inv M A n t.mem t.pc × Jammed i t
  Steps-Jammed i lt inv jam here = (inv, jam)
  Steps-Jammed i lt inv jam (later r (pick j below mv)) =
      let (inv', jam') = Steps-Jammed i lt inv jam r in
      (Move-Inv M A inv' j below mv, Move-Jammed inv' i j lt below jam' mv)

  -- Whatever the goroutines do: a Stop that has come to the full channel when no Run reads it any
  -- more stays there under the lock for ever, and `running` stays true.
  pub stop-Jammed :
      {w : M.World} {s t : System M A} (i : ℕ)
      → i < n
      → Steps M A n (start_system M A w) s
      → Jammed i s
      → Steps M A n s t
      → (t.pc i ≡ stop_send) × (t.mem.locked ≡ true) × (t.mem.running ≡ true)
  stop-Jammed {t} i lt r jam rest = (jam_t.sends, locked, running)
    where
      both : Inv M A n t.mem t.pc × Jammed i t
      both = Steps-Jammed i lt (Steps-Inv M A r) jam rest

      inv : Inv M A n t.mem t.pc
      inv = both.0

      jam_t : Jammed i t
      jam_t = both.1

      locked : t.mem.locked ≡ true
      locked = ground (arith, inv.lock_held, count-le holds n t.pc i lt, jam_t.sends)

      running : t.mem.running ≡ true
      running = inv.on i lt (ground (arith, jam_t.sends))
