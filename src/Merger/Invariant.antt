-- ===== src/Merger/Invariant.antt =====
-- What holds of one blockingMerger between any two steps of the goroutines that call it.
use union_csi.Base.{ℕ, ◌+◌, ◌≤◌, ◌<◌, ◌≡◌, refl, Bool, true, false, none, arith}
use union_csi.Merger.{Merger, MergeArgs}
use union_csi.Merger.Threads.{update, one_if, count, count-update, count_unique, count-none}
use union_csi.Merger.Phases.{holds, runs, owes, waits, found_off, found_on, marks}
use union_csi.Merger.Blocking.{
  capacity, Pc, merge_call, Shared, Move, run_first, idle, lock_run, run_again, receive_stop,
  lock_stopping, confirm, lock_stop, stop_nothing, stop_running, send_stop, receive_stopped,
  lock_clean, clean_nothing, clean_first, unlock_stopping, merge_fails, merge_succeeds, unmerge,
  mark_running, System, pick, start_system, Steps, here, later,
}

one_if-le : (b : Bool) → one_if b ≤ 1
one_if-le b = ground arith

module _ (M : Merger) (A : MergeArgs) where
  -- The world is as a merge that succeeded left it.
  abbrev pub Merged : M.World → Type 0
  Merged w =
      (before : M.World) × ((merge_call M A before).0 ≡ none) × ((merge_call M A before).1 ≡ w)

  pub record Inv (n : ℕ) (m : Shared M) (pc : ℕ → Pc) : Type 0 where
    pub lock_held : count holds n pc ≡ one_if m.locked
    pub runner : count runs n pc ≡ one_if m.running
    pub tokens : count waits n pc ≡ m.manual_stop + m.stopped + count owes n pc
    pub manual_stop_room : m.manual_stop ≤ capacity
    pub stopped_room : m.stopped ≤ capacity
    pub off : (i : ℕ) → i < n → found_off (pc i) ≡ true → m.running ≡ false
    pub on : (i : ℕ) → i < n → found_on (pc i) ≡ true → m.running ≡ true
    pub merged : m.running ≡ true → Merged m.world
    pub marked : (i : ℕ) → i < n → marks (pc i) ≡ true → Merged m.world

  -- The premise of a step, for the clauses below that take several steps at once.
  abbrev pub Guard : {m m' : Shared M} {p p' : Pc} → Move M A true m p m' p' → Type 0
  Guard {m} (lock_run _) = m.locked ≡ false
  Guard {m} (run_again _) = m.running ≡ true
  Guard {m} (run_first _) = m.running ≡ false
  Guard {m} (receive_stop _) = 0 < m.manual_stop
  Guard {m} (lock_stopping _) = m.locked ≡ false
  Guard {m} (confirm _) = m.stopped < capacity
  Guard {m} (lock_stop _) = m.locked ≡ false
  Guard {m} (stop_nothing _) = m.running ≡ false
  Guard {m} (stop_running _) = m.running ≡ true
  Guard {m} (send_stop _) = m.manual_stop < capacity
  Guard {m} (receive_stopped _) = 0 < m.stopped
  Guard {m} (lock_clean _) = m.locked ≡ false
  Guard {m} (clean_nothing _) = m.running ≡ true
  Guard {m} (clean_first _) = m.running ≡ false
  Guard _ = Unit

  pub guard : {m m' : Shared M} {p p' : Pc} (mv : Move M A true m p m' p') → Guard mv
  guard (lock_run g) = g
  guard (run_again g) = g
  guard (run_first g) = g
  guard (receive_stop g) = g
  guard (lock_stopping g) = g
  guard (confirm g) = g
  guard (lock_stop g) = g
  guard (stop_nothing g) = g
  guard (stop_running g) = g
  guard (send_stop g) = g
  guard (receive_stopped g) = g
  guard (lock_clean g) = g
  guard (clean_nothing g) = g
  guard (clean_first g) = g
  guard _ = tt

  module _ {n : ℕ} {m : Shared M} {pc : ℕ → Pc} (inv : Inv n m pc) (i : ℕ) where
    open inv use {
      lock_held, runner, tokens, manual_stop_room, stopped_room, off, on, merged, marked,
    }

    -- Goroutine i goes from p to p'.
    record Mover (p p' : Pc) : Type 0 where
      at : pc i ≡ p
      lt : i < n
      holders :
          count holds n (update pc i p') + one_if (holds p) ≡ count holds n pc + one_if (holds p')
      runners : count runs n (update pc i p') + one_if (runs p) ≡ count runs n pc + one_if (runs p')
      debtors : count owes n (update pc i p') + one_if (owes p) ≡ count owes n pc + one_if (owes p')
      waiters :
          count waits n (update pc i p') + one_if (waits p) ≡ count waits n pc + one_if (waits p')
      -- no other goroutine is under the lock together with this one
      alone : (j : ℕ) → j < n → holds p ≡ true → holds (pc j) ≡ true → i ≡ j
      own_off : found_off p ≡ true → m.running ≡ false
      own_mark : marks p ≡ true → Merged m.world

    mover : i < n → (p' : Pc) → Mover (pc i) p'
    mover lt p' = record {
      at = refl;
      lt = lt;
      holders = count-update holds n pc i p' lt;
      runners = count-update runs n pc i p' lt;
      debtors = count-update owes n pc i p' lt;
      waiters = count-update waits n pc i p' lt;
      alone = λ j lt_j on_i on_j.
          count_unique holds n pc (omega (arith, inv.lock_held, one_if-le m.locked)) i j lt lt_j
            on_i on_j;
      own_off = inv.off i lt;
      own_mark = inv.marked i lt;
    }

    Move-counts : {p p' : Pc} {m' : Shared M} → Move M A true m p m' p' → Mover p p' → record {
      lock_held : count holds n (update pc i p') ≡ one_if m'.locked;
      runner : count runs n (update pc i p') ≡ one_if m'.running;
      tokens :
          count waits n (update pc i p')
          ≡ m'.manual_stop + m'.stopped + count owes n (update pc i p');
      manual_stop_room : m'.manual_stop ≤ capacity;
      stopped_room : m'.stopped ≤ capacity;
    }
    Move-counts (unlock_stopping {b}) f = elim b [ true ↦ ground arith | false ↦ ground arith ]
    Move-counts mv f = ground (arith, guard mv, f.own_off)

    -- What another goroutine found under the lock is true still, and what this one finds is.
    Move-off :
        {p p' : Pc} {m' : Shared M}
        → Move M A true m p m' p'
        → Mover p p'
        → (j : ℕ) → j < n
        → found_off (update pc i p' j) ≡ true
        → m'.running ≡ false
    Move-off (run_first e) f j lt q = ground (arith, off j lt)
    Move-off mv f j lt q = ground (arith, guard mv, off j lt, f.alone j lt)

    Move-on :
        {p p' : Pc} {m' : Shared M}
        → Move M A true m p m' p'
        → Mover p p'
        → (j : ℕ) → j < n
        → found_on (update pc i p' j) ≡ true
        → m'.running ≡ true
    Move-on (run_first e) f j lt q = ground (arith, on j lt)
    Move-on mv f j lt q = ground (arith, guard mv, on j lt, f.alone j lt)

    -- The world is touched only where `running` is false.
    Move-merged :
        {p p' : Pc} {m' : Shared M}
        → Move M A true m p m' p'
        → Mover p p'
        → m'.running ≡ true
        → Merged m'.world
    Move-merged (merge_fails e) f q = absurd (ground (arith, f.own_off))
    Move-merged (merge_succeeds e) f q = absurd (ground (arith, f.own_off))
    Move-merged unmerge f q = absurd (ground (arith, f.own_off))
    Move-merged mark_running f q = f.own_mark refl
    Move-merged mv f q = merged (ground (arith, guard mv))

    Move-marked :
        {p p' : Pc} {m' : Shared M}
        → Move M A true m p m' p'
        → Mover p p'
        → (j : ℕ) → j < n
        → marks (update pc i p' j) ≡ true
        → Merged m'.world
    Move-marked (merge_succeeds e) f j lt q = (m.world, e, refl)
    Move-marked (merge_fails e) f j lt q = absurd (ground (arith, f.alone j lt))
    Move-marked unmerge f j lt q = absurd (ground (arith, f.alone j lt))
    Move-marked mv f j lt q = marked j lt (ground arith)

    pub Move-Inv :
        {p' : Pc} {m' : Shared M} → i < n → Move M A true m (pc i) m' p' → Inv n m' (update pc i p')
    Move-Inv {p'} lt mv = record {
      lock_held = (Move-counts mv f).lock_held;
      runner = (Move-counts mv f).runner;
      tokens = (Move-counts mv f).tokens;
      manual_stop_room = (Move-counts mv f).manual_stop_room;
      stopped_room = (Move-counts mv f).stopped_room;
      off = Move-off mv f;
      on = Move-on mv f;
      merged = Move-merged mv f;
      marked = Move-marked mv f;
    }
      where
        f : Mover (pc i) p'
        f = mover lt p'

  Inv-start : (n : ℕ) (w : M.World) → Inv n (start_system M A w).mem (start_system M A w).pc
  Inv-start n w = record {
    lock_held = count-none holds n _ (λ i. refl);
    runner = count-none runs n _ (λ i. refl);
    tokens = none_waits;
    manual_stop_room = omega arith;
    stopped_room = omega arith;
    off = λ i h q. cc;
    on = λ i h q. cc;
    merged = λ q. cc;
    marked = λ i h q. absurd (cc);
  }
    where
      none_waits : count waits n (λ i. idle none) ≡ 0 + 0 + count owes n (λ i. idle none)
      none_waits = omega (
        arith,
        count-none waits n (λ i. idle none) (λ i. refl),
        count-none owes n (λ i. idle none) (λ i. refl),
      )

  pub Steps-Inv :
      {n : ℕ} {w : M.World} {s : System M A} → Steps M A n (start_system M A w) s → Inv n s.mem s.pc
  Steps-Inv {n} {w} here = Inv-start n w
  Steps-Inv (later r (pick i lt mv)) = Move-Inv (Steps-Inv r) i lt mv
