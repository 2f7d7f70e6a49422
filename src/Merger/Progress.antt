-- ===== src/Merger/Progress.antt =====
-- Where the goroutines of one blockingMerger can still move with no context cancelled, and the two
-- ways in which none can.
use union_csi.Base.{
  ℕ, ◌≤◌, ◌<◌, ◌≡◌, refl, Bool, true, false, arith, ◌⊎◌, inl, inr, Bool-cases, Option-cases,
}
use union_csi.Merger.{Merger, MergeArgs}
use union_csi.Merger.Threads.{one_if, count, count-le, count_mono, count-positive}
use union_csi.Merger.Blocking.{
  capacity, Pc, Shared, Move, System, start_system, Steps, merge_call, idle, run_lock, stop_lock,
  clean_lock, run_check, run_merge, run_mark, run_unlock, run_return, selecting, stopping, marking,
  leaving, confirming, stop_check, stop_return, stop_send, stop_unlock, stop_wait, clean_check,
  clean_unmerge, clean_return,
}
use union_csi.Merger.Phases.{holds, owes, waits}
use union_csi.Merger.Invariant.{Inv, Steps-Inv}
use union_csi.Merger.Safety.{selects, Jammed}
use native.Mathlib.Decide.{dec_lt}

-- In a call of `Run`, `Stop` or `CleanUp`, and neither in the `select` of `Run` nor in the wait of
-- `Stop`.
abbrev pub busy : Pc → Bool
busy (idle r) = false
busy stop_wait = false
busy selecting = false
busy _ = true

abbrev pub in_call : Pc → Bool
in_call (idle r) = false
in_call _ = true

owes-le-busy : (p : Pc) → one_if (owes p) ≤ one_if (busy p)
owes-le-busy (stopping b) = ground arith
owes-le-busy p = ground arith

module _ (M : Merger) (A : MergeArgs) where
  -- A goroutine there has a next step, whether its context is cancelled or not.
  abbrev pub CanMove : Shared M → Pc → Type 0
  CanMove m p = (m' : Shared M) × (p' : Pc) × ((done : Bool) → Move M A done m p m' p')

  CanMove-merge : (m : Shared M) → CanMove m run_merge
  CanMove-merge m = elim (Option-cases (merge_call M A m.world).0) [
    | inl e ↦ (_, _, λ done. Move.merge_succeeds e)
    | inr (x, e) ↦ (_, _, λ done. Move.merge_fails e)
  ]

  -- Under the lock, only the send of `Stop` may have to wait.
  CanMove-holder :
      (m : Shared M) (p : Pc)
      → holds p ≡ true
      → CanMove m p ⊎ ((p ≡ stop_send) × (capacity ≤ m.manual_stop))
  CanMove-holder m run_check q = elim (Bool-cases m.running) [
    | inl e ↦ inl (_, _, λ done. Move.run_again e)
    | inr e ↦ inl (_, _, λ done. Move.run_first e)
  ]
  CanMove-holder m run_merge q = inl (CanMove-merge m)
  CanMove-holder m run_mark q = inl (_, _, λ done. Move.mark_running)
  CanMove-holder m run_unlock q = inl (_, _, λ done. Move.unlock_run)
  CanMove-holder m (run_return r) q = inl (_, _, λ done. Move.return_run)
  CanMove-holder m (marking b) q = inl (_, _, λ done. Move.mark_stopped)
  CanMove-holder m (leaving b) q = inl (_, _, λ done. Move.unlock_stopping)
  CanMove-holder m stop_check q = elim (Bool-cases m.running) [
    | inl e ↦ inl (_, _, λ done. Move.stop_running e)
    | inr e ↦ inl (_, _, λ done. Move.stop_nothing e)
  ]
  CanMove-holder m stop_return q = inl (_, _, λ done. Move.return_stop)
  CanMove-holder m stop_send q = elim (dec_lt m.manual_stop capacity) [
    | yes free ↦ inl (_, _, λ done. Move.send_stop free)
    | no full ↦ inr (refl, omega arith)
  ]
  CanMove-holder m stop_unlock q = inl (_, _, λ done. Move.unlock_stop)
  CanMove-holder m clean_check q = elim (Bool-cases m.running) [
    | inl e ↦ inl (_, _, λ done. Move.clean_nothing e)
    | inr e ↦ inl (_, _, λ done. Move.clean_first e)
  ]
  CanMove-holder m clean_unmerge q = inl (_, _, λ done. Move.unmerge)
  CanMove-holder m (clean_return r) q = inl (_, _, λ done. Move.return_clean)
  CanMove-holder m p q = absurd (ground arith)

  -- While the lock is free, only the confirmation of `Run` may have to wait.
  CanMove-free :
      (m : Shared M) (p : Pc)
      → m.locked ≡ false
      → holds p ≡ false
      → busy p ≡ true
      → CanMove m p ⊎ (capacity ≤ m.stopped)
  CanMove-free m run_lock free q b = inl (_, _, λ done. Move.lock_run free)
  CanMove-free m stop_lock free q b = inl (_, _, λ done. Move.lock_stop free)
  CanMove-free m clean_lock free q b = inl (_, _, λ done. Move.lock_clean free)
  CanMove-free m (stopping s) free q b = inl (_, _, λ done. Move.lock_stopping free)
  CanMove-free m confirming free q b = elim (dec_lt m.stopped capacity) [
    | yes room ↦ inl (_, _, λ done. Move.confirm room)
    | no full ↦ inr (omega arith)
  ]
  CanMove-free m p free q b = absurd (ground arith)

  CanMove-wait :
      (m : Shared M) (p : Pc) → holds p ≡ false → waits p ≡ true → 0 < m.stopped → CanMove m p
  CanMove-wait m stop_wait h q some_token = (_, _, λ done. Move.receive_stopped some_token)
  CanMove-wait m p h q some_token = absurd (ground arith)

  CanMove-select : (m : Shared M) (p : Pc) → selects p ≡ true → 0 < m.manual_stop → CanMove m p
  CanMove-select m selecting q some_token = (_, _, λ done. Move.receive_stop some_token)
  CanMove-select m p q some_token = absurd (ground arith)

  -- What is open to the first n goroutines, though no context is cancelled.
  pub data Outlook (n : ℕ) (s : System M A) : Type 0 where
    -- one that is in a call can make its next step
    moves : (i : ℕ) → i < n → in_call (s.pc i) ≡ true → CanMove s.mem (s.pc i) → Outlook n s
    -- one is in `Stop`, under the lock, before the full channel that no `Run` reads
    jammed : (i : ℕ) → i < n → Jammed M A n i s → Outlook n s
    -- those that are in a call are in the `select` of `Run` or the wait of `Stop`, the tokens of the
    -- latter all lie in `manualStop`, and where one is in the `select` there are none
    resting :
        count busy n s.pc ≡ 0
        → s.mem.stopped ≡ 0
        → count waits n s.pc ≡ s.mem.manual_stop
        → (0 < count selects n s.pc → s.mem.manual_stop ≡ 0)
        → Outlook n s

  module _ {n : ℕ} {s : System M A} (inv : Inv M A n s.mem s.pc) where
    Outlook-holder : (i : ℕ) → i < n → holds (s.pc i) ≡ true → Outlook n s
    Outlook-holder i lt on = elim (CanMove-holder s.mem (s.pc i) on) [
      | inl can ↦ moves i lt (ground arith) can
      | inr (sends, full) ↦ elim (dec_lt 0 (count selects n s.pc)) [
        | yes some_reader ↦
            let (j, below, reads) = count-positive selects n s.pc some_reader in
            moves j below (ground arith) (CanMove-select s.mem (s.pc j) reads (omega (arith, full)))
        | no none_reads ↦ jammed i lt (record {
          sends = sends;
          full = omega (arith, full, inv.manual_stop_room);
          unread = omega arith;
        })
      ]
    ]

    none_holds : s.mem.locked ≡ false → (i : ℕ) → i < n → holds (s.pc i) ≡ false
    none_holds free i lt = ground (arith, inv.lock_held, count-le holds n s.pc i lt)

    Outlook-stopped : s.mem.locked ≡ false → 0 < s.mem.stopped → Outlook n s
    Outlook-stopped free some_token =
        let (j, below, on) = count-positive waits n s.pc (omega (arith, inv.tokens)) in
        moves j below (ground arith)
          (CanMove-wait s.mem (s.pc j) (none_holds free j below) on some_token)

    -- No goroutine is busy, and none has a token to take from `stopped`.
    Outlook-quiet : s.mem.stopped ≡ 0 → count busy n s.pc ≡ 0 → Outlook n s
    Outlook-quiet no_token none_busy =
        let all_there : count waits n s.pc ≡ s.mem.manual_stop =
          omega (arith, inv.tokens, no_token, count_mono owes busy owes-le-busy n s.pc) in
        elim (dec_lt 0 (count selects n s.pc)) [
          | no none_reads ↦
              resting none_busy no_token all_there (λ reads. absurd (none_reads reads))
          | yes some_reader ↦ elim (dec_lt 0 s.mem.manual_stop) [
            | no empty ↦ resting none_busy no_token all_there (λ reads. omega arith)
            | yes some_stop ↦
                let (j, below, reads) = count-positive selects n s.pc some_reader in
                moves j below (ground arith) (CanMove-select s.mem (s.pc j) reads some_stop)
          ]
        ]

    Outlook-free : s.mem.locked ≡ false → Outlook n s
    Outlook-free free = elim (dec_lt 0 s.mem.stopped) [
      | yes some_token ↦ Outlook-stopped free some_token
      | no no_token ↦ elim (dec_lt 0 (count busy n s.pc)) [
        | yes some_busy ↦
            let (i, lt, on) = count-positive busy n s.pc some_busy in
            elim (CanMove-free s.mem (s.pc i) free (none_holds free i lt) on) [
              | inl can ↦ moves i lt (ground arith) can
              | inr full ↦ absurd (omega (arith, full))
            ]
        | no none_busy ↦ Outlook-quiet (omega arith) (omega arith)
      ]
    ]

  -- In every state that the goroutines can come to, though no context is cancelled: one that is in a
  -- call can make its next step, or a Stop is jammed, or those that are in a call wait, in the `select`
  -- of Run or for the end of Stop. Where they wait, `stopped` is empty, `manualStop` has a token for
  -- each Stop, and it has none where one is in the `select`.
  pub Steps-Outlook :
      {n : ℕ} {w : M.World} {s : System M A} → Steps M A n (start_system M A w) s → Outlook n s
  Steps-Outlook {n} {s} r = elim (Bool-cases s.mem.locked) [
    | inr free ↦ Outlook-free (Steps-Inv M A r) free
    | inl held ↦
        let (i, lt, on) =
          count-positive holds n s.pc (ground (arith, (Steps-Inv M A r).lock_held)) in
        Outlook-holder (Steps-Inv M A r) i lt on
  ]
