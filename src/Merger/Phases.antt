-- ===== src/Merger/Phases.antt =====
-- The parts of `Run`, `Stop` and `CleanUp` that the invariant of blockingMerger speaks of.
use union_csi.Base.{Bool, true, false}
use union_csi.Merger.Blocking.{
  Pc, run_check, run_merge, run_mark, run_unlock, run_return, selecting, stopping, marking, leaving,
  confirming, stop_check, stop_return, stop_send, stop_unlock, stop_wait, clean_check,
  clean_unmerge, clean_return,
}

-- Between a `Lock` and the `Unlock` that follows.
abbrev pub holds : Pc → Bool
holds (run_check) = true
holds (run_merge) = true
holds (run_mark) = true
holds (run_unlock) = true
holds (run_return r) = true
holds (marking b) = true
holds (leaving b) = true
holds (stop_check) = true
holds (stop_return) = true
holds (stop_send) = true
holds (stop_unlock) = true
holds (clean_check) = true
holds (clean_unmerge) = true
holds (clean_return r) = true
holds _ = false

-- In a `Run` that set `running` and has not reset it.
abbrev pub runs : Pc → Bool
runs run_unlock = true
runs selecting = true
runs (stopping b) = true
runs (marking b) = true
runs _ = false

-- In a `Run` that took a token from `manualStop` and has not put one into `stopped`.
abbrev pub owes : Pc → Bool
owes (stopping b) = b
owes (marking b) = b
owes (leaving b) = b
owes confirming = true
owes _ = false

-- In a `Stop` that put a token into `manualStop`.
abbrev pub waits : Pc → Bool
waits stop_unlock = true
waits stop_wait = true
waits _ = false

-- Past a test that found `running` false, or true, and still under the lock.
abbrev pub found_off : Pc → Bool
found_off run_merge = true
found_off run_mark = true
found_off clean_unmerge = true
found_off _ = false

abbrev pub found_on : Pc → Bool
found_on stop_send = true
found_on _ = false

abbrev pub marks : Pc → Bool
marks run_mark = true
marks _ = false
