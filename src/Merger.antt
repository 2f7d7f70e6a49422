-- ===== src/Merger.antt =====
-- gogomergerfs/pkg/merger: the interface `Merger`, and the struct behind `BlockingMerger`.
pub mod Threads
pub mod Blocking
pub mod Phases
pub mod Invariant
pub mod Safety
pub mod Progress
pub mod Termination
pub mod Mergerfs
pub mod Program
pub mod Alone
mod Samples
use union_csi.Base.{ℕ, String, Bool, false, Option, List}
use union_csi.Failure.{Err}

-- `Merger`, over the world that its calls change.
pub record Merger : Type 1 where
  pub World : Type 0
  pub merge : List String → String → List String → World → Option Err × World
  pub unmerge : String → World → Option Err × World

-- The arguments that `Run` and `CleanUp` pass on.
pub record MergeArgs : Type 0 where
  pub branches : List String
  pub target : String
  pub options : List String
