-- ===== src/Merger/Program.antt =====
-- The program gogomergerfs: gogomergerfs/cmd/gogomergerfs/main.go, the root command in
-- gogomergerfs/pkg/cmd/gogomergerfs, and the flags of its command mergerfs.
use union_csi.Base.{ℕ, String, Bool, false, true, List, [], ◌∷◌, ◌≡◌, arith}
use union_csi.Failure.{Err, Result, ok, err, panic}
use union_csi.Merger.Mergerfs.{
  Host, Flags, IsStacking, merged_world, run_command, run_command_restores,
}

-- `cobra.Command`, as far as a command line is read by it: its name, whether it takes arguments
-- beside flags, and the names of its flags, each with its shorthand.
pub record Command : Type 0 where
  pub name : String
  pub takes_args : Bool
  pub flag_names : List (String × String)

-- `NewCommand` of the command mergerfs, in the order in which the flags are declared.
abbrev pub mergerfs_command : Command
mergerfs_command = record {
  name = "mergerfs";
  takes_args = false;
  flag_names = ("branches", "") ∷ ("target", "") ∷ ("options", "o") ∷ ("block", "") ∷ [];
}

-- What the flags are where the command line does not set them.
abbrev pub default_flags : Flags
default_flags = record { branches = []; target = ""; options = []; block = false }

-- `NewCommand` of the root, with the commands that it is given.
abbrev pub root_command : Command
root_command = record { name = "gogomergerfs"; takes_args = false; flag_names = [] }

abbrev pub commands : List Command
commands = mergerfs_command ∷ []

-- What a command line comes to: the action of the command mergerfs with these flags, a text that is
-- shown, or an error.
pub data Line : Type 0 where
  merges : Flags → Line
  shows : Line
  refused : Err → Line

-- How github.com/spf13/cobra reads a command line by a root, its commands and the default flags.
abbrev pub Reader : Type 0
Reader = Command → List Command → Flags → List String → Line

-- How the program ends.
pub data Ending : Type 0 where
  exited : ℕ → Ending
  panicked : Ending

abbrev pub ending_of : Result (Unit {0}) → Ending
ending_of (ok u) = exited 0
ending_of (err e) = exited 1
ending_of panic = panicked

module _ (H : Host) (read : Reader) where
  -- `Execute` on a command line, where `block` is what happens until the signal comes.
  unfoldable pub execute : List String → (H.World → H.World) → H.World → Ending × H.World
  unfolding run_command
  execute args block w = elim (read root_command commands default_flags args) [
    | merges f ↦ let r = run_command H f block w in (ending_of r.0, r.1)
    | shows ↦ (exited 0, w)
    | refused e ↦ (exited 1, w)
  ]

  exited-ending_of : (r : Result (Unit {0})) → ending_of r ≡ exited 0 → r ≡ ok tt
  exited-ending_of (ok u) h = ground arith
  exited-ending_of (err e) h = absurd (ground arith)
  exited-ending_of panic h = absurd (ground arith)

  -- A command line that is read as the command mergerfs with the flag `block`, and with which the
  -- program ends with status 0, leaves as many mounts at the target as there were before, where those
  -- at the target stay as they are while it blocks.
  pub execute_restores :
      (stacked : H.World → String → ℕ) (U : IsStacking H stacked) (args : List String) (f : Flags)
      (block : H.World → H.World) (w : H.World)
      → read root_command commands default_flags args ≡ merges f
      → f.block ≡ true
      → stacked (block (merged_world H f w)) f.target ≡ stacked (merged_world H f w) f.target
      → (execute args block w).0 ≡ exited 0
      → stacked (execute args block w).1 f.target ≡ stacked w f.target
  unfolding execute
  execute_restores stacked U args f block w line on still h =
      let done = exited-ending_of (run_command H f block w).0 (ground (arith, line)) in
      rw (line, execute) (run_command_restores H stacked U f block w on still done)
