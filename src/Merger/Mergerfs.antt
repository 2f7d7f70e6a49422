-- ===== src/Merger/Mergerfs.antt =====
-- gogomergerfs/pkg/merger/mergerfs and gogomergerfs/pkg/cmd/gogomergerfs/mergerfs: the Merger that
-- runs the program mergerfs, and the command around it. What the program prints is not modelled.
use union_csi.Base.{
  ℕ, suc, ◌∙◌, refl, ◌⊎◌, String, ◌<>◌, Bool, true, Option, none, some, List, [], ◌∷◌, ◌++◌, ◌==◌,
  string_eq, if◌then◌else◌, is_empty, ◌≡◌, arith, Bool-cases, Option-cases, inl, inr,
}
use union_csi.Base.Text.{contains_text}
use union_csi.Failure.{Err, ok, check, Act, ◌>>◌, call, after-eq-ok}
use union_csi.Merger.{Merger, MergeArgs}
use union_csi.Merger.Blocking.{merge_error, unmerge_error}

-- What a finished command answers: the error of `CombinedOutput`, and the rest as its ProcessState
-- tells it.
pub record Finished : Type 0 where
  pub error : Option Err
  pub success : Bool
  pub exit_error : Err

-- What is called of os/exec and of k8s.io/mount-utils. `error_text` is the method `Error`.
pub record Host : Type 1 where
  pub World : Type 0
  pub combined_output : String → List String → World → Finished × World
  pub unmount : String → World → Option Err × World
  pub error_text : Err → String

-- strings.Join
abbrev pub join : String → List String → String
join sep [] = ""
join sep (s ∷ []) = s
join sep (s ∷ r ∷ rest) = s <> (sep <> join sep (r ∷ rest))

unfoldable pub merge_args : List String → String → List String → List String
merge_args branches target options =
    (join ":" branches ∷ target ∷ [])
    ++ (if is_empty options then [] else "-o" ∷ join "," options ∷ [])

module _ (H : Host) where
  -- What `Merge` makes of a command that has finished.
  unfoldable pub merge_outcome : Finished → Option Err
  unfolding string_eq
  merge_outcome f = elim f.error [
    | none ↦ none
    | some e ↦
        if H.error_text e == "wait: no child processes"
        then (if f.success then none else some f.exit_error)
        else some e
  ]

  unfoldable pub merge :
      String → List String → String → List String → H.World → Option Err × H.World
  unfolding merge_outcome
  merge binary_path branches target options w =
      let done = H.combined_output binary_path (merge_args branches target options) w in
      (merge_outcome done.0, done.1)

  unfoldable pub unmount_outcome : Option Err → Option Err
  unmount_outcome none = none
  unmount_outcome (some e) = if contains_text (H.error_text e) "not mounted" then none else some e

  unfoldable pub unmerge : String → H.World → Option Err × H.World
  unfolding unmount_outcome
  unmerge target w = let done = H.unmount target w in (unmount_outcome done.0, done.1)

  -- `NewMergerfs`
  abbrev pub new_mergerfs : Merger
  new_mergerfs = record { World = H.World; merge = merge "mergerfs"; unmerge = unmerge }

pub record Flags : Type 0 where
  pub branches : List String
  pub target : String
  pub options : List String
  pub block : Bool

abbrev pub merge_args_of : Flags → MergeArgs
merge_args_of f = record { branches = f.branches; target = f.target; options = f.options }

module _ (M : Merger) (A : MergeArgs) where
  -- `Run` of a goroutine that nobody else disturbs. While it blocks, the world goes its way.
  unfoldable pub run_alone : (M.World → M.World) → Act M.World (Unit {0})
  run_alone block w =
      let done = M.merge A.branches A.target A.options w in
      elim (merge_error done.0) [ some e ↦ (check (some e), done.1) | none ↦ (ok tt, block done.1) ]

  -- `CleanUp` of a goroutine that nobody else disturbs, once `Run` has returned.
  unfoldable pub clean_up_alone : Act M.World (Unit {0})
  clean_up_alone w = let done = M.unmerge A.target w in (check (unmerge_error done.0), done.1)

-- `runCommand`, where `block` is what happens until the signal comes.
unfoldable pub run_command : (H : Host) → Flags → (H.World → H.World) → Act H.World (Unit {0})
unfolding run_alone clean_up_alone
run_command H flags block =
    if flags.block
    then (run_alone (new_mergerfs H) (merge_args_of flags) block
        >> clean_up_alone (new_mergerfs H) (merge_args_of flags))
    else call (merge H "mergerfs" flags.branches flags.target flags.options)

-- The world in which the command has merged.
abbrev pub merged_world : (H : Host) → Flags → H.World → H.World
merged_world H f w = (merge H "mergerfs" f.branches f.target f.options w).1

-- What the program mergerfs and the utilities do to the mounts that are stacked at a path. mergerfs
-- succeeds with one more at the path that is its second argument, an unmount that reports no error
-- takes the uppermost one off, and one that reports that nothing is mounted finds none.
pub record IsStacking (H : Host) (stacked : H.World → String → ℕ) : Type 0 where
  pub mounts :
      (branches target : String) (more : List String) (w : H.World)
      → let done = H.combined_output "mergerfs" (branches ∷ target ∷ more) w in
        (done.0.error ≡ none) ⊎ (done.0.success ≡ true)
        → stacked done.1 target ≡ suc (stacked w target)
  pub unmounts :
      (t : String) (w : H.World)
      → (H.unmount t w).0 ≡ none
      → stacked w t ≡ suc (stacked (H.unmount t w).1 t)
  pub not_mounted :
      (t : String) (w : H.World) (e : Err)
      → (H.unmount t w).0 ≡ some e
      → contains_text (H.error_text e) "not mounted" ≡ true
      → stacked w t ≡ 0

module _ (H : Host) (stacked : H.World → String → ℕ) (U : IsStacking H stacked) where
  -- A command that counts as successful has reported no error, or ended well although its end could
  -- not be waited for.
  merge_outcome-none :
      (f : Finished) → merge_outcome H f ≡ none → (f.error ≡ none) ⊎ (f.success ≡ true)
  unfolding merge_outcome
  merge_outcome-none f h = elim (Option-cases f.error) [
    | inl fine ↦ inl fine
    | inr (e, failed) ↦ elim (Bool-cases f.success) [
      | inl good ↦ inr good
      | inr bad ↦ absurd (ground (arith, failed, bad))
    ]
  ]

  merge_adds :
      (branches : List String) (target : String) (options : List String) (w : H.World)
      → (merge H "mergerfs" branches target options w).0 ≡ none
      → stacked (merge H "mergerfs" branches target options w).1 target ≡ suc (stacked w target)
  unfolding merge merge_args
  merge_adds branches target options w h =
      U.mounts (join ":" branches) target
        (if is_empty options then [] else "-o" ∷ join "," options ∷ []) w (merge_outcome-none _ h)

  -- An unmerge of a target with a mount takes one off.
  unmerge_takes :
      (t : String) (w : H.World) (n : ℕ)
      → stacked w t ≡ suc n
      → (unmerge H t w).0 ≡ none
      → stacked (unmerge H t w).1 t ≡ n
  unfolding unmerge unmount_outcome
  unmerge_takes t w n high h = elim (Option-cases (H.unmount t w).0) [
    | inl fine ↦ omega (arith, U.unmounts t w fine)
    | inr (x, e) ↦
        let bare : stacked w t ≡ 0 = U.not_mounted t w x e (ground (arith, e)) in
        absurd (omega (arith, bare))
  ]

  run_alone_done :
      (f : Flags) (block : H.World → H.World) (w : H.World)
      → (run_alone (new_mergerfs H) (merge_args_of f) block w).0 ≡ ok tt
      → ((run_alone (new_mergerfs H) (merge_args_of f) block w).1 ≡ block (merged_world H f w))
        × ((merge H "mergerfs" f.branches f.target f.options w).0 ≡ none)
  unfolding run_alone
  run_alone_done f block w h =
      elim (Option-cases (merge H "mergerfs" f.branches f.target f.options w).0) [
        | inl fine ↦ (ground (arith, fine), fine)
        | inr (e, failed) ↦ absurd (ground (arith, failed))
      ]

  clean_up_alone_done :
      (f : Flags) (w : H.World)
      → (clean_up_alone (new_mergerfs H) (merge_args_of f) w).0 ≡ ok tt
      → ((clean_up_alone (new_mergerfs H) (merge_args_of f) w).1 ≡ (unmerge H f.target w).1)
        × ((unmerge H f.target w).0 ≡ none)
  unfolding clean_up_alone
  clean_up_alone_done f w h = (refl, ground arith)

  -- A command that blocks and returns with no error leaves as many mounts at the target as there were,
  -- where those at the target stay as they are while it blocks.
  pub run_command_restores :
      (f : Flags) (block : H.World → H.World) (w : H.World)
      → f.block ≡ true
      → stacked (block (merged_world H f w)) f.target ≡ stacked (merged_world H f w) f.target
      → (run_command H f block w).0 ≡ ok tt
      → stacked (run_command H f block w).1 f.target ≡ stacked w f.target
  unfolding run_command
  run_command_restores f block w on still h =
      let A = merge_args_of f in
      let N = new_mergerfs H in
      let run = run_alone N A block w in
      let (u, run_ok, clean_ok, same) =
        after-eq-ok run.0 (λ u. clean_up_alone N A) run.1 (ground (arith, on)) in
      let (ran, merged) = run_alone_done f block w run_ok in
      let (cleaned, unmerged) = clean_up_alone_done f run.1 clean_ok in
      let high : stacked run.1 f.target ≡ suc (stacked w f.target) =
        rw ran (still ∙ merge_adds f.branches f.target f.options w merged) in
      rw on (rw same (rw cleaned (unmerge_takes f.target run.1 (stacked w f.target) high unmerged)))
