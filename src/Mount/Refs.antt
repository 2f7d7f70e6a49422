-- ===== src/Mount/Refs.antt =====
-- `GetDeviceNameAndMountsFromMount` of pkg/mount/mounter.go, against a description of its result.
use union_csi.Base.{
  String, Bool, not, ◌&&◌, ◌||◌, Option, none, some, List, [], ◌∷◌, ◌++◌, map, ◌≡◌, refl, sym,
  arith, ◌==◌, string_eq, Bool-cases, inl, inr, if◌then◌else◌,
}
use mathlib.Core.List.{append_assoc, append-nil}
use union_csi.Failure.{Err, Result, ok, err}

-- `mountutils.MountPoint`, as far as it is read.
pub record MountPoint : Type 0 where
  pub device : String
  pub path : String

-- The first loop, which breaks at the first mount on the path. The device stays empty if there is none.
unfoldable pub device_of : List MountPoint → String → String
device_of [] path = ""
device_of (m ∷ ms) path = let rest = device_of ms path in if m.path == path then m.device else rest

-- The second loop.
unfoldable pub refs_loop : List MountPoint → String → String → List String → List String
refs_loop [] device path refs = refs
refs_loop (m ∷ ms) device path refs = refs_loop ms device path (
    if m.device == device || m.device == path
    then (if not (m.path == path) then refs ++ m.path ∷ [] else refs)
    else refs)

-- `evaluated` and `listed` are what `filepath.EvalSymlinks` and the mounter's `List` answer.
unfoldable pub get_device_name_and_mounts :
    String × Option Err → List MountPoint × Option Err → Result (String × List String)
unfolding device_of refs_loop
get_device_name_and_mounts evaluated listed = elim evaluated.1 [
  | some e ↦ err e
  | none ↦ elim listed.1 [
    | some e ↦ err e
    | none ↦
        let device = device_of listed.0 evaluated.0 in
        ok (device, refs_loop listed.0 device evaluated.0 [])
  ]
]

abbrev pub filter : {A : Type 0} → (A → Bool) → List A → List A
filter p [] = []
filter p (x ∷ xs) = let rest = filter p xs in if p x then x ∷ rest else rest

-- The device of the first of some mounts, or the empty text.
abbrev pub first_device : List MountPoint → String
first_device [] = ""
first_device (m ∷ ms) = m.device

abbrev pub mounts_on : String → List MountPoint → List MountPoint
mounts_on path = filter (λ m. m.path == path)

-- The paths other than this one where a device, or this path itself as a device, is mounted.
abbrev pub other_paths : String → String → List MountPoint → List String
other_paths device path ms =
    map (λ m. m.path)
      (filter (λ m. (m.device == device || m.device == path) && not (m.path == path)) ms)

device_of-first_device :
    (ms : List MountPoint) (path : String) → device_of ms path ≡ first_device (mounts_on path ms)
unfolding device_of
device_of-first_device [] path = refl
device_of-first_device (m ∷ ms) path = ground (arith, device_of-first_device ms path)

refs_loop-other_paths :
    (ms : List MountPoint) (device path : String) (refs : List String)
    → refs_loop ms device path refs ≡ refs ++ other_paths device path ms
unfolding refs_loop
refs_loop-other_paths [] device path refs = sym (append-nil refs)
refs_loop-other_paths (m ∷ ms) device path refs =
    elim (Bool-cases (m.device == device || m.device == path)) [
      | inr other ↦ rw (other, refs_loop-other_paths ms device path refs) refl
      | inl same ↦ elim (Bool-cases (m.path == path)) [
        | inl here ↦ rw (same, here, refs_loop-other_paths ms device path refs) refl
        | inr there ↦
            rw (same, there, refs_loop-other_paths ms device path (refs ++ m.path ∷ []))
              (append_assoc refs (m.path ∷ []) (other_paths device path ms))
      ]
    ]

-- When both calls answer, the result is the device of the first mount on the path, or the empty
-- text, and, in their order, the other paths of mounts of that device or of the path itself.
-- Where a call fails, its error is the result.
pub get_device_name_and_mounts_lem :
    (path : String) (ms : List MountPoint) (a b : Option Err)
    → let device = first_device (mounts_on path ms) in
      get_device_name_and_mounts (path, a) (ms, b) ≡ (elim a [
        | some e ↦ err e
        | none ↦ elim b [ some e ↦ err e | none ↦ ok (device, other_paths device path ms) ]
      ])
unfolding get_device_name_and_mounts
get_device_name_and_mounts_lem path ms (some e) b = refl
get_device_name_and_mounts_lem path ms none (some e) = refl
get_device_name_and_mounts_lem path ms none none =
    rw (device_of-first_device ms path)
      (rw (refs_loop-other_paths ms (first_device (mounts_on path ms)) path []) refl)
