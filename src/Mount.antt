-- ===== src/Mount.antt =====
-- pkg/mount/mounter.go: mounting a volume at its target path, and taking it off.
pub mod Publishing
pub mod Unpublishing
pub mod Memory
pub mod Refs
mod Samples
use union_csi.Base.{
  String, Bool, true, false, not, Option, none, some, List, [], ◌∷◌, ◌++◌, ◌==◌, string_eq,
  contains, if◌then◌else◌,
}
use union_csi.Base.Text.{contains_text}
use union_csi.Failure.{
  Err, errorf, source_corrupted, source_unreadable, source_missing, source_not_mounted,
  many_references, target_corrupted, target_unreadable, target_taken, make_target_failed, not_exist,
  Site, is, Result, ok, err, panic, check, Act,
}

pub record PublishOptions : Type 0 where
  pub fs_type : String
  pub read_only : Bool
  pub mount_options : List String

-- What the mounter calls of k8s.io/mount-utils and of the operating system. The reads are taken at one
-- moment. `error_text` is `fmt.Sprint` of an error.
pub record MountUtils : Type 1 where
  pub World : Type 0
  pub path_exists : String → World → Bool × Option Err
  pub is_corrupted_mnt : Err → Bool
  pub get_mount_refs : String → World → List String × Option Err
  pub is_mount_point : String → World → Bool × Option Err
  pub mkdir_all : String → World → Option Err × World
  pub mount : String → String → String → List String → World → Option Err × World
  pub cleanup_mount_point : String → World → Option Err × World
  pub error_text : Err → String

-- The references that `Publish` accepts: none, or the target alone.
unfoldable pub fits : List String → String → Bool
fits [] target = true
fits (ref ∷ []) target = ref == target
fits (_ ∷ _ ∷ _) target = false

unfoldable pub all_mount_options : PublishOptions → List String
all_mount_options o =
    let bound = "bind" ∷ o.mount_options in if o.read_only then bound ++ "ro" ∷ [] else bound

module _ (U : MountUtils) where
  -- The end of `Publish`. Nil options are dereferenced once the directory is made.
  unfoldable pub make_and_mount : String → String → Option PublishOptions → Act U.World (Unit {0})
  make_and_mount source target options w =
      let made = U.mkdir_all target w in
      elim made.0 [
        | some e ↦ (err (errorf make_target_failed), made.1)
        | none ↦ elim options [
          | none ↦ (panic, made.1)
          | some o ↦
              let done = U.mount source target "" (all_mount_options o) made.1 in
              (check done.0, done.1)
        ]
      ]

  -- The error for which the target is not mounted at all. That it does not exist is none.
  unfoldable pub target_error : Option Err → Option Site
  target_error none = none
  target_error (some e) =
      if is e not_exist
      then none
      else some (if U.is_corrupted_mnt e then target_corrupted else target_unreadable)

  unfoldable pub publish_target : String → String → Option PublishOptions → Act U.World (Unit {0})
  publish_target source target options w =
      let mnt = U.is_mount_point target w in
      elim (target_error mnt.1) [
        | some site ↦ (err (errorf site), w)
        | none ↦
            if mnt.0 then (err (errorf target_taken), w) else make_and_mount source target options w
      ]

  unfoldable pub publish_refs : String → String → Option PublishOptions → Act U.World (Unit {0})
  publish_refs source target options w =
      let refs = U.get_mount_refs source w in
      elim refs.1 [
        | some e ↦ (err (errorf source_not_mounted), w)
        | none ↦
            if not (fits refs.0 target)
            then (err (errorf many_references), w)
            else if contains refs.0 target
            then (ok tt, w)
            else publish_target source target options w
      ]

  unfoldable pub publish : String → String → Option PublishOptions → Act U.World (Unit {0})
  publish source target options w =
      let exists = U.path_exists source w in
      elim exists.1 [
        | some e ↦
            (err (errorf (if U.is_corrupted_mnt e then source_corrupted else source_unreadable)), w)
        | none ↦
            if not exists.0
            then (err (errorf source_missing), w)
            else publish_refs source target options w
      ]

  unfoldable pub unpublish : String → Act U.World (Unit {0})
  unpublish target w =
      let cleaned = U.cleanup_mount_point target w in
      elim cleaned.0 [
        | none ↦ (ok tt, cleaned.1)
        | some e ↦
            (if contains_text (U.error_text e) "not mounted" then ok tt else err e, cleaned.1)
      ]
