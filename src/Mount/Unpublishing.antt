-- ===== src/Mount/Unpublishing.antt =====
-- What `Unpublish` takes off, and that nothing but the target is changed by it or by `Publish`.
use union_csi.Base.{
  String, true, Option, none, some, ◌≡◌, ◌≢◌, ap, ◌∙◌, arith, Option-cases, inl, inr,
}
use union_csi.Base.Text.{contains_text}
use union_csi.Failure.{Err, ok, panic}
use union_csi.Mount.{
  PublishOptions, MountUtils, all_mount_options, make_and_mount, publish_target, publish_refs,
  publish, unpublish,
}
use union_csi.Mount.Publishing.{IsMountTable}

-- What `mountutils.CleanupMountPoint` promises: when it succeeds, or says that nothing is mounted
-- there, nothing is mounted at the target. It leaves every other path as it is.
pub record IsCleaning (U : MountUtils) (device : U.World → String → Option String) : Type 0 where
  pub cleaned :
      (t : String) (w : U.World)
      → (U.cleanup_mount_point t w).0 ≡ none
      → device (U.cleanup_mount_point t w).1 t ≡ none
  pub not_mounted :
      (t : String) (w : U.World) {e : Err}
      → (U.cleanup_mount_point t w).0 ≡ some e
      → contains_text (U.error_text e) "not mounted" ≡ true
      → device (U.cleanup_mount_point t w).1 t ≡ none
  pub other :
      (t : String) (w : U.World) (p : String)
      → p ≢ t
      → device (U.cleanup_mount_point t w).1 p ≡ device w p

module _ (U : MountUtils) (device : U.World → String → Option String) where
  -- `Publish` changes what is mounted at its target alone, whatever it answers.
  pub publish_other :
      (T : IsMountTable U device) (source target : String) (options : Option PublishOptions)
      (w : U.World) (p : String)
      → p ≢ target
      → device (publish U source target options w).1 p ≡ device w p
  unfolding publish publish_refs publish_target make_and_mount
  publish_other T source target none w p away =
      ground (arith, ap (λ f. f p) (T.mkdir_all-device target w))
  publish_other T source target (some o) w p away =
      let made = (U.mkdir_all target w).1 in
      ground (
        arith,
        ap (λ f. f p) (T.mkdir_all-device target w),
        T.mount_other source target "" (all_mount_options o) made p away,
      )

  module _ (L : IsCleaning U device) (target : String) (w : U.World) where
    unpublish_world : (unpublish U target w).1 ≡ (U.cleanup_mount_point target w).1
    unfolding unpublish
    unpublish_world = ground arith

    pub unpublish_other : (p : String) → p ≢ target → device (unpublish U target w).1 p ≡ device w p
    unpublish_other p away = ap (λ x. device x p) unpublish_world ∙ L.other target w p away

    -- When `Unpublish` succeeds, nothing is mounted at the target.
    pub unpublish_done :
        (unpublish U target w).0 ≡ ok tt → device (unpublish U target w).1 target ≡ none
    unfolding unpublish
    unpublish_done h = elim (Option-cases (U.cleanup_mount_point target w).0) [
      | inl fine ↦ ap (λ x. device x target) unpublish_world ∙ L.cleaned target w fine
      | inr (e, failed) ↦
          ap (λ x. device x target) unpublish_world
          ∙ L.not_mounted target w failed (ground (arith, failed))
    ]

    pub unpublish_total : (unpublish U target w).0 ≢ panic
    unfolding unpublish
    unpublish_total e = ground arith
