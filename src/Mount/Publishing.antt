-- ===== src/Mount/Publishing.antt =====
-- What `Publish` mounts, and that it covers no mount.
use union_csi.Base.{
  String, true, false, Option, none, some, List, ◌≡◌, ◌≢◌, ap, ◌∙◌, inl, inr, arith, Bool-cases,
  Option-cases, ◌==◌, ==_refl, string_eq, contains,
}
use union_csi.Failure.{Err, not_exist, is, Result, ok, panic, check}
use union_csi.Mount.{
  PublishOptions, MountUtils, fits, all_mount_options, make_and_mount, target_error, publish_target,
  publish_refs, publish,
}

-- What the mount utilities promise, in terms of the device that is mounted at a path.
pub record IsMountTable (U : MountUtils) (device : U.World → String → Option String) : Type 0 where
  -- the references are paths where the device of the source is mounted
  pub refs :
      (s t : String) (w : U.World)
      → (U.get_mount_refs s w).1 ≡ none
      → contains (U.get_mount_refs s w).0 t ≡ true
      → device w t ≡ device w s
  pub not_mounted :
      (t : String) (w : U.World) → U.is_mount_point t w ≡ (false, none) → device w t ≡ none
  pub absent :
      (t : String) (w : U.World) {e : Err}
      → (U.is_mount_point t w).1 ≡ some e
      → is e not_exist ≡ true
      → device w t ≡ none
  pub mkdir_all-device : (t : String) (w : U.World) → device (U.mkdir_all t w).1 ≡ device w
  -- only the target of a mount changes
  pub mount_other :
      (s t f : String) (os : List String) (w : U.World) (p : String)
      → p ≢ t
      → device (U.mount s t f os w).1 p ≡ device w p
  -- a bind mount that succeeds puts the source's device at the target
  pub bind_done :
      (s t f : String) (os : List String) (w : U.World)
      → contains os "bind" ≡ true
      → (U.mount s t f os w).0 ≡ none
      → device (U.mount s t f os w).1 t ≡ device w s

-- `Publish` asks for a bind mount, whatever the options.
all_mount_options-bind : (o : PublishOptions) → contains (all_mount_options o) "bind" ≡ true
unfolding all_mount_options
all_mount_options-bind o = ground (arith, ==_refl {A = String} "bind")

check-eq-ok : (o : Option Err) {u : Unit {0}} → check o ≡ ok u → o ≡ none
check-eq-ok o h = ground arith

module _ (U : MountUtils) (device : U.World → String → Option String) (T : IsMountTable U device)
    (source target : String) (options : Option PublishOptions) where
  -- Every mount of w is there in w'.
  abbrev pub Keeps : U.World → U.World → Type 0
  Keeps w w' = (p d : String) → device w p ≡ some d → device w' p ≡ some d

  -- A result that is success leaves the source's device at the target.
  abbrev Binds : U.World → Result (Unit {0}) × U.World → Type 0
  Binds w r = r.0 ≡ ok tt → device r.1 target ≡ device w source

  mkdir_all-Keeps : (w : U.World) → Keeps w (U.mkdir_all target w).1
  mkdir_all-Keeps w p d h = rw (T.mkdir_all-device target w) h

  -- The world after the directory is made and the mount is tried.
  abbrev mounted : List String → U.World → Option Err × U.World
  mounted os w = U.mount source target "" os (U.mkdir_all target w).1

  mount-Keeps : (os : List String) (w : U.World) → device w target ≡ none → Keeps w (mounted os w).1
  mount-Keeps os w bare p d h = elim (Bool-cases (p == target)) [
    | inl same ↦ absurd (ground arith)
    | inr other ↦
        T.mount_other source target "" os (U.mkdir_all target w).1 p (ground arith)
        ∙ mkdir_all-Keeps w p d h
  ]

  mount-Binds :
      (os : List String) (w : U.World)
      → contains os "bind" ≡ true
      → (mounted os w).0 ≡ none
      → device (mounted os w).1 target ≡ device w source
  mount-Binds os w binds fine =
      T.bind_done source target "" os (U.mkdir_all target w).1 binds fine
      ∙ ap (λ f. f source) (T.mkdir_all-device target w)

  make_and_mount_lem :
      (w : U.World)
      → device w target ≡ none
      → let r = make_and_mount U source target options w in Keeps w r.1 × Binds w r
  unfolding make_and_mount
  make_and_mount_lem w bare = elim (Option-cases (U.mkdir_all target w).0) [
    | inr (e, failed) ↦
        (rw (failed, make_and_mount) (mkdir_all-Keeps w), λ h. absurd (ground (arith, failed)))
    | inl fine ↦ elim (Option-cases options) [
      | inl unset ↦ (
        rw (fine, unset, make_and_mount) (mkdir_all-Keeps w),
        λ h. absurd (ground (arith, fine, unset)),
      )
      | inr (o, set) ↦
          rw (fine, set, make_and_mount)
            (
              mount-Keeps (all_mount_options o) w bare,
              λ h. mount-Binds (all_mount_options o) w (all_mount_options-bind o) (check-eq-ok _ h),
            )
    ]
  ]

  -- The target that is not mounted, as the test of `Publish` finds out.
  bare_target :
      (w : U.World)
      → target_error U (U.is_mount_point target w).1 ≡ none
      → (U.is_mount_point target w).0 ≡ false
      → device w target ≡ none
  unfolding target_error
  bare_target w fine off = elim (Option-cases (U.is_mount_point target w).1) [
    | inl e ↦ T.not_mounted target w (ground (arith, e))
    | inr (x, e) ↦ T.absent target w e (ground (arith, e))
  ]

  publish_target_lem :
      (w : U.World) → let r = publish_target U source target options w in Keeps w r.1 × Binds w r
  unfolding publish_target
  publish_target_lem w = elim (Option-cases (target_error U (U.is_mount_point target w).1)) [
    | inr (x, e) ↦ (rw (e, publish_target) (λ p d h. h), λ h. absurd (ground (arith, e)))
    | inl fine ↦ elim (Bool-cases (U.is_mount_point target w).0) [
      | inl on ↦
          (rw (fine, on, publish_target) (λ p d h. h), λ h. absurd (ground (arith, fine, on)))
      | inr off ↦ rw (fine, off, publish_target) (make_and_mount_lem w (bare_target w fine off))
    ]
  ]

  publish_refs_lem :
      (w : U.World) → let r = publish_refs U source target options w in Keeps w r.1 × Binds w r
  unfolding publish_refs
  publish_refs_lem w =
      let refs = U.get_mount_refs source w in
      elim (Option-cases refs.1) [
        | inr (x, e) ↦ (rw (e, publish_refs) (λ p d h. h), λ h. absurd (ground (arith, e)))
        | inl fine ↦ elim (Bool-cases (fits refs.0 target)) [
          | inr many ↦
              (rw (fine, many, publish_refs) (λ p d h. h), λ h. absurd (ground (arith, fine, many)))
          | inl few ↦ elim (Bool-cases (contains refs.0 target)) [
            | inl there ↦
                rw (fine, few, there, publish_refs)
                  (λ p d h. h, λ h. T.refs source target w fine there)
            | inr new ↦ rw (fine, few, new, publish_refs) (publish_target_lem w)
          ]
        ]
      ]

  pub publish_lem :
      (w : U.World)
      → let r = publish U source target options w in
        Keeps w r.1 × (r.0 ≡ ok tt → device r.1 target ≡ device w source)
  unfolding publish
  publish_lem w = elim (Option-cases (U.path_exists source w).1) [
    | inr (x, e) ↦ (rw (e, publish) (λ p d h. h), λ h. absurd (ground (arith, e)))
    | inl fine ↦ elim (Bool-cases (U.path_exists source w).0) [
      | inr gone ↦ (rw (fine, gone, publish) (λ p d h. h), λ h. absurd (ground (arith, fine, gone)))
      | inl there ↦ rw (fine, there, publish) (publish_refs_lem w)
    ]
  ]

-- With options, `Publish` does not panic.
pub publish_total :
    (U : MountUtils) (source target : String) (o : PublishOptions) (w : U.World)
    → (publish U source target (some o) w).0 ≢ panic
unfolding publish publish_refs publish_target make_and_mount
publish_total U source target o w e = ground arith
