-- ===== src/Csi/Validators/Modes.antt =====
-- Which requests the validators accept, on top of the checks of their fields.
use union_csi.Base.{
  Bool, true, false, not, ◌&&◌, Option, some, List, [], ◌∷◌, ◌≡◌, ◌≢◌, ◌↔◌, ◌⊎◌, inl, inr, refl,
  arith, Bool-cases, All, contains, if◌then◌else◌,
}
use union_csi.Csi.{
  Mode, mode_eq, AccessType, VolumeCapability, CreateVolumeRequest, ControllerPublishVolumeRequest,
  Segments, controller_cap_type_eq, publish_readonly,
}
use union_csi.Csi.Status.{invalid_argument, Reply, replied, status}
use union_csi.Csi.Validation.{
  ErrorList, FieldLibrary, validate_create_volume_request,
  validate_controller_publish_volume_request,
}
use union_csi.Csi.Validation.Correct.{IsCapability, capability}
use union_csi.Csi.Validation.Requests.{
  IsFieldLibrary, IsCreateRequest, validate_create_volume_request_iff,
  validate_controller_publish_volume_request_iff,
}
use union_csi.Csi.Validators.{
  VolumeValidator, ControllerValidator, has_volume_capability_mode, check_mode, check_modes,
  refuse_errors, create_volume_request_validate, controller_publish_volume_request_validate,
}

-- What a validation ends with: it accepts what P describes, and refuses the rest as an invalid
-- argument.
pub data Verdict (P : Type 0) (r : Reply (Unit {0})) : Type 0 where
  accepts : P → r ≡ replied tt → Verdict P r
  refuses : ¬ P → r ≡ status invalid_argument → Verdict P r

-- The access mode of the capability is in the validator's set.
pub data Supports (v : VolumeValidator) : Option VolumeCapability → Type 0 where
  supports :
      {a : AccessType} {m : Mode}
      → has_volume_capability_mode v m ≡ true
      → Supports v (some (record { access_type = a; access_mode = some m }))

Supports-mode :
    (v : VolumeValidator) (a : AccessType) (m : Mode)
    → Supports v (some (record { access_type = a; access_mode = some m }))
    → has_volume_capability_mode v m ≡ true
Supports-mode v a m (supports h) = h

pub check_mode-Verdict :
    (v : VolumeValidator) {o : Option VolumeCapability} (P : Type 0) (rest : Reply (Unit {0}))
    → IsCapability o
    → Verdict P rest
    → Verdict (Supports v o × P) (check_mode v o rest)
unfolding check_mode
check_mode-Verdict v P rest (capability {a = a} {m = m} given known) verdict =
    elim (Bool-cases (has_volume_capability_mode v m)) [
      | inr lacks ↦
          refuses (λ h. ground (arith, lacks, Supports-mode v a m h.0)) (ground (arith, lacks))
      | inl has ↦ elim verdict [
        | accepts p e ↦ accepts (supports has, p) (ground (arith, has, e))
        | refuses n e ↦ refuses (λ h. n h.1) (ground (arith, has, e))
      ]
    ]

check_modes-Verdict :
    (v : VolumeValidator) (cs : List (Option VolumeCapability))
    → All IsCapability cs
    → Verdict (All (Supports v) cs) (check_modes v cs)
unfolding check_modes
check_modes-Verdict v [] h = accepts tt refl
check_modes-Verdict v (c ∷ cs) h =
    check_mode-Verdict v (All (Supports v) cs) (check_modes v cs) h.0 (check_modes-Verdict v cs h.1)

pub refuse_errors-Verdict :
    {P Q : Type 0} (errs : ErrorList) (rest : Reply (Unit {0}))
    → (errs ≡ []) ↔ P
    → (P → Verdict Q rest)
    → Verdict (P × Q) (refuse_errors errs rest)
refuse_errors-Verdict [] rest same verdict = elim (verdict (same.0 refl)) [
  | accepts q e ↦ accepts (same.0 refl, q) e
  | refuses n e ↦ refuses (λ h. n h.1) e
]
refuse_errors-Verdict (x ∷ xs) rest same verdict =
    refuses (λ h. absurd (ground (arith, same.1 h.0))) refl

-- The validation of a request to create a volume never panics. It accepts exactly the requests that
-- have no error in their fields and whose access modes are all supported, and refuses the others as
-- invalid arguments.
pub create_volume_request_validate-Verdict :
    (F : FieldLibrary) (labels : Segments → Bool)
    → IsFieldLibrary F labels
    → (v : ControllerValidator) (req : CreateVolumeRequest)
    → Verdict
        (IsCreateRequest labels req × All (Supports v.volume_validator) req.volume_capabilities)
        (create_volume_request_validate F v req)
unfolding create_volume_request_validate
create_volume_request_validate-Verdict F labels L v req =
    refuse_errors-Verdict (validate_create_volume_request F req) _
      (validate_create_volume_request_iff F labels L req)
      (λ h. check_modes-Verdict v.volume_validator req.volume_capabilities h.capabilities)

-- A volume is published for reading only where the plugin supports that.
abbrev pub ReadonlyFits : ControllerValidator → ControllerPublishVolumeRequest → Type 0
ReadonlyFits v req =
    (contains v.controller_cap_types_set publish_readonly ≡ true) ⊎ (req.readonly ≡ false)

readonly-Verdict :
    (has readonly : Bool)
    → Verdict
        ((has ≡ true) ⊎ (readonly ≡ false))
        (if not has && readonly then status invalid_argument else replied tt)
readonly-Verdict true readonly = accepts (inl refl) refl
readonly-Verdict false false = accepts (inr refl) refl
readonly-Verdict false true = refuses (λ h. ground arith) refl

-- The validation of a request to publish a volume never panics. It accepts exactly the requests that
-- name a volume and a node, whose capability is complete and supported, and that ask for a volume to
-- read only where the plugin has that capability. It refuses the others as invalid arguments.
pub controller_publish_volume_request_validate-Verdict :
    (v : ControllerValidator) (req : ControllerPublishVolumeRequest)
    → Verdict
        (((req.volume_id ≢ "") × (req.node_id ≢ "") × IsCapability req.volume_capability)
          × (Supports v.volume_validator req.volume_capability × ReadonlyFits v req))
        (controller_publish_volume_request_validate v req)
unfolding controller_publish_volume_request_validate
controller_publish_volume_request_validate-Verdict v req =
    refuse_errors-Verdict (validate_controller_publish_volume_request req) _
      (validate_controller_publish_volume_request_iff req)
      λ h.
        check_mode-Verdict v.volume_validator (ReadonlyFits v req) _ h.2
          (readonly-Verdict (contains v.controller_cap_types_set publish_readonly) req.readonly)
