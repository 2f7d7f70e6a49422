-- ===== src/Csi/Validators/Node.antt =====
-- Which requests the node's validator accepts.
use union_csi.Base.{
  String, Bool, true, false, not, ◌&&◌, [], ◌≡◌, ◌≢◌, ◌↔◌, ◌⊎◌, inl, inr, refl, arith, ◌==◌,
  string_eq, Bool-cases, contains, if◌then◌else◌,
}
use union_csi.Base.Text.{is_abs}
use union_csi.Csi.{NodePublishVolumeRequest, node_cap_type_eq, stage_unstage_volume}
use union_csi.Csi.Status.{invalid_argument, replied, status}
use union_csi.Csi.Validation.{
  FieldPath, new_path, validate_target_path, validate_node_publish_volume_request,
}
use union_csi.Csi.Validation.Correct.{
  IsCapability, append_empty, require_iff, validate_volume_capability_iff,
}
use union_csi.Csi.Validators.{NodeValidator, node_publish_volume_request_validate}
use union_csi.Csi.Validators.Modes.{
  Verdict, accepts, refuses, Supports, check_mode-Verdict, refuse_errors-Verdict,
}

abbrev pub IsTarget : String → Type 0
IsTarget p = (p ≢ "") × (is_abs p ≡ true)

validate_target_path_iff :
    (p : String) (f : FieldPath) → (validate_target_path p f ≡ []) ↔ IsTarget p
unfolding validate_target_path
validate_target_path_iff p f = ground arith

-- The fields of a request to publish a volume on a node.
abbrev pub IsNodePublish : NodePublishVolumeRequest → Type 0
IsNodePublish req =
    (req.volume_id ≢ "")
    × ((req.staging_target_path ≡ "") ⊎ IsTarget req.staging_target_path)
    × IsTarget req.target_path
    × IsCapability req.volume_capability

staging_iff :
    (s : String) (f : FieldPath)
    → ((if not (s == "") then validate_target_path s f else []) ≡ []) ↔ ((s ≡ "") ⊎ IsTarget s)
staging_iff s f = ground (arith, validate_target_path_iff s f)

validate_node_publish_volume_request_iff :
    (req : NodePublishVolumeRequest)
    → (validate_node_publish_volume_request req ≡ []) ↔ IsNodePublish req
unfolding validate_node_publish_volume_request
validate_node_publish_volume_request_iff req =
    let v = require_iff req.volume_id (new_path "volumeId") in
    let s = staging_iff req.staging_target_path (new_path "stagingTargetPath") in
    let t = validate_target_path_iff req.target_path (new_path "targetPath") in
    let c = validate_volume_capability_iff req.volume_capability (new_path "volumeCapability") in
    (
      λ h.
          let (a, h1) = append_empty _ _ h in
          let (b, h2) = append_empty _ _ h1 in
          let (d, e) = append_empty _ _ h2 in (v.0 a, s.0 b, t.0 d, c.0 e),
      λ h. rw (v.1 h.0, s.1 h.1, t.1 h.2, c.1 h.3) refl,
    )

-- A plugin that stages volumes is told where.
abbrev pub StagingFits : NodeValidator → NodePublishVolumeRequest → Type 0
StagingFits v req =
    (contains v.node_cap_types_set stage_unstage_volume ≡ false) ⊎ (req.staging_target_path ≢ "")

staging-Verdict :
    (has : Bool) (path : String)
    → Verdict
        ((has ≡ false) ⊎ (path ≢ ""))
        (if has && path == "" then status invalid_argument else replied tt)
staging-Verdict has path = elim (Bool-cases (has && path == "")) [
  | inl lacks ↦ refuses (λ h. ground (arith, lacks)) (ground (arith, lacks))
  | inr fine ↦ accepts (ground arith) (ground (arith, fine))
]

-- The validation of a request to publish a volume on a node never panics. It accepts exactly the
-- requests that name a volume, whose target path is absolute and, where it is given, the staging
-- path too, whose capability is complete and supported, and that give a staging path where the
-- plugin stages volumes. It refuses the others as invalid arguments.
pub node_publish_volume_request_validate-Verdict :
    (v : NodeValidator) (req : NodePublishVolumeRequest)
    → Verdict
        (IsNodePublish req
          × (Supports v.volume_validator req.volume_capability × StagingFits v req))
        (node_publish_volume_request_validate v req)
unfolding node_publish_volume_request_validate
node_publish_volume_request_validate-Verdict v req =
    refuse_errors-Verdict (validate_node_publish_volume_request req) _
      (validate_node_publish_volume_request_iff req)
      λ h. check_mode-Verdict v.volume_validator (StagingFits v req) _ h.3 (
        staging-Verdict (contains v.node_cap_types_set stage_unstage_volume)
          req.staging_target_path)
