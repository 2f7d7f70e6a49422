-- ===== src/Csi/Validation/Correct.antt =====
-- The requests in whose fields the validation finds no error.
use union_csi.Base.{
  ℕ, suc, String, Option, none, some, List, [], ◌∷◌, ◌++◌, ◌≡◌, ◌≢◌, ◌∙◌, ◌↔◌, refl, arith,
  string_eq, All,
}
use union_csi.Base.Int.{ℤ, int_eq}
use union_csi.Csi.{
  MountVolume, Mode, unknown, single_node_writer, single_node_reader_only, multi_node_reader_only,
  multi_node_single_writer, multi_node_multi_writer, single_node_single_writer,
  single_node_multi_writer, other, AccessType, nil, nil_block, nil_mount, block, mount,
  foreign_type, VolumeCapability, SourceType, nil_snapshot, nil_volume, snapshot, volume,
  VolumeContentSource,
}
use union_csi.Csi.Validation.{
  FieldPath, child, index, ErrorList, require, validate_mode, validate_access_mode,
  validate_access_type, validate_volume_capability, validate_volume_capabilities_loop,
  validate_volume_capabilities, validate_source_type, validate_volume_content_source,
}

-- A mode that the interface names, other than "unknown".
abbrev pub IsKnown : Mode → Type 0
IsKnown m = (m ≢ unknown) × ((n : ℤ) → m ≢ other n)

pub data HasAccess : AccessType → Type 0 where
  block_given : {u : Unit {0}} → HasAccess (block (some u))
  mount_given : {v : MountVolume} → HasAccess (mount (some v))

-- A capability with an access type and an access mode.
pub data IsCapability : Option VolumeCapability → Type 0 where
  capability :
      {a : AccessType} {m : Mode}
      → HasAccess a
      → IsKnown m
      → IsCapability (some (record { access_type = a; access_mode = some m }))

pub append_empty : (xs ys : ErrorList) → (xs ++ ys) ≡ [] → (xs ≡ []) × (ys ≡ [])
append_empty [] ys h = (refl, h)
append_empty (x ∷ xs) ys h = absurd (ground arith)

pub require_iff : (s : String) (p : FieldPath) → (require s p ≡ []) ↔ (s ≢ "")
require_iff s p = ground arith

validate_mode_iff : (m : Mode) (p : FieldPath) → (validate_mode m p ≡ []) ↔ IsKnown m
unfolding validate_mode
validate_mode_iff unknown p = (λ h. absurd (ground arith), λ h. absurd (h.0 refl))
validate_mode_iff single_node_writer p = (λ h. (λ e. ground arith, λ n e. ground arith), λ h. refl)
validate_mode_iff single_node_reader_only p =
    (λ h. (λ e. ground arith, λ n e. ground arith), λ h. refl)
validate_mode_iff multi_node_reader_only p =
    (λ h. (λ e. ground arith, λ n e. ground arith), λ h. refl)
validate_mode_iff multi_node_single_writer p =
    (λ h. (λ e. ground arith, λ n e. ground arith), λ h. refl)
validate_mode_iff multi_node_multi_writer p =
    (λ h. (λ e. ground arith, λ n e. ground arith), λ h. refl)
validate_mode_iff single_node_single_writer p =
    (λ h. (λ e. ground arith, λ n e. ground arith), λ h. refl)
validate_mode_iff single_node_multi_writer p =
    (λ h. (λ e. ground arith, λ n e. ground arith), λ h. refl)
validate_mode_iff (other n) p = (λ h. absurd (ground arith), λ h. absurd (h.1 n refl))

validate_access_type-HasAccess :
    (a : AccessType) (p : FieldPath) (rest : ErrorList)
    → validate_access_type a p rest ≡ []
    → HasAccess a × (rest ≡ [])
unfolding validate_access_type
validate_access_type-HasAccess nil p rest h = absurd (ground arith)
validate_access_type-HasAccess nil_block p rest h = absurd (ground arith)
validate_access_type-HasAccess nil_mount p rest h = absurd (ground arith)
validate_access_type-HasAccess (block none) p rest h = absurd (ground arith)
validate_access_type-HasAccess (block (some u)) p rest h = (block_given, h)
validate_access_type-HasAccess (mount none) p rest h = absurd (ground arith)
validate_access_type-HasAccess (mount (some v)) p rest h = (mount_given, h)
validate_access_type-HasAccess foreign_type p rest h = absurd (ground arith)

validate_access_type_given :
    (a : AccessType) (p : FieldPath) (rest : ErrorList)
    → HasAccess a
    → validate_access_type a p rest ≡ rest
unfolding validate_access_type
validate_access_type_given a p rest block_given = refl
validate_access_type_given a p rest mount_given = refl

IsCapability-with :
    (a : AccessType) (o : Option Mode) (p : FieldPath)
    → HasAccess a
    → validate_access_mode o p ≡ []
    → IsCapability (some (record { access_type = a; access_mode = o }))
unfolding validate_access_mode
IsCapability-with a none p given h = absurd (ground arith)
IsCapability-with a (some m) p given h =
    capability given ((validate_mode_iff m (child p "mode")).0 h)

validate-IsCapability :
    {o : Option VolumeCapability} (p : FieldPath)
    → IsCapability o
    → validate_volume_capability o p ≡ []
unfolding validate_volume_capability validate_access_mode
validate-IsCapability p (capability {a = a} {m = m} given known) =
    validate_access_type_given a (child p "accessType") _ given
    ∙ (validate_mode_iff m (child (child p "accessMode") "mode")).1 known

-- A capability passes exactly when it is set, has an access type of the interface that is set down
-- to its message, and a named mode other than "unknown".
pub validate_volume_capability_iff :
    (o : Option VolumeCapability) (p : FieldPath)
    → (validate_volume_capability o p ≡ []) ↔ IsCapability o
unfolding validate_volume_capability validate_access_mode
validate_volume_capability_iff none p = (λ h. absurd (ground arith), validate-IsCapability p)
validate_volume_capability_iff (some c) p = (
  λ h.
      let (given, rest) = validate_access_type-HasAccess c.access_type _ _ h in
      IsCapability-with c.access_type c.access_mode _ given rest,
  validate-IsCapability p,
)

capabilities_loop_iff :
    (i : ℕ) (cs : List (Option VolumeCapability)) (p : FieldPath)
    → (validate_volume_capabilities_loop i cs p ≡ []) ↔ All IsCapability cs
unfolding validate_volume_capabilities_loop
capabilities_loop_iff i [] p = (λ h. tt, λ h. refl)
capabilities_loop_iff i (c ∷ cs) p =
    let one = validate_volume_capability_iff c (index p i) in
    let rest = capabilities_loop_iff (suc i) cs p in
    (λ h. let (a, b) = append_empty _ _ h in (one.0 a, rest.0 b), λ h. rw (one.1 h.0) (rest.1 h.1))

pub capabilities_iff :
    (cs : List (Option VolumeCapability)) (p : FieldPath)
    → (validate_volume_capabilities cs p ≡ []) ↔ ((cs ≢ []) × All IsCapability cs)
unfolding validate_volume_capabilities
capabilities_iff [] p = (λ h. absurd (ground arith), λ h. absurd (h.0 refl))
capabilities_iff (c ∷ cs) p =
    let loop = capabilities_loop_iff 0 (c ∷ cs) p in
    (λ h. (λ e. ground arith, loop.0 h), λ h. loop.1 h.1)

-- A content source, where there is one, is a snapshot or a volume with an identifier.
pub data IsSource : Option VolumeContentSource → Type 0 where
  no_source : IsSource none
  from_snapshot :
      {id : String} → id ≢ "" → IsSource (some (record { source_type = snapshot (some id) }))
  from_volume :
      {id : String} → id ≢ "" → IsSource (some (record { source_type = volume (some id) }))

source_type-IsSource :
    (t : SourceType) (p : FieldPath)
    → validate_source_type t p ≡ []
    → IsSource (some (record { source_type = t }))
unfolding validate_source_type
source_type-IsSource nil p h = absurd (ground arith)
source_type-IsSource nil_snapshot p h = absurd (ground arith)
source_type-IsSource nil_volume p h = absurd (ground arith)
source_type-IsSource (snapshot none) p h = absurd (ground arith)
source_type-IsSource (snapshot (some id)) p h = from_snapshot ((require_iff id _).0 h)
source_type-IsSource (volume none) p h = absurd (ground arith)
source_type-IsSource (volume (some id)) p h = from_volume ((require_iff id _).0 h)
source_type-IsSource foreign_type p h = absurd (ground arith)

validate-IsSource :
    {o : Option VolumeContentSource} (p : FieldPath)
    → IsSource o
    → validate_volume_content_source o p ≡ []
unfolding validate_volume_content_source validate_source_type
validate-IsSource p no_source = refl
validate-IsSource p (from_snapshot {id = id} h) = (require_iff id _).1 h
validate-IsSource p (from_volume {id = id} h) = (require_iff id _).1 h

pub IsSource-iff :
    (o : Option VolumeContentSource) (p : FieldPath)
    → (validate_volume_content_source o p ≡ []) ↔ IsSource o
unfolding validate_volume_content_source
IsSource-iff none p = (λ h. no_source, λ h. refl)
IsSource-iff (some s) p = (source_type-IsSource s.source_type _, validate-IsSource p)
