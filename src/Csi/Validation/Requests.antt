-- ===== src/Csi/Validation/Requests.antt =====
-- The requests of the controller service in which the validation finds no error.
use union_csi.Base.{
  ℕ, zero, suc, Bool, true, false, ◌&&◌, Option, none, some, List, [], ◌∷◌, ◌≡◌, ◌≢◌, ◌↔◌, ◌⊎◌, inl,
  inr, refl, arith, ◌==◌, Bool-cases, is_empty, All,
}
use union_csi.Base.Int.{ℤ, pos, negsuc, ltb_ℤ, int_eq, ◌≤ℤ◌}
use union_csi.Csi.{
  CapacityRange, Segments, Topology, TopologyRequirement, CreateVolumeRequest,
  ControllerPublishVolumeRequest,
}
use union_csi.Csi.Validation.{
  FieldPath, new_path, child, index, FieldLibrary, validate_capacity_range, validate_topology,
  validate_topologies, validate_accessibility_requirements, validate_create_volume_request,
  validate_controller_publish_volume_request,
}
use union_csi.Csi.Validation.Correct.{
  IsCapability, IsSource, append_empty, require_iff, capabilities_iff, IsSource-iff,
  validate_volume_capability_iff,
}

-- The documented behaviour of the checks: a number is accepted when it is not negative, and the
-- verdict on labels does not depend on where they stand.
pub record IsFieldLibrary (F : FieldLibrary) (labels : Segments → Bool) : Type 0 where
  pub nonnegative : (v : ℤ) (p : FieldPath) → (F.validate_nonnegative_field v p ≡ []) ↔ (pos 0 ≤ℤ v)
  pub valid_labels :
      (s : Segments) (p : FieldPath) → (F.validate_labels s p ≡ []) ↔ (labels s ≡ true)

-- The capacity, where a range is given: one of the numbers is set, none is negative, and a set
-- limit is not below what is required.
pub data IsRange : Option CapacityRange → Type 0 where
  no_range : IsRange none
  range :
      {r : CapacityRange}
      → (r.required_bytes ≢ pos 0) ⊎ (r.limit_bytes ≢ pos 0)
      → pos 0 ≤ℤ r.required_bytes
      → pos 0 ≤ℤ r.limit_bytes
      → (r.limit_bytes ≡ pos 0) ⊎ (r.required_bytes ≤ℤ r.limit_bytes)
      → IsRange (some r)

module _ (labels : Segments → Bool) where
  pub data IsTopology : Option Topology → Type 0 where
    topology : {t : Topology} → t.segments ≢ [] → labels t.segments ≡ true → IsTopology (some t)

  -- The topology, where it is restricted, names a segment in each of its entries, and has an entry.
  pub data IsRequirement : Option TopologyRequirement → Type 0 where
    no_requirement : IsRequirement none
    requirement :
        {r : TopologyRequirement}
        → (r.requisite ≢ []) ⊎ (r.preferred ≢ [])
        → All IsTopology r.requisite
        → All IsTopology r.preferred
        → IsRequirement (some r)

  pub record IsCreateRequest (req : CreateVolumeRequest) : Type 0 where
    pub name : req.name ≢ ""
    pub capacity : IsRange req.capacity_range
    pub some_capability : req.volume_capabilities ≢ []
    pub capabilities : All IsCapability req.volume_capabilities
    pub source : IsSource req.volume_content_source
    pub topology : IsRequirement req.accessibility_requirements

given_iff : (a b : ℤ) → ((a == pos 0 && b == pos 0) ≡ false) ↔ ((a ≢ pos 0) ⊎ (b ≢ pos 0))
given_iff a b = ground arith

-- Go's test that forbids a requirement beyond a set limit.
beyond_iff :
    (a b : ℤ) → pos 0 ≤ℤ b → ((ltb_ℤ b a && ltb_ℤ (pos 0) b) ≡ false) ↔ ((b ≡ pos 0) ⊎ (a ≤ℤ b))
beyond_iff a (negsuc n) h = absurd (omega arith)
beyond_iff a (pos zero) h = ground arith
beyond_iff a (pos (suc n)) h = ground arith

is_empty_iff : {A : Type 0} (xs : List A) → (is_empty xs ≡ true) ↔ (xs ≡ [])
is_empty_iff xs = ground arith

module _ (F : FieldLibrary) (labels : Segments → Bool) (L : IsFieldLibrary F labels) where
  IsRange-errors :
      (r : CapacityRange) (p : FieldPath)
      → validate_capacity_range F (some r) p ≡ []
      → IsRange (some r)
  unfolding validate_capacity_range
  IsRange-errors r p h = elim (Bool-cases (r.required_bytes == pos 0 && r.limit_bytes == pos 0)) [
    | inl unset ↦ absurd (ground (arith, unset))
    | inr given ↦
        let (a, rest) = append_empty _ _ (rw given at h) in
        let (b, c) = append_empty _ _ rest in
        let low = (L.nonnegative r.required_bytes _).0 a in
        let high = (L.nonnegative r.limit_bytes _).0 b in
        range ((given_iff _ _).0 given) low high
          ((beyond_iff r.required_bytes r.limit_bytes high).0 (ground arith))
  ]

  validate-IsRange :
      {o : Option CapacityRange} (p : FieldPath) → IsRange o → validate_capacity_range F o p ≡ []
  unfolding validate_capacity_range
  validate-IsRange p no_range = refl
  validate-IsRange p (range {r = r} given low high fits) = ground (
    arith,
    (given_iff r.required_bytes r.limit_bytes).1 given,
    (L.nonnegative r.required_bytes (child p "requiredBytes")).1 low,
    (L.nonnegative r.limit_bytes (child p "limitBytes")).1 high,
    (beyond_iff r.required_bytes r.limit_bytes high).1 fits,
  )

  IsRange-iff :
      (o : Option CapacityRange) (p : FieldPath) → (validate_capacity_range F o p ≡ []) ↔ IsRange o
  unfolding validate_capacity_range
  IsRange-iff none p = (λ h. no_range, λ h. refl)
  IsRange-iff (some r) p = (IsRange-errors r p, validate-IsRange p)

  validate-IsTopology :
      {o : Option Topology} (p : FieldPath) → IsTopology labels o → validate_topology F o p ≡ []
  unfolding validate_topology
  validate-IsTopology p (topology {t = t} given valid) = ground (
    arith,
    given,
    is_empty_iff t.segments,
    (L.valid_labels t.segments (child p "segments")).1 valid,
  )

  topology_iff :
      (o : Option Topology) (p : FieldPath) → (validate_topology F o p ≡ []) ↔ IsTopology labels o
  unfolding validate_topology
  topology_iff none p = (λ h. absurd (ground arith), validate-IsTopology p)
  topology_iff (some t) p = (
    λ h. elim (Bool-cases (is_empty t.segments)) [
      | inl none_ ↦ absurd (ground (arith, none_))
      | inr given ↦
          topology (ground (arith, given))
            ((L.valid_labels t.segments (child p "segments")).0 (ground (arith, given)))
    ],
    validate-IsTopology p,
  )

  topologies_iff :
      (i : ℕ) (ts : List (Option Topology)) (p : FieldPath)
      → (validate_topologies F i ts p ≡ []) ↔ All (IsTopology labels) ts
  unfolding validate_topologies
  topologies_iff i [] p = (λ h. tt, λ h. refl)
  topologies_iff i (t ∷ ts) p =
      let one = topology_iff t (index p i) in
      let rest = topologies_iff (suc i) ts p in
      (
        λ h. let (a, b) = append_empty _ _ h in (one.0 a, rest.0 b),
        λ h. rw (one.1 h.0) (rest.1 h.1),
      )

  validate-IsRequirement :
      {o : Option TopologyRequirement} (p : FieldPath)
      → IsRequirement labels o
      → validate_accessibility_requirements F o p ≡ []
  unfolding validate_accessibility_requirements
  validate-IsRequirement p no_requirement = refl
  validate-IsRequirement p (requirement {r = r} given req pref) = ground (
    arith,
    given,
    is_empty_iff r.requisite,
    is_empty_iff r.preferred,
    (topologies_iff 0 r.requisite (child p "requisite")).1 req,
    (topologies_iff 0 r.preferred (child p "preferred")).1 pref,
  )

  IsRequirement-errors :
      (r : TopologyRequirement) (p : FieldPath)
      → validate_accessibility_requirements F (some r) p ≡ []
      → IsRequirement labels (some r)
  unfolding validate_accessibility_requirements
  IsRequirement-errors r p h = elim (Bool-cases (is_empty r.requisite && is_empty r.preferred)) [
    | inl unset ↦ absurd (ground (arith, unset))
    | inr given ↦
        let (a, b) = append_empty _ _ (rw given at h) in
        requirement (ground (arith, is_empty_iff r.requisite, is_empty_iff r.preferred))
          ((topologies_iff 0 r.requisite _).0 a) ((topologies_iff 0 r.preferred _).0 b)
  ]

  IsRequirement-iff :
      (o : Option TopologyRequirement) (p : FieldPath)
      → (validate_accessibility_requirements F o p ≡ []) ↔ IsRequirement labels o
  unfolding validate_accessibility_requirements
  IsRequirement-iff none p = (λ h. no_requirement, λ h. refl)
  IsRequirement-iff (some r) p = (IsRequirement-errors r p, validate-IsRequirement p)

  -- A request to create a volume passes exactly when it has a name, a consistent capacity range,
  -- at least one capability and only complete ones, and, where they are given, an identified content
  -- source and topologies with valid segments.
  pub validate_create_volume_request_iff :
      (req : CreateVolumeRequest)
      → (validate_create_volume_request F req ≡ []) ↔ IsCreateRequest labels req
  unfolding validate_create_volume_request
  validate_create_volume_request_iff req =
      let n = require_iff req.name (new_path "name") in
      let c = IsRange-iff req.capacity_range (new_path "capacityRange") in
      let v = capabilities_iff req.volume_capabilities (new_path "volumeCapabilities") in
      let s = IsSource-iff req.volume_content_source (new_path "volumeContentSource") in
      let t =
        IsRequirement-iff req.accessibility_requirements (new_path "accessibilityRequirements") in
      (
        λ h.
            let (a, h1) = append_empty _ _ h in
            let (b, h2) = append_empty _ _ h1 in
            let (d, h3) = append_empty _ _ h2 in
            let (e, f) = append_empty _ _ h3 in
            record {
              name = n.0 a;
              capacity = c.0 b;
              some_capability = (v.0 d).0;
              capabilities = (v.0 d).1;
              source = s.0 e;
              topology = t.0 f;
            },
        λ h.
            rw
              (
                n.1 h.name,
                c.1 h.capacity,
                v.1 (h.some_capability, h.capabilities),
                s.1 h.source,
                t.1 h.topology,
              )
              refl,
      )

-- A request to publish a volume passes exactly when it names a volume and a node and has a complete
-- capability.
pub validate_controller_publish_volume_request_iff :
    (req : ControllerPublishVolumeRequest)
    → (validate_controller_publish_volume_request req ≡ [])
      ↔ ((req.volume_id ≢ "") × (req.node_id ≢ "") × IsCapability req.volume_capability)
unfolding validate_controller_publish_volume_request
validate_controller_publish_volume_request_iff req =
    let v = require_iff req.volume_id (new_path "volumeId") in
    let n = require_iff req.node_id (new_path "nodeId") in
    let c = validate_volume_capability_iff req.volume_capability (new_path "volumeCapability") in
    (
      λ h.
          let (a, rest) = append_empty _ _ h in
          let (b, d) = append_empty _ _ rest in (v.0 a, n.0 b, c.0 d),
      λ h. rw (v.1 h.0, n.1 h.1, c.1 h.2) refl,
    )
