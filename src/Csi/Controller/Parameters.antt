-- ===== src/Csi/Controller/Parameters.antt =====
-- Which parameters of a storage class `parseParameters` accepts, and which requests to create a volume
-- are refused before the cluster is touched.
use text.Mathlib.TextEquality.{eq_iff}
use union_csi.Base.{
  String, Bool, false, ◌||◌, some, List, [], ◌∷◌, ◌≡◌, ◌≢◌, ◌⊎◌, inl, inr, refl, arith, Bool-cases,
  ◌==◌, string_eq, All, if◌then◌else◌,
}
use union_csi.Base.Text.{to_lower}
use union_csi.Csi.{CreateVolumeRequest, Segments}
use union_csi.Csi.Status.{invalid_argument, Reply, replied, status}
use union_csi.Csi.Validation.{FieldLibrary}
use union_csi.Csi.Validation.Requests.{IsFieldLibrary, IsCreateRequest}
use union_csi.Csi.Validators.Modes.{
  accepts, refuses, Supports, create_volume_request_validate-Verdict,
}
use union_csi.Csi.Controller.{
  ControllerServer, default_options, parse_parameter, parse_parameters, lower_namespace_param_key,
  lower_storage_class_name_param_key, pvc_name_param_key, pvc_namespace_param_key,
  pv_name_param_key, any_block, create_volume,
}
use union_csi.Kube.Cluster.{Cluster}
use union_csi.Union.{CreateLowerOptions}

-- The keys that the driver knows, in lower case. The storage class may not be empty.
abbrev pub IsParameter : String × String → Type 0
IsParameter (k, v) =
    (to_lower k ≡ lower_namespace_param_key)
    ⊎ (((to_lower k ≡ lower_storage_class_name_param_key) × (v ≢ ""))
        ⊎ ((to_lower k ≡ pvc_name_param_key)
            ⊎ ((to_lower k ≡ pvc_namespace_param_key) ⊎ (to_lower k ≡ pv_name_param_key))))

-- The value of the last entry for a key, and otherwise the value at the end.
abbrev pub last_value : {A : Type 0} → String → (String → A) → List (String × String) → A → A
last_value key f [] a = a
last_value key f ((k, v) ∷ params) a =
    last_value key f params (if to_lower k == key then f v else a)

-- How the parsing of entries that P accepts ends.
pub data Parsed (P : Type 0) (o : CreateLowerOptions) (r : Reply CreateLowerOptions) : Type 0 where
  taken : P → r ≡ replied o → Parsed P o r
  rejected : ¬ P → r ≡ status invalid_argument → Parsed P o r

-- The options with the values that the entries set.
abbrev pub with_parameters : List (String × String) → CreateLowerOptions → CreateLowerOptions
with_parameters params o = record o {
  lower_namespace = last_value lower_namespace_param_key (λ v. v) params o.lower_namespace;
  lower_storage_class_name =
      last_value lower_storage_class_name_param_key some params o.lower_storage_class_name;
}

pvc_name≢class : lower_storage_class_name_param_key ≢ pvc_name_param_key
pvc_name≢class = ground (arith, eq_iff lower_storage_class_name_param_key pvc_name_param_key)

pvc_namespace≢class : lower_storage_class_name_param_key ≢ pvc_namespace_param_key
pvc_namespace≢class =
    ground (arith, eq_iff lower_storage_class_name_param_key pvc_namespace_param_key)

pv_name≢class : lower_storage_class_name_param_key ≢ pv_name_param_key
pv_name≢class = ground (arith, eq_iff lower_storage_class_name_param_key pv_name_param_key)

namespace≢class : lower_storage_class_name_param_key ≢ lower_namespace_param_key
namespace≢class =
    ground (arith, eq_iff lower_storage_class_name_param_key lower_namespace_param_key)

parse_parameter-Parsed :
    (k v : String) (o : CreateLowerOptions)
    → Parsed (IsParameter (k, v)) (with_parameters ((k, v) ∷ []) o) (parse_parameter k v o)
unfolding parse_parameter
parse_parameter-Parsed k v o = elim (Bool-cases (to_lower k == lower_namespace_param_key)) [
  | inl ns ↦ taken (inl (ground arith)) (ground (arith, namespace≢class))
  | inr not_ns ↦ elim (Bool-cases (to_lower k == lower_storage_class_name_param_key)) [
    | inl class ↦ elim (Bool-cases (v == "")) [
      | inl empty ↦
          rejected (λ h. ground (arith, pvc_name≢class, pvc_namespace≢class, pv_name≢class))
            (ground (arith, not_ns, class, empty))
      | inr set ↦ taken (inr (inl (ground arith))) (ground (arith, not_ns, class, set))
    ]
    | inr not_class ↦
        elim (Bool-cases (
          to_lower k == pvc_name_param_key
          || (to_lower k == pvc_namespace_param_key || to_lower k == pv_name_param_key))) [
            | inl known ↦ taken (ground arith) (ground (arith, not_ns, not_class, known))
            | inr unknown ↦
                rejected (λ h. ground arith) (ground (arith, not_ns, not_class, unknown))
          ]
  ]
]

-- `parseParameters` accepts exactly the maps all of whose keys are known, in any case, and which give
-- no empty storage class. The options that it fills then have the namespace and the storage class of
-- the last entry for each key, and are otherwise the ones that it was given. Any other map is an
-- invalid argument.
pub parse_parameters-Parsed :
    (params : List (String × String)) (o : CreateLowerOptions)
    → Parsed (All IsParameter params) (with_parameters params o) (parse_parameters params o)
unfolding parse_parameters
parse_parameters-Parsed [] o = taken tt refl
parse_parameters-Parsed ((k, v) ∷ params) o = elim (parse_parameter-Parsed k v o) [
  | rejected n e ↦ rejected (λ h. n h.0) (ground (arith, e))
  | taken p e ↦ elim (parse_parameters-Parsed params (with_parameters ((k, v) ∷ []) o)) [
    | rejected n e' ↦ rejected (λ h. n h.1) (ground (arith, e, e'))
    | taken q e' ↦ taken (p, q) (rw e e')
  ]
]

-- A request to create a volume that has an error in its fields, asks for a mode that is not supported
-- or for a block volume, or has parameters that are not accepted, is refused as an invalid argument,
-- and the cluster stays as it is.
pub create_volume_refused :
    (K : Cluster) (F : FieldLibrary) (labels : Segments → Bool)
    → IsFieldLibrary F labels
    → (s : ControllerServer) (req : CreateVolumeRequest) (w : K.World)
    → ¬ (
        IsCreateRequest labels req
        × All (Supports s.validator.volume_validator) req.volume_capabilities
        × (any_block req.volume_capabilities ≡ false)
        × All IsParameter req.parameters)
    → create_volume K F s req w ≡ (status invalid_argument, w)
unfolding create_volume
create_volume_refused K F labels L s req w bad =
    elim (create_volume_request_validate-Verdict F labels L s.validator req) [
      | refuses n e ↦ ground (arith, e)
      | accepts good e ↦ elim (Bool-cases (any_block req.volume_capabilities)) [
        | inl blocks ↦ ground (arith, e, blocks)
        | inr mounts ↦ elim (parse_parameters-Parsed req.parameters (default_options s)) [
          | rejected n e' ↦ ground (arith, e, mounts, e')
          | taken params e' ↦ absurd (bad (good.0, good.1, mounts, params))
        ]
      ]
    ]
