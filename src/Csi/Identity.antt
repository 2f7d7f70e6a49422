-- ===== src/Csi/Identity.antt =====
-- pkg/csi/driver/identity_server.go and pkg/csi/validation/identity_validator.go.
use native.Mathlib.Decide.{ℕ_discrete}
use union_csi.Base.{String, Bool, Option, none, List, [], ◌∷◌, map, contains, Eq}
use union_csi.Base.Int.{ℤ}
use union_csi.Csi.Validators.{check_caps, next}
use union_csi.Csi.Status.{Reply, replied}
use union_csi.Failure.{Result, ok, err, panic}

-- `PluginCapability_Service_Type`, an int32.
pub data PluginCapType : Type 0 where
  unknown controller_service volume_accessibility_constraints : PluginCapType
  group_controller_service : PluginCapType
  other : ℤ → PluginCapType

unfoldable pub PluginCapType-discrete : Discrete PluginCapType
PluginCapType-discrete = hlevel ℕ_discrete

instance unfoldable pub plugin_cap_type_eq : Eq PluginCapType
unfolding PluginCapType-discrete
plugin_cap_type_eq = record { dec = PluginCapType-discrete }

abbrev pub valid_plugin_cap_types : List PluginCapType
valid_plugin_cap_types =
    controller_service ∷ volume_accessibility_constraints ∷ group_controller_service ∷ []

-- `PluginCapability`, whose one member that is used is the service.
pub record PluginCapability : Type 0 where
  pub service_type : PluginCapType

pub record IdentityValidator : Type 0 where
  pub plugin_cap_types_set : List PluginCapType
  pub plugin_caps : List PluginCapability

-- The constructor ranges over the set that it makes, in any order; `in_order` is the one it takes.
unfoldable pub new_identity_validator :
    (List PluginCapType → List PluginCapType) → List PluginCapType → Result IdentityValidator
unfolding check_caps
new_identity_validator in_order types = next (check_caps unknown valid_plugin_cap_types types) λ _.
    ok (record {
      plugin_cap_types_set = types;
      plugin_caps = map (λ k. record { service_type = k }) (in_order types);
    })

unfoldable pub has_plugin_capability_type : IdentityValidator → PluginCapType → Bool
has_plugin_capability_type v k = contains v.plugin_cap_types_set k

-- Capabilities for the identity service, in capabilities.go.
abbrev pub plugin_capabilities : List PluginCapType
plugin_capabilities = controller_service ∷ []

pub record IdentityServer : Type 0 where
  pub validator : IdentityValidator

-- A constructor that fails is a panic.
unfoldable pub new_identity_server :
    (List PluginCapType → List PluginCapType) → Result IdentityServer
unfolding new_identity_validator
new_identity_server in_order = elim (new_identity_validator in_order plugin_capabilities) [
  | ok v ↦ ok (record { validator = v })
  | err e ↦ panic
  | panic ↦ panic
]

pub record PluginInfo : Type 0 where
  pub name : String
  pub vendor_version : String

-- `driver_version` is set when the program is built.
abbrev pub get_plugin_info : String → PluginInfo
get_plugin_info driver_version = record {
  name = "union.csi.driver.union.io";
  vendor_version = driver_version;
}

abbrev pub get_plugin_capabilities : IdentityServer → List PluginCapability
get_plugin_capabilities s = s.validator.plugin_caps

-- `sorted` stands for `sets.List` of k8s.io/apimachinery/pkg/util/sets.
unfoldable pub get_plugin_capability_types :
    (List PluginCapType → List PluginCapType) → IdentityValidator → List PluginCapType
get_plugin_capability_types sorted v = sorted v.plugin_cap_types_set

pub record ProbeResponse : Type 0 where
  pub ready : Option Bool

-- A response that does not say whether the plugin is ready counts as one that says so.
unfoldable pub probe : Reply ProbeResponse
probe = replied (record { ready = none })
