-- ===== src/Union/Splitter.antt =====
-- pkg/union/splitter.go, over the client of
-- pkg/k8s/client/clientset/typed/union/v1alpha1/volumesplit.go.
pub mod Compatible
use union_csi.Base.{
  ℕ, String, ◌<>◌, Bool, true, false, not, Option, none, some, List, [], ◌∷◌, ◌==◌, string_eq,
  option_eq, contains, all, if◌then◌else◌,
}
use union_csi.Base.Int.{half, ltb_ℤ}
use union_csi.Base.Text.{itoa}
use union_csi.Kube.{
  AccessMode, Quantity, quantity_of, resource_storage, VolumeSplit, VolumeSplitSpec,
}

pub record Splitter : Type 0 where
  pub claim_name_prefix : String

abbrev pub SplitterOption : Type 0
SplitterOption = Splitter → Splitter

apply_options : Splitter → List SplitterOption → Splitter
apply_options s [] = s
apply_options s (o ∷ options) = apply_options (o s) options

unfoldable pub new_splitter : List SplitterOption → Splitter
unfolding apply_options
new_splitter options = apply_options (record { claim_name_prefix = "" }) options

unfoldable pub with_claim_name_prefix : String → SplitterOption
with_claim_name_prefix prefix s = record s { claim_name_prefix = prefix }

unfoldable pub make_split_name : String → String
make_split_name volume_id = volume_id <> "-split"

unfoldable pub make_claim_name : Splitter → String → ℕ → String
unfolding itoa
make_claim_name s name index =
    if not (s.claim_name_prefix == "")
    then s.claim_name_prefix <> ("-" <> (name <> ("-lower" <> itoa index)))
    else name <> ("-lower" <> itoa index)

unfoldable pub split_quantity_super_duper_dummy : Quantity → List Quantity
split_quantity_super_duper_dummy q =
    let part : Quantity = record { value = half q.value; format = q.format } in part ∷ part ∷ []

-- Both nil, or both set to equal strings.
unfoldable pub same_class : Option String → Option String → Bool
same_class none none = true
same_class (some a) (some b) = a == b
same_class none (some b) = false
same_class (some a) none = false

-- The set of the old modes is read through the list that it is made from.
unfoldable pub is_access_modes_compatible : List AccessMode → List AccessMode → Bool
is_access_modes_compatible old_modes new_modes = all (contains old_modes) new_modes

unfoldable pub is_split_spec_compatible : Option VolumeSplitSpec → Option VolumeSplitSpec → Bool
is_split_spec_compatible (some old_spec) (some new_spec) =
    if not (old_spec.namespace == new_spec.namespace)
    then false
    else if not (same_class old_spec.storage_class_name new_spec.storage_class_name)
    then false
    else if ltb_ℤ (quantity_of old_spec.capacity_total resource_storage).value
        (quantity_of new_spec.capacity_total resource_storage).value
    then false
    else is_access_modes_compatible old_spec.access_modes new_spec.access_modes
is_split_spec_compatible none _ = false
is_split_spec_compatible (some _) none = false

-- `&v1alpha1.VolumeSplit{}`
abbrev pub empty_split : VolumeSplit
empty_split = record {
  name = "";
  spec = record {
    volume_name = "";
    capacity_total = [];
    access_modes = [];
    namespace = "";
    storage_class_name = none;
    splits = [];
  };
}
