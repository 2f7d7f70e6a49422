-- ===== src/Union/Splitter/Compatible.antt =====
-- When `isSplitSpecCompatible` accepts a repeated request.
use union_csi.Base.{
  String, true, Option, some, List, [], ◌∷◌, ◌≡◌, refl, ◌↔◌, arith, ==_refl, string_eq, ◌∙◌,
  contains, all,
}
use union_csi.Base.Int.{ℤ, ◌≤ℤ◌}
use union_csi.Kube.{AccessMode, quantity_of, resource_storage, VolumeSplitSpec}
use union_csi.Union.Splitter.{same_class, is_access_modes_compatible, is_split_spec_compatible}

-- `Spec.CapacityTotal[v1.ResourceStorage]` in bytes.
abbrev pub storage : VolumeSplitSpec → ℤ
storage spec = (quantity_of spec.capacity_total resource_storage).value

-- Every element of the second list is in the first.
abbrev pub Covers : List AccessMode → List AccessMode → Type 0
Covers old new = (m : AccessMode) → contains new m ≡ true → contains old m ≡ true

pub record IsCompatible (old new : VolumeSplitSpec) : Type 0 where
  pub namespace : old.namespace ≡ new.namespace
  pub storage_class : old.storage_class_name ≡ new.storage_class_name
  pub size : storage new ≤ℤ storage old
  pub modes : Covers old.access_modes new.access_modes

same_class_iff : (a b : Option String) → (same_class a b ≡ true) ↔ (a ≡ b)
unfolding same_class
same_class_iff a b = ground arith

all-contains_of_Covers :
    (old new : List AccessMode) → Covers old new → all (contains old) new ≡ true
all-contains_of_Covers old [] h = refl
all-contains_of_Covers old (n ∷ new) h = ground (
  arith,
  h n (ground (arith, ==_refl n)),
  all-contains_of_Covers old new (λ m k. h m (ground arith)),
)

Covers-of_all-contains :
    (old new : List AccessMode) → all (contains old) new ≡ true → Covers old new
Covers-of_all-contains old [] h m k = cc
Covers-of_all-contains old (n ∷ new) h m k = ground (arith, Covers-of_all-contains old new _ m)

is_access_modes_compatible_iff :
    (old new : List AccessMode) → (is_access_modes_compatible old new ≡ true) ↔ Covers old new
unfolding is_access_modes_compatible
is_access_modes_compatible_iff old new =
    (Covers-of_all-contains old new, all-contains_of_Covers old new)

-- A repeated request is accepted exactly when it names the namespace and the storage class of the
-- recorded split, asks for no more bytes, and asks only for access modes that the split has.
pub is_split_spec_compatible_iff :
    (old new : VolumeSplitSpec)
    → (is_split_spec_compatible (some old) (some new) ≡ true) ↔ IsCompatible old new
unfolding is_split_spec_compatible
is_split_spec_compatible_iff old new = (
  λ h. record {
    namespace = ground arith;
    storage_class = ground (arith, same_class_iff old.storage_class_name new.storage_class_name);
    size = ground arith;
    modes = (is_access_modes_compatible_iff old.access_modes new.access_modes).0 (ground arith);
  },
  λ h. ground (
    arith,
    same_class_iff old.storage_class_name new.storage_class_name,
    (is_access_modes_compatible_iff old.access_modes new.access_modes).1 h.modes,
    h.namespace,
    h.storage_class,
    h.size,
  ),
)

IsCompatible-refl : (s : VolumeSplitSpec) → IsCompatible s s
IsCompatible-refl s = record {
  namespace = refl;
  storage_class = refl;
  size = omega arith;
  modes = λ m h. h;
}

IsCompatible-trans :
    {a b c : VolumeSplitSpec} → IsCompatible a b → IsCompatible b c → IsCompatible a c
IsCompatible-trans h k = record {
  namespace = h.namespace ∙ k.namespace;
  storage_class = h.storage_class ∙ k.storage_class;
  size = omega arith;
  modes = λ m p. h.modes m (k.modes m p);
}

pub is_split_spec_compatible_refl :
    (a : VolumeSplitSpec) → is_split_spec_compatible (some a) (some a) ≡ true
is_split_spec_compatible_refl a = (is_split_spec_compatible_iff a a).1 (IsCompatible-refl a)

-- What is compatible with an accepted request is accepted too.
pub is_split_spec_compatible_trans :
    (a b c : VolumeSplitSpec)
    → is_split_spec_compatible (some a) (some b) ≡ true
    → is_split_spec_compatible (some b) (some c) ≡ true
    → is_split_spec_compatible (some a) (some c) ≡ true
is_split_spec_compatible_trans a b c h k = (is_split_spec_compatible_iff a c).1 (
    IsCompatible-trans ((is_split_spec_compatible_iff a b).0 h)
      ((is_split_spec_compatible_iff b c).0 k))
