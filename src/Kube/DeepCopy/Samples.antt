-- ===== src/Kube/DeepCopy/Samples.antt =====
-- A list of one split with two claims on a heap of six cells.
use union_csi.Base.{ℕ, zero, suc, String, Option, none, some, [], ◌∷◌, ◌≡◌, refl, arith}
use union_csi.Base.Int.{pos}
use union_csi.Kube.{resource_storage}
use union_csi.Kube.DeepCopy.{
  Address, Cell, unused, text, text_in, modes, resources, claim_splits, volume_splits, resources_in,
  Heap, SpecRef, MetaRef, VolumeSplitListRef, alloc, copy_volume_split_list, read_resources,
}
use union_csi.Kube.DeepCopy.Arrays.{IsCopying}
use union_csi.Kube.DeepCopy.Copiers.{Extends, In, Copier, cell_copier, struct_copier, alloc-Extends}
use union_csi.Kube.DeepCopy.Objects.{
  HoldsList, volume_split_copier, read_volume_split_list, copy_volume_split_list-IsSeparateCopy,
}
use union_csi.Kube.DeepCopy.Separate.{IsSeparateCopy}
use union_csi.Kube.DeepCopy.Specs.{spec_copier}

-- The library's copy of a resource list, into a new cell.
abbrev new_list : Address → Heap → Address × Heap
new_list none h = (none, h)
new_list (some a) h = alloc (resources (resources_in (h.cell a))) h

new_list-Extends : (p : Address) (h : Heap) → Extends h (new_list p h).1
new_list-Extends none h = (omega arith, λ a low high. refl)
new_list-Extends (some a) h = alloc-Extends (resources (resources_in (h.cell a))) h

new_list-In : (p : Address) (h : Heap) → In h.next (new_list p h).1.next (new_list p h).0
new_list-In none h = tt
new_list-In (some a) h = (omega arith, omega arith)

read_resources-new_list :
    (p : Address) (h : Heap)
    → In 0 h.next p
    → read_resources (new_list p h).1 (new_list p h).0 ≡ read_resources h p
read_resources-new_list none h held = refl
read_resources-new_list (some a) h held = ground arith

new_list-IsCopying : IsCopying new_list
new_list-IsCopying = record {
  copy-Extends = new_list-Extends;
  copy-In = new_list-In;
  read-copy = read_resources-new_list;
}

abbrev held_spec : SpecRef
held_spec = record {
  volume_name = "v1";
  capacity_total = some 4;
  access_modes = some 0;
  namespace = "lower";
  storage_class_name = some 1;
  splits = some 3;
}

abbrev six_cells : ℕ → Cell
six_cells zero = modes ("ReadWriteOnce" ∷ [])
six_cells (suc zero) = text "fast"
six_cells (suc (suc zero)) =
    resources ((resource_storage, record { value = pos 5; format = "BinarySI" }) ∷ [])
six_cells (suc (suc (suc zero))) = claim_splits (
    record { claim_name = "v1-lower0"; requests = some 2 }
    ∷ record { claim_name = "v1-lower1"; requests = some 2 }
    ∷ [])
six_cells (suc (suc (suc (suc zero)))) =
    resources ((resource_storage, record { value = pos 10; format = "BinarySI" }) ∷ [])
-- The split's metadata refer to its class.
six_cells (suc (suc (suc (suc (suc zero))))) = volume_splits (
    record {
      type_meta = record { kind = "VolumeSplit"; api_version = "union.io/v1alpha1" };
      object_meta = record { name = "v1-split"; references = some 1 };
      spec = held_spec;
    }
    ∷ [])
six_cells _ = unused

abbrev six : Heap
six = record { next = 6; cell = six_cells }

-- The library's copy of metadata, which refers to a text.
abbrev metadata : Copier MetaRef (String × Option String)
metadata =
    struct_copier (cell_copier (λ c. text (text_in c)) (λ c. some (text_in c)) none (λ c. refl))
      (λ m. m.references) (λ m p. record { name = m.name; references = p }) (λ m v. (m.name, v))
      (λ m p. refl) (λ m p v. refl)

abbrev held_list : VolumeSplitListRef
held_list = record {
  type_meta = record { kind = "VolumeSplitList"; api_version = "union.io/v1alpha1" };
  list_meta = record { name = ""; references = none };
  items = some 5;
}

held_list-HoldsList : HoldsList new_list new_list-IsCopying metadata metadata six 0 6 held_list
unfolding volume_split_copier spec_copier
held_list-HoldsList = omega arith

copy_volume_split_list-IsSeparateCopy_example :
    let r = copy_volume_split_list new_list metadata.copy metadata.copy held_list six in
    IsSeparateCopy
      (read_volume_split_list new_list new_list-IsCopying metadata metadata)
      held_list
      six
      r.0
      r.1
copy_volume_split_list-IsSeparateCopy_example =
    copy_volume_split_list-IsSeparateCopy new_list new_list-IsCopying metadata metadata held_list
      six held_list-HoldsList
