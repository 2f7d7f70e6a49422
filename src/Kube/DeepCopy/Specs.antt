-- ===== src/Kube/DeepCopy/Specs.antt =====
-- A deep copy of a VolumeSplitSpec.
use union_csi.Base.{ℕ, Option, none, some, String, List, [], refl}
use union_csi.Kube.{AccessMode, ResourceList, PersistentVolumeClaimSplit, VolumeSplitSpec}
use union_csi.Kube.DeepCopy.{
  Address, Heap, SpecRef, text, modes, text_in, modes_in, read_spec, copy_spec,
}
use union_csi.Kube.DeepCopy.Arrays.{IsCopying, claim_splits_copier, resource_copier}
use union_csi.Kube.DeepCopy.Copiers.{Copier, pair, cell_copier, struct_copier}
use union_csi.Kube.DeepCopy.Separate.{IsSeparateCopy, copy-IsSeparateCopy}

-- The four parts of a spec that hold addresses, in the order in which they are copied.
abbrev Parts : Type 0
Parts = Address × (Address × (Address × Address))

abbrev PartValues : Type 0
PartValues = List AccessMode × (Option String × (List PersistentVolumeClaimSplit × ResourceList))

abbrev parts_of : SpecRef → Parts
parts_of s = (s.access_modes, (s.storage_class_name, (s.splits, s.capacity_total)))

-- The spec with these addresses of its parts.
abbrev with_parts : SpecRef → Parts → SpecRef
with_parts s p = record {
  volume_name = s.volume_name;
  capacity_total = p.1.1.1;
  access_modes = p.0;
  namespace = s.namespace;
  storage_class_name = p.1.0;
  splits = p.1.1.0;
}

-- The spec with these values of its parts.
abbrev with_values : SpecRef → PartValues → VolumeSplitSpec
with_values s v = record {
  volume_name = s.volume_name;
  capacity_total = v.1.1.1;
  access_modes = v.0;
  namespace = s.namespace;
  storage_class_name = v.1.0;
  splits = v.1.1.0;
}

module _ (copy : Address → Heap → Address × Heap) (L : IsCopying copy) where
  abbrev parts : Copier Parts PartValues
  parts = pair (cell_copier (λ c. modes (modes_in c)) modes_in [] (λ c. refl)) (
      pair (cell_copier (λ c. text (text_in c)) (λ c. some (text_in c)) none (λ c. refl))
        (pair (claim_splits_copier copy L) (resource_copier copy L)))

  abbrev spec_parts : Copier SpecRef VolumeSplitSpec
  spec_parts = struct_copier parts parts_of with_parts with_values (λ s p. refl) (λ s p v. refl)

  -- The addresses of a spec, and those in its array of claim splits, are in a range.
  abbrev pub HoldsSpec : Heap → ℕ → ℕ → SpecRef → Type 0
  HoldsSpec = spec_parts.Holds

  unfoldable pub spec_copier : Copier SpecRef VolumeSplitSpec
  unfolding copy_spec
  spec_copier = record {
    copy = copy_spec copy;
    read = read_spec;
    Holds = HoldsSpec;
    extends = spec_parts.extends;
    fresh = spec_parts.fresh;
    same = spec_parts.same;
    frame = spec_parts.frame;
    move = spec_parts.move;
    widen = spec_parts.widen;
  }

  -- `DeepCopyInto` of a spec whose addresses are taken makes a spec that stands for the same.
  -- Whatever is then written through the copy, the original stands for what it stood for, and
  -- whatever is written through the original, the copy does.
  pub copy_spec-IsSeparateCopy :
      (s : SpecRef) (h : Heap)
      → HoldsSpec h 0 h.next s
      → IsSeparateCopy read_spec s h (copy_spec copy s h).0 (copy_spec copy s h).1
  unfolding spec_copier
  copy_spec-IsSeparateCopy s h held = copy-IsSeparateCopy spec_copier s h held
