-- ===== src/Kube/DeepCopy/Objects.antt =====
-- A deep copy of a VolumeSplit and of a VolumeSplitList.
use union_csi.Base.{ℕ, List, refl}
use union_csi.Kube.{VolumeSplitSpec}
use union_csi.Kube.DeepCopy.{
  Address, Heap, TypeMeta, MetaRef, VolumeSplitRef, VolumeSplitListRef, volume_splits,
  volume_splits_in, read_slice, read_spec, copy_volume_split, copy_volume_split_list,
}
use union_csi.Kube.DeepCopy.Arrays.{IsCopying}
use union_csi.Kube.DeepCopy.Copiers.{Copier, pair, struct_copier}
use union_csi.Kube.DeepCopy.Separate.{IsSeparateCopy, copy-IsSeparateCopy}
use union_csi.Kube.DeepCopy.Slices.{slice_copier}
use union_csi.Kube.DeepCopy.Specs.{spec_copier}

-- What a VolumeSplit and a VolumeSplitList stand for, with metadata that stand for M and N.
abbrev pub Object : Type 0 → Type 0
Object M = TypeMeta × (M × VolumeSplitSpec)

abbrev pub ObjectList : Type 0 → Type 0 → Type 0
ObjectList M N = TypeMeta × (N × List (Object M))

-- The library copies resource lists and the metadata of objects and of lists.
module _ (copy : Address → Heap → Address × Heap) (L : IsCopying copy) {M N : Type 0}
    (O : Copier MetaRef M) (Q : Copier MetaRef N) where
  abbrev pub read_volume_split : Heap → VolumeSplitRef → Object M
  read_volume_split h s = (s.type_meta, (O.read h s.object_meta, read_spec h s.spec))

  abbrev pub read_volume_split_list : Heap → VolumeSplitListRef → ObjectList M N
  read_volume_split_list h l =
      (l.type_meta, (Q.read h l.list_meta, read_slice read_volume_split volume_splits_in h l.items))

  abbrev split_parts : Copier VolumeSplitRef (Object M)
  split_parts =
      struct_copier (pair O (spec_copier copy L)) (λ s. (s.object_meta, s.spec))
        (λ s p. record { type_meta = s.type_meta; object_meta = p.0; spec = p.1 })
        (λ s v. (s.type_meta, v)) (λ s p. refl) (λ s p v. refl)

  unfoldable pub volume_split_copier : Copier VolumeSplitRef (Object M)
  unfolding copy_volume_split spec_copier
  volume_split_copier = record {
    copy = copy_volume_split copy O.copy Q.copy;
    read = read_volume_split;
    Holds = split_parts.Holds;
    extends = split_parts.extends;
    fresh = split_parts.fresh;
    same = split_parts.same;
    frame = split_parts.frame;
    move = split_parts.move;
    widen = split_parts.widen;
  }

  abbrev list_parts : Copier VolumeSplitListRef (ObjectList M N)
  list_parts =
      struct_copier
        (pair Q (slice_copier volume_split_copier volume_splits volume_splits_in (λ ss. refl)))
        (λ l. (l.list_meta, l.items))
        (λ l p. record { type_meta = l.type_meta; list_meta = p.0; items = p.1 })
        (λ l v. (l.type_meta, v)) (λ l p. refl) (λ l p v. refl)

  -- The addresses of a list, of its array and of each of its items are in a range.
  abbrev pub HoldsList : Heap → ℕ → ℕ → VolumeSplitListRef → Type 0
  HoldsList = list_parts.Holds

  -- `DeepCopyInto` of a list of splits whose addresses are taken makes a list that stands for the
  -- same. Whatever is then written through the copy, the original stands for what it stood for, and
  -- whatever is written through the original, the copy does.
  pub copy_volume_split_list-IsSeparateCopy :
      (l : VolumeSplitListRef) (h : Heap)
      → HoldsList h 0 h.next l
      → let r = copy_volume_split_list copy O.copy Q.copy l h in
        IsSeparateCopy read_volume_split_list l h r.0 r.1
  unfolding copy_volume_split_list volume_split_copier
  copy_volume_split_list-IsSeparateCopy l h held = copy-IsSeparateCopy list_parts l h held
