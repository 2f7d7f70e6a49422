-- ===== src/Kube/DeepCopy/Arrays.antt =====
-- Deep copies of a resource list, which the library makes, and of a slice of claim splits.
use union_csi.Base.{◌≡◌, refl, List, []}
use union_csi.Kube.{ResourceList, PersistentVolumeClaimSplit}
use union_csi.Kube.DeepCopy.{
  Address, Heap, ClaimSplitRef, claim_splits, claim_splits_in, read_resources, resources_in,
}
use union_csi.Kube.DeepCopy.Copiers.{Extends, In, In-widen, Copier, read_cell-frame, struct_copier}
use union_csi.Kube.DeepCopy.Slices.{slice_copier}

-- The copying of resource lists by the library: it takes new addresses for a copy that stands for
-- the same, and leaves alone what is there.
pub record IsCopying (copy : Address → Heap → Address × Heap) : Type 0 where
  pub copy-Extends : (p : Address) (h : Heap) → Extends h (copy p h).1
  pub copy-In : (p : Address) (h : Heap) → In h.next (copy p h).1.next (copy p h).0
  pub read-copy :
      (p : Address) (h : Heap)
      → In 0 h.next p
      → read_resources (copy p h).1 (copy p h).0 ≡ read_resources h p

module _ (copy : Address → Heap → Address × Heap) (L : IsCopying copy) where
  abbrev pub resource_copier : Copier Address ResourceList
  resource_copier = record {
    copy = copy;
    read = read_resources;
    Holds = λ h lo hi p. In lo hi p;
    extends = L.copy-Extends;
    fresh = λ p h held. L.copy-In p h;
    same = L.read-copy;
    frame = read_cell-frame (λ c. c) resources_in [] (λ c. refl);
    move = λ p h g lo hi held same. held;
    widen = λ p h lo hi lo' hi' le le' held. In-widen p lo hi lo' hi' le le' held;
  }

  abbrev pub claim_split_copier : Copier ClaimSplitRef PersistentVolumeClaimSplit
  claim_split_copier =
      struct_copier resource_copier (λ c. c.requests)
        (λ c p. record { claim_name = c.claim_name; requests = p })
        (λ c r. record { claim_name = c.claim_name; resources = record { requests = r } })
        (λ c p. refl) (λ c p r. refl)

  abbrev pub claim_splits_copier : Copier Address (List PersistentVolumeClaimSplit)
  claim_splits_copier = slice_copier claim_split_copier claim_splits claim_splits_in (λ cs. refl)
