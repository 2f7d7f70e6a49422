-- ===== src/Kube/DeepCopy.antt =====
-- pkg/k8s/apis/union/v1alpha1/deepcopy.go on a heap: a Go slice, map or pointer is an address, or
-- none for nil, and a struct is a value that holds addresses.
pub mod Copiers
pub mod Slices
pub mod Arrays
pub mod Separate
pub mod Specs
pub mod Objects
mod Samples
use mathlib.Core.Logic.{ite}
use native.Mathlib.Decide.{ℕ_discrete}
use union_csi.Base.{ℕ, suc, String, Option, none, some, List, [], ◌∷◌, map}
use union_csi.Kube.{AccessMode, ResourceList, PersistentVolumeClaimSplit, VolumeSplitSpec}

abbrev pub Address : Type 0
Address = Option ℕ

-- `PersistentVolumeClaimSplit`, with the address of the map of requests.
pub record ClaimSplitRef : Type 0 where
  pub claim_name : String
  pub requests : Address

-- `VolumeSplitSpec`, with the addresses of what it refers to.
pub record SpecRef : Type 0 where
  pub volume_name : String
  pub capacity_total : Address
  pub access_modes : Address
  pub namespace : String
  pub storage_class_name : Address
  pub splits : Address

pub record TypeMeta : Type 0 where
  pub kind : String
  pub api_version : String

-- `ObjectMeta` of an object or `ListMeta` of a list, with the address of what it refers to. A list
-- has no name.
pub record MetaRef : Type 0 where
  pub name : String
  pub references : Address

-- `VolumeSplit`
pub record VolumeSplitRef : Type 0 where
  pub type_meta : TypeMeta
  pub object_meta : MetaRef
  pub spec : SpecRef

-- `VolumeSplitList`, with the address of the array of its items.
pub record VolumeSplitListRef : Type 0 where
  pub type_meta : TypeMeta
  pub list_meta : MetaRef
  pub items : Address

-- What lies at an address.
pub data Cell : Type 0 where
  unused : Cell
  text : String → Cell
  modes : List AccessMode → Cell
  resources : ResourceList → Cell
  claim_splits : List ClaimSplitRef → Cell
  volume_splits : List VolumeSplitRef → Cell

-- The addresses below `next` are taken.
pub record Heap : Type 0 where
  pub next : ℕ
  pub cell : ℕ → Cell

abbrev pub alloc : Cell → Heap → Address × Heap
alloc c h =
    (some h.next, record { next = suc h.next; cell = λ a. ite (ℕ_discrete a h.next) c (h.cell a) })

abbrev pub text_in : Cell → String
text_in (text s) = s
text_in _ = ""

abbrev pub modes_in : Cell → List AccessMode
modes_in (modes ms) = ms
modes_in _ = []

abbrev pub resources_in : Cell → ResourceList
resources_in (resources r) = r
resources_in _ = []

abbrev pub claim_splits_in : Cell → List ClaimSplitRef
claim_splits_in (claim_splits cs) = cs
claim_splits_in _ = []

abbrev pub volume_splits_in : Cell → List VolumeSplitRef
volume_splits_in (volume_splits ss) = ss
volume_splits_in _ = []

-- What an address stands for, with a value for nil.
abbrev pub read_cell : {V : Type 0} → (Cell → V) → V → Heap → Address → V
read_cell value nothing h none = nothing
read_cell value nothing h (some a) = value (h.cell a)

abbrev pub read_text : Heap → Address → Option String
read_text = read_cell (λ c. some (text_in c)) none

abbrev pub read_modes : Heap → Address → List AccessMode
read_modes = read_cell modes_in []

abbrev pub read_resources : Heap → Address → ResourceList
read_resources = read_cell resources_in []

abbrev pub read_claim_split : Heap → ClaimSplitRef → PersistentVolumeClaimSplit
read_claim_split h c = record {
  claim_name = c.claim_name;
  resources = record { requests = read_resources h c.requests };
}

-- The array of a slice, element by element.
abbrev pub read_slice : {X V : Type 0} → (Heap → X → V) → (Cell → List X) → Heap → Address → List V
read_slice read elements h none = []
read_slice read elements h (some a) = map (read h) (elements (h.cell a))

abbrev pub read_claim_splits : Heap → Address → List PersistentVolumeClaimSplit
read_claim_splits = read_slice read_claim_split claim_splits_in

abbrev pub read_spec : Heap → SpecRef → VolumeSplitSpec
read_spec h s = record {
  volume_name = s.volume_name;
  capacity_total = read_resources h s.capacity_total;
  access_modes = read_modes h s.access_modes;
  namespace = s.namespace;
  storage_class_name = read_text h s.storage_class_name;
  splits = read_claim_splits h s.splits;
}

-- What a pointer or slice refers to is copied into a new cell, and nil stays nil.
abbrev pub copy_cell : (Cell → Cell) → Address → Heap → Address × Heap
copy_cell content none h = (none, h)
copy_cell content (some a) h = alloc (content (h.cell a)) h

-- `AccessModes` and `StorageClassName` of a spec.
abbrev pub copy_modes : Address → Heap → Address × Heap
copy_modes p h = copy_cell (λ c. modes (modes_in c)) p h

abbrev pub copy_text : Address → Heap → Address × Heap
copy_text p h = copy_cell (λ c. text (text_in c)) p h

-- The loops over the elements of a slice.
abbrev pub copy_elements : {X : Type 0} → (X → Heap → X × Heap) → List X → Heap → List X × Heap
copy_elements copy [] h = ([], h)
copy_elements copy (x ∷ xs) h =
    let first = copy x h in let rest = copy_elements copy xs first.1 in (first.0 ∷ rest.0, rest.1)

-- The array of the copies is taken once its elements are made.
abbrev pub copy_slice :
    {X : Type 0}
    → (X → Heap → X × Heap)
    → (List X → Cell)
    → (Cell → List X)
    → Address
    → Heap
    → Address × Heap
copy_slice copy array elements none h = (none, h)
copy_slice copy array elements (some a) h =
    let xs = copy_elements copy (elements (h.cell a)) h in alloc (array xs.0) xs.1

-- `copy_resources` stands for the methods `DeepCopyInto` of `ResourceList` and
-- `ResourceRequirements` in k8s.io/api/core/v1.
module _ (copy_resources : Address → Heap → Address × Heap) where
  -- `PersistentVolumeClaimSplit.DeepCopyInto`
  abbrev pub copy_claim_split : ClaimSplitRef → Heap → ClaimSplitRef × Heap
  copy_claim_split c h =
      let r = copy_resources c.requests h in
      (record { claim_name = c.claim_name; requests = r.0 }, r.1)

  abbrev pub copy_claim_splits : Address → Heap → Address × Heap
  copy_claim_splits p h = copy_slice copy_claim_split claim_splits claim_splits_in p h

  -- `VolumeSplitSpec.DeepCopyInto`
  unfoldable pub copy_spec : SpecRef → Heap → SpecRef × Heap
  copy_spec s h =
      let m = copy_modes s.access_modes h in
      let t = copy_text s.storage_class_name m.1 in
      let c = copy_claim_splits s.splits t.1 in
      let r = copy_resources s.capacity_total c.1 in
      (
        record {
          volume_name = s.volume_name;
          capacity_total = r.0;
          access_modes = m.0;
          namespace = s.namespace;
          storage_class_name = t.0;
          splits = c.0;
        },
        r.1,
      )

  -- `copy_object_meta` and `copy_list_meta` stand for the methods `DeepCopyInto` of `ObjectMeta` and
  -- `ListMeta` in k8s.io/apimachinery/pkg/apis/meta/v1.
  module _ (copy_object_meta copy_list_meta : MetaRef → Heap → MetaRef × Heap) where
    -- `VolumeSplit.DeepCopyInto`
    unfoldable pub copy_volume_split : VolumeSplitRef → Heap → VolumeSplitRef × Heap
    unfolding copy_spec
    copy_volume_split s h =
        let m = copy_object_meta s.object_meta h in
        let p = copy_spec s.spec m.1 in
        (record { type_meta = s.type_meta; object_meta = m.0; spec = p.0 }, p.1)

    -- `VolumeSplitList.DeepCopyInto`
    unfoldable pub copy_volume_split_list : VolumeSplitListRef → Heap → VolumeSplitListRef × Heap
    unfolding copy_volume_split
    copy_volume_split_list l h =
        let m = copy_list_meta l.list_meta h in
        let i = copy_slice copy_volume_split volume_splits volume_splits_in l.items m.1 in
        (record { type_meta = l.type_meta; list_meta = m.0; items = i.0 }, i.1)

-- `DeepCopy` of each type, over its `DeepCopyInto`: nil stays nil.
abbrev pub deep_copy : {A : Type 0} → (A → Heap → A × Heap) → Option A → Heap → Option A × Heap
deep_copy into none h = (none, h)
deep_copy into (some x) h = let out = into x h in (some out.0, out.1)

-- `DeepCopyObject`, whose interface value is nil where the copy is.
abbrev pub deep_copy_object :
    {A : Type 0} → (A → Heap → A × Heap) → Option A → Heap → Option A × Heap
deep_copy_object into x h =
    let c = deep_copy into x h in (elim c.0 [ some o ↦ some o | none ↦ none ], c.1)
