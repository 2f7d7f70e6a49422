-- ===== src/Union/Samples.antt =====
-- Runs of the splitter, of the lower claims and of the attacher on a cluster in memory.
use text.Mathlib.TextEquality.{eq_iff}
use union_csi.Base.{
  ◌+◌, ◌%◌, true, false, none, some, [], ◌∷◌, map, ◌≡◌, ◌≢◌, refl, ◌↔◌, arith, string_eq,
}
use union_csi.Base.Int.{pos}
use union_csi.Csi.{single_node_writer}
use union_csi.Failure.{
  Err, foreign, sentinel, idempotency_incompatible, volume_not_found, is, ok, err,
}
use union_csi.Kube.{
  VolumeSplit, VolumeSplitSpec, PersistentVolumeClaimSplit, resource_storage, quantity_of,
}
use union_csi.Kube.Cluster.{Cluster}
use union_csi.Kube.Cluster.Store.{View, IsSplitStore}
use union_csi.Kube.Cluster.Memory.{
  Store, memory, post_split, fetch_split, remove_split, post_claim, remove_claim, post_pod,
  remove_pod, has_node, find_split, drop_split, find_claim, drop_claim, find_pod, has_reason, retry,
}
use union_csi.Kube.Cluster.Memory.Laws.{
  memory_view, memory-IsClassifier, memory-IsSplitStore, memory-IsClaimStore, memory-IsHealthy,
}
use union_csi.Union.{CreateLowerOptions, new_volume_from_volume_split}
use union_csi.Union.Lower.Creation.{IsSupplied, create_lower_done}
use union_csi.Union.AccessModes.{get_access_modes}
use union_csi.Union.Splitter.{Splitter, make_split_name, is_split_spec_compatible}
use union_csi.Union.Splitter.Compatible.{storage, IsCompatible, is_split_spec_compatible_iff}
use union_csi.Union.Splits.{
  new_split, volume_splits_get, volume_splits_create, volume_splits_delete, get_split,
  do_create_split, create_missing, create_split, delete_split,
}
use union_csi.Union.Splits.Parts.{requested, new_split_parts}
use union_csi.Union.Splits.Create.{create_split_again}
use union_csi.Union.Splits.Origins.{Origin, create_split-Origin, create_split_swallows}
use union_csi.Union.Lower.{
  split_spec_of, lower_claim, get_claim_local, create_claim_of, create_lower_claim_from_split,
  create_lower_loop, create_lower_from_split, create_lower, delete_lower_claim_from_split,
  delete_lower_loop, delete_lower_from_split, find_split as look_up, delete_lower,
}
use union_csi.Union.Lower.Ownership.{IsOwned, create_lower-IsOwned}
use union_csi.Union.Lower.Cleanup.{Deleted, delete_lower_done, delete_lower-IsOwned}

abbrev pub plain : Splitter
plain = record { claim_name_prefix = "" }

abbrev pub spec : VolumeSplitSpec
spec = record {
  volume_name = "v1";
  capacity_total = (resource_storage, record { value = pos 11; format = "BinarySI" }) ∷ [];
  access_modes = "ReadWriteOnce" ∷ [];
  namespace = "lower";
  storage_class_name = none;
  splits = [];
}

abbrev pub blank : Store
blank = record { splits = []; claims = []; nodes = "n1" ∷ []; pods = []; schedule = [] }

abbrev options : CreateLowerOptions
options = record {
  capacity_bytes = pos 11;
  lower_namespace = "lower";
  lower_storage_class_name = none;
  csi_access_modes = single_node_writer ∷ [];
}

-- The world after a first `CreateLower`.
abbrev pub stocked : Store
stocked = (create_lower memory plain "v1" options blank).1

blank-IsOwned : IsOwned memory memory_view blank
unfolding post_split fetch_split remove_split post_claim remove_claim post_pod remove_pod has_node
    find_split drop_split find_claim drop_claim find_pod has_reason retry
blank-IsOwned ns n h = absurd (ground arith)

create_lower-IsOwned_example : IsOwned memory memory_view stocked
create_lower-IsOwned_example =
    create_lower-IsOwned memory memory_view memory-IsSplitStore memory-IsClaimStore plain "v1"
      options blank blank-IsOwned

delete_lower-IsOwned_example : IsOwned memory memory_view (delete_lower memory "v1" stocked).1
delete_lower-IsOwned_example =
    delete_lower-IsOwned memory memory_view memory-IsSplitStore memory-IsClaimStore "v1" stocked
      create_lower-IsOwned_example

-- Two claims are made, and a second request for the same volume fails.
created : (map (λ c. c.name) stocked.claims) ≡ "v1-lower1" ∷ "v1-lower0" ∷ []
unfolding create_lower create_lower_from_split create_lower_loop create_lower_claim_from_split
    create_claim_of lower_claim get_claim_local split_spec_of get_access_modes create_split
    create_missing get_split do_create_split new_split volume_splits_get volume_splits_create
    make_split_name string_eq post_split fetch_split remove_split post_claim remove_claim post_pod
    remove_pod has_node find_split drop_split find_claim drop_claim find_pod has_reason retry
created = refl

pub deleted : (delete_lower memory "v1" stocked).0 ≡ ok tt
unfolding delete_lower look_up delete_lower_from_split delete_lower_loop delete_split
    delete_lower_claim_from_split volume_splits_delete create_lower create_lower_from_split
    create_lower_loop create_lower_claim_from_split create_claim_of lower_claim get_claim_local
    split_spec_of get_access_modes create_split create_missing get_split do_create_split new_split
    volume_splits_get volume_splits_create make_split_name string_eq post_split fetch_split
    remove_split post_claim remove_claim post_pod remove_pod has_node find_split drop_split
    find_claim drop_claim find_pod has_reason retry
deleted = refl

-- The split as the first request records it, and the world then.
abbrev pub first : VolumeSplit
first = new_split plain "v1-split" spec

answered :
    (create_lower memory plain "v1" options blank).0
    ≡ ok (record (new_volume_from_volume_split first) { capacity_bytes = pos 0 })
unfolding create_lower create_lower_from_split create_lower_loop create_lower_claim_from_split
    create_claim_of lower_claim get_claim_local split_spec_of get_access_modes create_split
    create_missing get_split do_create_split new_split volume_splits_get volume_splits_create
    make_split_name string_eq new_volume_from_volume_split post_split fetch_split remove_split
    post_claim remove_claim post_pod remove_pod has_node find_split drop_split find_claim drop_claim
    find_pod has_reason retry
answered = refl

create_lower_done_example :
    IsSupplied memory memory_view memory-IsClaimStore plain "v1" options blank
      (record (new_volume_from_volume_split first) { capacity_bytes = pos 0 })
      (create_lower memory plain "v1" options blank).1
create_lower_done_example =
    create_lower_done memory memory_view memory-IsClaimStore plain "v1" options blank answered

delete_lower_done_example :
    (split : VolumeSplit) × (memory_view.splits stocked (make_split_name "v1") ≡ some split)
    × Deleted memory memory_view memory-IsSplitStore memory-IsClaimStore "v1" split stocked
        (delete_lower memory "v1" stocked).1
delete_lower_done_example =
    delete_lower_done memory memory_view memory-IsSplitStore memory-IsClaimStore "v1" stocked
      deleted

size : storage spec ≡ pos 11
unfolding quantity_of string_eq
size = refl

new_split_parts_example :
    (a : PersistentVolumeClaimSplit) × (b : PersistentVolumeClaimSplit) × ((new_split plain
        "v1-split" spec).spec.splits
      ≡ a ∷ b ∷ [])
    × (a.claim_name ≢ b.claim_name)
    × (requested a ≡ requested b)
    × (requested a + requested b + 11 % 2 ≡ 11)
new_split_parts_example = new_split_parts plain "v1-split" spec 11 size refl

is_split_spec_compatible_iff_example :
    (is_split_spec_compatible (some spec) (some spec) ≡ true) ↔ IsCompatible spec spec
is_split_spec_compatible_iff_example = is_split_spec_compatible_iff spec spec

abbrev pub held : Store
held = record blank { splits = first ∷ [] }

held_recorded : memory_view.splits held (make_split_name "v1") ≡ some first
unfolding find_split string_eq new_split make_split_name
held_recorded = refl

held_no_twin : memory_view.splits held (make_split_name (make_split_name "v1")) ≡ none
unfolding find_split string_eq new_split make_split_name
held_no_twin = refl

create_split_again_example :
    (e : Err) × ((create_split memory plain "v1" spec held).0 ≡ err e)
    × (is e volume_not_found ≡ true)
create_split_again_example =
    create_split_again memory memory_view memory-IsSplitStore memory-IsClassifier memory-IsHealthy
      plain "v1" spec held held_recorded held_no_twin

split_first : (create_split memory plain "v1" spec blank).0 ≡ ok first
unfolding create_split create_missing get_split do_create_split new_split volume_splits_get
    volume_splits_create make_split_name string_eq post_split fetch_split remove_split post_claim
    remove_claim post_pod remove_pod has_node find_split drop_split find_claim drop_claim find_pod
    has_reason retry
split_first = refl

create_split-Origin_example :
    Origin memory memory_view memory-IsSplitStore plain "v1" spec first
      (create_split memory plain "v1" spec blank).1
create_split-Origin_example =
    create_split-Origin memory memory_view memory-IsSplitStore plain "v1" spec blank split_first

-- A cluster whose reads of splits time out.
abbrev late : Cluster
late = record memory { rest_get = λ n r w. ((r, some (foreign "timeout")), w) }

abbrev late_view : View late
late_view = record { splits = memory_view.splits; claims = memory_view.claims }

late-IsSplitStore : IsSplitStore late late_view
unfolding string_eq post_split fetch_split remove_split post_claim remove_claim post_pod remove_pod
    has_node find_split drop_split find_claim drop_claim find_pod has_reason retry
late-IsSplitStore = record {
  get_found = λ n r w h. absurd (ground arith);
  get_missing = λ n r w h k. absurd (ground arith);
  get_failed = λ n r w h. refl;
  get-splits = λ n r w. refl;
  get-claims = λ n r w. refl;
  post_done = memory-IsSplitStore.post_done;
  post_refused = memory-IsSplitStore.post_refused;
  post_keeps = memory-IsSplitStore.post_keeps;
  post-claims = memory-IsSplitStore.post-claims;
  delete_done = memory-IsSplitStore.delete_done;
  delete-splits_other = memory-IsSplitStore.delete-splits_other;
  delete-claims = memory-IsSplitStore.delete-claims;
}

late_read : (get_split late (make_split_name "v1") blank).0.1 ≡ some (foreign "timeout")
unfolding get_split volume_splits_get string_eq post_split fetch_split remove_split post_claim
    remove_claim post_pod remove_pod has_node find_split drop_split find_claim drop_claim find_pod
    has_reason retry
late_read = refl

late_other : late.is_not_found (foreign "timeout") ≡ false
unfolding string_eq post_split fetch_split remove_split post_claim remove_claim post_pod remove_pod
    has_node find_split drop_split find_claim drop_claim find_pod has_reason retry
late_other = refl

named : spec.namespace ≢ ""
named e = ground (arith, eq_iff "lower" "")

create_split_swallows_example :
    (create_split late plain "v1" spec blank).0 ≡ err (sentinel idempotency_incompatible)
create_split_swallows_example =
    create_split_swallows late late_view late-IsSplitStore plain "v1" spec blank late_read
      late_other named
