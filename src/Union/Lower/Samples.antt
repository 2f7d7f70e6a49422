-- ===== src/Union/Lower/Samples.antt =====
-- A volume that is created and deleted on the cluster in memory.
use text.Mathlib.TextEquality.{eq_iff}
use union_csi.Base.{String, [], ◌∷◌, none, some, ◌≡◌, ◌≢◌, refl, arith, string_eq, ==_refl}
use union_csi.Base.Int.{pos}
use union_csi.Csi.{single_node_writer}
use union_csi.Failure.{ok}
use union_csi.Kube.Cluster.Memory.{Store, memory, find_split, find_claim}
use union_csi.Kube.Cluster.Memory.Laws.{
  memory_view, memory-IsClassifier, memory-IsSplitStore, memory-IsClaimStore, memory-IsHealthy,
  memory-IsWorking,
}
use union_csi.Union.{CreateLowerOptions}
use union_csi.Union.AccessModes.{get_access_modes}
use union_csi.Union.Splitter.{Splitter, make_split_name, make_claim_name}
use union_csi.Union.Lower.{create_lower, delete_lower}
use union_csi.Union.Lower.Creation.{volume_of}
use union_csi.Union.Lower.Liveness.{split_of, IsNew, IsMade, create_lower_new}
use union_csi.Union.Lower.Isolation.{delete_lower_isolated}

abbrev plain : Splitter
plain = record { claim_name_prefix = "" }

abbrev bare : Store
bare = record { splits = []; claims = []; nodes = []; pods = []; schedule = [] }

abbrev eleven_bytes : CreateLowerOptions
eleven_bytes = record {
  capacity_bytes = pos 11;
  lower_namespace = "lower";
  lower_storage_class_name = none;
  csi_access_modes = single_node_writer ∷ [];
}

modes_known : get_access_modes (single_node_writer ∷ []) ≡ ok ("ReadWriteOnce" ∷ [])
unfolding get_access_modes
modes_known = refl

bare-IsNew :
    IsNew memory memory_view memory-IsSplitStore memory-IsClaimStore memory-IsClassifier
      memory-IsHealthy memory-IsWorking plain "v1" eleven_bytes bare
unfolding find_split find_claim
bare-IsNew = record { no_split = refl; no_twin = refl; no_first = refl; no_second = refl }

create_lower_new_example :
    ((create_lower memory plain "v1" eleven_bytes bare).0
      ≡ ok (volume_of (split_of plain "v1" eleven_bytes ("ReadWriteOnce" ∷ []))))
    × IsMade memory memory_view memory-IsSplitStore memory-IsClaimStore memory-IsClassifier
        memory-IsHealthy memory-IsWorking plain "v1" eleven_bytes bare
        (split_of plain "v1" eleven_bytes ("ReadWriteOnce" ∷ []))
        (create_lower memory plain "v1" eleven_bytes bare).1
create_lower_new_example =
    create_lower_new memory memory_view memory-IsSplitStore memory-IsClaimStore memory-IsClassifier
      memory-IsHealthy memory-IsWorking plain "v1" eleven_bytes bare ("ReadWriteOnce" ∷ [])
      modes_known bare-IsNew

-- The world with the volume "v1".
abbrev stocked : Store
stocked = (create_lower memory plain "v1" eleven_bytes bare).1

stocked_recorded :
    find_split (make_split_name "v1") stocked.splits
    ≡ some (split_of plain "v1" eleven_bytes ("ReadWriteOnce" ∷ []))
stocked_recorded = ground (
  arith,
  create_lower_new_example.1.recorded (make_split_name "v1"),
  ==_refl (make_split_name "v1"),
)

two_volumes : ◌≢◌ {A = String} "v1" "v2"
two_volumes = ground (arith, eq_iff "v1" "v2")

delete_lower_isolated_example :
    memory_view.claims (delete_lower memory "v1" stocked).1 "lower" (make_claim_name plain "v2" 1)
    ≡ memory_view.claims stocked "lower" (make_claim_name plain "v2" 1)
delete_lower_isolated_example =
    delete_lower_isolated memory memory_view memory-IsSplitStore memory-IsClaimStore plain "v1" "v2"
      eleven_bytes ("ReadWriteOnce" ∷ []) stocked two_volumes stocked_recorded "lower" 1
      (omega arith)
