-- ===== src/Union/Attacher/Samples.antt =====
-- Runs of the attacher on a cluster in memory.
use union_csi.Base.{none, [], ◌∷◌, string_eq, String}
use union_csi.Base.Int.{pos}
use union_csi.Kube.{Pod}
use union_csi.Kube.Cluster.Memory.{Store, memory}
use union_csi.Kube.Cluster.Memory.Laws.{memory-IsRetryLoop, memory-IsLister}
use union_csi.Union.{Volume}
use union_csi.Union.Attacher.{attach}
use union_csi.Union.Attacher.Outcome.{AttachOutcome, attach_outcome}
use union_csi.Union.Pod.{Builder, build}
use union_csi.Union.Pod.Names.{IsSound, mounts_of, build-IsSound}
use union_csi.Union.Samples.{blank}

-- A volume, its attach pod, and worlds in which the pod comes to run.
abbrev vol : Volume
vol = record {
  volume_id = "v1";
  capacity_bytes = pos 11;
  access_modes = "ReadWriteOnce" ∷ [];
  namespace = "lower";
  claim_names = "v1-lower0" ∷ "v1-lower1" ∷ [];
  storage_class_name = none;
}

abbrev pub pod_at : String → String → Pod
pod_at node phase = record {
  name = "attach-pod-digest-of-v1";
  namespace = "lower";
  deletion_timestamp = none;
  spec = record { containers = []; volumes = []; node_selector = []; node_name = node };
  phase = phase;
}

abbrev starting : Store
starting = record blank {
  schedule = (pod_at "n1" "Pending" ∷ []) ∷ (pod_at "n1" "Running" ∷ []) ∷ [];
}

attach_outcome_example :
    AttachOutcome memory vol "n1"
      (attach memory vol "n1" starting).0
      (attach memory vol "n1" starting).1
attach_outcome_example = attach_outcome memory vol "n1" memory-IsLister memory-IsRetryLoop starting

-- The pod runs, and is gone after two polls.
abbrev stopping : Store
stopping = record blank {
  pods = pod_at "n1" "Running" ∷ [];
  schedule = (pod_at "n1" "Running" ∷ []) ∷ [] ∷ [];
}

abbrev attach_builder : Builder
attach_builder = record {
  pod_name = "attach-pod";
  pod_namespace = "lower";
  claim_names = "v1-lower0" ∷ "v1-lower1" ∷ [];
  host_path = "/merged";
  container_path = "/volume/v1";
}

build-IsSound_example :
    IsSound attach_builder
      (build attach_builder).spec.volumes
      (mounts_of (build attach_builder).spec.containers)
build-IsSound_example = build-IsSound attach_builder
