-- ===== src/Union/Pod.antt =====
-- pkg/union/pod: the attach pod of a volume.
pub mod Mounts
pub mod Names
use union_csi.Base.{ℕ, suc, String, ◌<>◌, true, none, some, List, [], ◌∷◌, ◌++◌}
use union_csi.Base.Text.{itoa, join_path}
use union_csi.Kube.{PodVolume, persistent_volume_claim, host_path, VolumeMount, Pod}

abbrev pub image : String
image = "docker.io/on2e/gogomergerfs:demo-mergerfs2.37.1"

abbrev pub command_name : String
command_name = "gogomergerfs"

-- `fmt.Sprintf(commandString, branches, target)`
abbrev pub command_string : String → String → String
command_string branches target =
    "gogomergerfs mergerfs --branches=" <> (branches <> (" --target=" <> (target <> " --block")))

pub record Builder : Type 0 where
  pub pod_name : String
  pub pod_namespace : String
  pub claim_names : List String
  pub host_path : String
  pub container_path : String

unfoldable pub new_builder : String → String → List String → String → String → Builder
unfolding join_path
new_builder pod_name pod_namespace claim_names path volume_id = record {
  pod_name = pod_name;
  pod_namespace = pod_namespace;
  claim_names = claim_names;
  host_path = path;
  container_path = join_path ("/volume" ∷ volume_id ∷ []);
}

-- The name of the volume for the claim at an index.
abbrev pub branch_name : ℕ → String
branch_name i = "branch" <> itoa i

-- The volumes and the mounts that a step adds to.
abbrev pub Mounts : Type 0
Mounts = List PodVolume × List VolumeMount

unfoldable pub add_pvc_loop : Builder → ℕ → List String → Mounts → Mounts
unfolding join_path itoa
add_pvc_loop b i [] m = m
add_pvc_loop b i (claim_name ∷ claim_names) (volumes, volume_mounts) =
    let volume_name = branch_name i in
    let mount_path =
      join_path (b.container_path ∷ "/branches" ∷ (volume_name <> ("-" <> claim_name)) ∷ []) in
    let volume : PodVolume = record {
      name = volume_name;
      source = persistent_volume_claim claim_name;
    } in
    let volume_mount : VolumeMount = record {
      name = volume_name;
      mount_path = mount_path;
      mount_propagation = none;
    } in
    add_pvc_loop b (suc i) claim_names (volumes ++ volume ∷ [], volume_mounts ++ volume_mount ∷ [])

unfoldable pub add_pvc_volumes_and_volume_mounts : Builder → Mounts → Mounts
unfolding add_pvc_loop
add_pvc_volumes_and_volume_mounts b m = add_pvc_loop b 0 b.claim_names m

unfoldable pub add_host_path_volume_and_volume_mount : Builder → Mounts → Mounts
unfolding join_path
add_host_path_volume_and_volume_mount b (volumes, volume_mounts) =
    let volume : PodVolume = record {
      name = "target";
      source = host_path b.host_path "DirectoryOrCreate";
    } in
    let volume_mount : VolumeMount = record {
      name = "target";
      mount_path = join_path (b.container_path ∷ "/merged" ∷ []);
      mount_propagation = some "Bidirectional";
    } in
    (volumes ++ volume ∷ [], volume_mounts ++ volume_mount ∷ [])

unfoldable pub build : Builder → Pod
unfolding add_pvc_volumes_and_volume_mounts add_host_path_volume_and_volume_mount join_path
build b =
    let added =
      add_host_path_volume_and_volume_mount b (add_pvc_volumes_and_volume_mounts b ([], [])) in
    let branches = join_path (b.container_path ∷ "branches/\\*" ∷ []) in
    let target = join_path (b.container_path ∷ "merged" ∷ []) in
    record {
      name = b.pod_name;
      namespace = b.pod_namespace;
      deletion_timestamp = none;
      phase = "";
      spec = record {
        containers =
            record {
              name = command_name;
              image = image;
              image_pull_policy = "Always";
              privileged = some true;
              command = "/bin/sh" ∷ [];
              args = "-c" ∷ command_string branches target ∷ [];
              volume_mounts = added.1;
            }
            ∷ [];
        volumes = added.0;
        node_selector = [];
        node_name = "";
      };
    }

-- `Factory.Create`
unfoldable pub create : String → String → List String → String → String → Pod
unfolding build new_builder
create pod_name pod_namespace claim_names path volume_id =
    build (new_builder pod_name pod_namespace claim_names path volume_id)
