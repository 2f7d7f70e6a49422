-- ===== src/Union/AccessModes.antt =====
-- pkg/union/utils.go: quantities and access modes of claims.
use union_csi.Base.{List, [], ◌∷◌, ◌++◌, String, ◌<>◌, ◌≡◌, refl, All}
use union_csi.Base.Int.{ℤ}
use union_csi.Csi.{
  Mode, unknown, single_node_writer, single_node_reader_only, multi_node_reader_only,
  multi_node_single_writer, multi_node_multi_writer, single_node_single_writer,
  single_node_multi_writer, other,
}
use union_csi.Failure.{
  Result, ok, err, panic, errorf, access_mode_not_supported, access_mode_unknown,
}
use union_csi.Kube.{AccessMode, Quantity, PersistentVolumeClaim}

abbrev pub binary_si : String
binary_si = "BinarySI"

unfoldable pub get_quantity : ℤ → Quantity
get_quantity value = record { value = value; format = binary_si }

abbrev pub read_write_once : AccessMode
read_write_once = "ReadWriteOnce"

abbrev pub read_only_many : AccessMode
read_only_many = "ReadOnlyMany"

abbrev pub read_write_many : AccessMode
read_write_many = "ReadWriteMany"

unfoldable pub csi_to_k8s_access_mode : Mode → Result AccessMode
csi_to_k8s_access_mode single_node_writer = ok read_write_once
csi_to_k8s_access_mode single_node_single_writer = ok read_write_once
csi_to_k8s_access_mode single_node_multi_writer = ok read_write_once
csi_to_k8s_access_mode single_node_reader_only = ok read_only_many
csi_to_k8s_access_mode multi_node_reader_only = ok read_only_many
csi_to_k8s_access_mode multi_node_single_writer = err (errorf access_mode_not_supported)
csi_to_k8s_access_mode multi_node_multi_writer = ok read_write_many
csi_to_k8s_access_mode unknown = err (errorf access_mode_unknown)
csi_to_k8s_access_mode (other n) = err (errorf access_mode_unknown)

-- One more mode in the loop of `getAccessModes`.
abbrev append_mode :
    List AccessMode
    → Result AccessMode
    → (List AccessMode → Result (List AccessMode))
    → Result (List AccessMode)
append_mode modes (ok m) go = go (modes ++ m ∷ [])
append_mode modes (err e) go = err e
append_mode modes panic go = panic

get_access_modes_onto : List AccessMode → List Mode → Result (List AccessMode)
get_access_modes_onto access_modes [] = ok access_modes
get_access_modes_onto access_modes (mode ∷ modes) =
    append_mode access_modes (csi_to_k8s_access_mode mode) (λ ms. get_access_modes_onto ms modes)

unfoldable pub get_access_modes : List Mode → Result (List AccessMode)
unfolding get_access_modes_onto csi_to_k8s_access_mode
get_access_modes modes = get_access_modes_onto [] modes

-- Modes that all have a counterpart are all translated.
get_access_modes_onto_known :
    (done : List AccessMode) (ms : List Mode)
    → All (λ m. (a : AccessMode) × (csi_to_k8s_access_mode m ≡ ok a)) ms
    → (modes : List AccessMode) × (get_access_modes_onto done ms ≡ ok modes)
unfolding get_access_modes_onto
get_access_modes_onto_known done [] known = (done, refl)
get_access_modes_onto_known done (m ∷ ms) ((a, e), known) =
    let (modes, rest) = get_access_modes_onto_known (done ++ a ∷ []) ms known in (modes, rw e rest)

pub get_access_modes_known :
    (ms : List Mode)
    → All (λ m. (a : AccessMode) × (csi_to_k8s_access_mode m ≡ ok a)) ms
    → (modes : List AccessMode) × (get_access_modes ms ≡ ok modes)
unfolding get_access_modes
get_access_modes_known ms known = get_access_modes_onto_known [] ms known

unfoldable pub claim_to_claim_key : PersistentVolumeClaim → String
claim_to_claim_key claim = claim.namespace <> ("/" <> claim.name)
