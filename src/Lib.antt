-- ===== src/Lib.antt =====
-- The Union CSI driver: a Container Storage Interface plugin for Kubernetes that serves a volume as
-- the union of several lower volumes.
--
-- The parts of the program and the files that model them:
--
-- - Failure, Base: Go errors (pkg/union/errors.go, `fmt.Errorf`, `errors.Is`), functions that return
--   a value and an error, strings and integers.
-- - Kube: the objects exchanged with the API server, among them pkg/k8s/apis/union/v1alpha1.
--   Kube/Cluster is the interface to everything the driver calls in Kubernetes; Kube/Cluster/Laws and
--   Kube/Cluster/Store state its documented behaviour, and Kube/Cluster/Memory is a cluster that has it.
--   Kube/DeepCopy models deepcopy.go beside the types on a heap, and Kube/Clientset the constructors of
--   pkg/k8s/client/clientset.
-- - Union: pkg/union. Union/Splitter and Union/Splits model splitter.go, which records for a volume
--   how its capacity is divided over lower claims; Union/Lower models the creation and deletion of these
--   claims in union.go; Union/Pod models pkg/union/pod, and Union/Attacher models attacher.go, which
--   runs a pod that merges the claims on the node where the volume is attached.
-- - Csi: the messages of the Container Storage Interface. Csi/Validation models
--   pkg/csi/validation/validation.go, Csi/Validators the validators beside it, and Csi/Controller
--   pkg/csi/driver/controller_server.go, which maps requests to operations of the union package and
--   their errors to codes (Csi/Status). Csi/Controller/Calls is the service as a whole, with the calls
--   that answer Unimplemented, and Csi/Controller/Catalogue an abstract view of it, a catalogue
--   of volumes. Csi/Node and Csi/Node/Calls model pkg/csi/driver/node_server.go, Csi/Identity the
--   identity server and its validator, and Csi/Driver pkg/csi/driver/driver.go and helpers.go, with
--   cmd/union-csi-driver/main.go in Csi/Driver/Program.
-- - Mount: pkg/mount/mounter.go, which mounts a volume at its target path on the node. Mount/Memory is
--   an implementation of the mount utilities it calls.
-- - Merger: gogomergerfs, the program that runs in the attach pod. Merger/Blocking models
--   gogomergerfs/pkg/merger/internal.go as steps of goroutines that are interleaved in any order, and
--   Merger/Mergerfs gogomergerfs/pkg/merger/mergerfs and the command that uses it. Merger/Program is the
--   program, from its command line to its exit status.
--
-- A function that changes the cluster is an action: it takes the world and gives a result, an error
-- or a panic together with the world as it then stands, so that what was done before an error stays
-- done. The world that a call returns contains what other clients did meanwhile.
--
-- The loops over lists are structural. The retry loops of the attacher are those of client-go, which
-- is a parameter; its law `IsRetryLoop` speaks of every run of at most the given number of polls, and of
-- a cluster that changes between them. Two definitions run on fuel: the retry loop of the cluster in
-- memory, whose fuel is the number of polls that the driver sets, and the digits of a number in
-- Base/Text, whose fuel is the number and one more, above which more fuel changes nothing.
--
-- A statement about the cluster rests on the laws that it takes as parameters: `IsSplitStore` and
-- `IsClaimStore` say how each request reads or changes what is stored, with the driver as the only client
-- of splits and lower claims, `IsHealthy` and `IsWorking` that requests which can be carried out are,
-- `IsLister`, `IsRetryLoop`, `IsClassifier` and `IsForeign` what client-go documents, `IsPatient` what it
-- documents of a retry loop that is not cancelled, and `IsApart` that calls on pods touch neither splits
-- nor claims. A cache may be behind the store, but for the cache of claims in `IsWorking`. The mounter
-- rests on `IsMountTable`, which speaks of bind mounts, and on `IsCleaning`, the program gogomergerfs on
-- `IsStacking`, which counts the mounts that are stacked at a path, the endpoint on `IsRemoving`, deep
-- copies on `IsCopying` and, for metadata, on `Copier`, and the validation on `IsFieldLibrary`.
--
-- Not modelled: logging, the texts of errors made by `fmt.Errorf` (each is known by its place) and of
-- help, the stop of the gRPC server, the registration of types with the API machinery, the getters of
-- claims and nodes that ask the API after the cache, which nothing calls, and the libraries behind the
-- clients, the command lines, the gRPC server and the network, which are parameters.
pub mod Base
pub mod Failure
pub mod Kube
pub mod Csi
pub mod Union
pub mod Mount
pub mod Merger
