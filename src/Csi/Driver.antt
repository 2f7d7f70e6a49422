-- ===== src/Csi/Driver.antt =====
-- pkg/csi/driver/driver.go and pkg/csi/driver/helpers.go: the driver, its options, and which
-- services it registers; and GetOptions of cmd/union-csi-driver/main.go, from the flags it reads.
pub mod Services
pub mod Endpoint
pub mod Program
mod Samples
use union_csi.Base.{
  String, Bool, true, false, not, ◌&&◌, Option, none, some, List, [], ◌∷◌, ◌==◌, Eq, string_eq,
  if◌then◌else◌,
}
use union_csi.Base.Text.{to_lower}
use union_csi.Csi.{Mode, NodeCapType}
use union_csi.Csi.Controller.{ControllerServer, new_controller_server, volume_capabilities}
use union_csi.Csi.Identity.{PluginCapType, IdentityServer, new_identity_server}
use union_csi.Csi.Validators.{NodeValidator, new_node_validator, next}
use union_csi.Failure.{
  Err, errorf, mode_unknown, endpoint_unreadable, socket_kept, protocol_unsupported, Result, ok,
  err, panic, Act, ◌>>=◌, ◌>>◌, lift, check, pure, fail,
}
use union_csi.Union.Splitter.{Splitter}

abbrev pub mode_all : String
mode_all = "All"

abbrev pub mode_controller : String
mode_controller = "Controller"

abbrev pub mode_node : String
mode_node = "Node"

pub record DriverOptions : Type 0 where
  pub mode : String
  pub csi_endpoint : String
  pub default_lower_namespace : String

abbrev pub DriverOption : Type 0
DriverOption = DriverOptions → DriverOptions

unfoldable pub with_mode : String → DriverOption
with_mode mode o = record o { mode = mode }

unfoldable pub with_csi_endpoint : String → DriverOption
with_csi_endpoint endpoint o = record o { csi_endpoint = endpoint }

unfoldable pub with_default_lower_namespace : String → DriverOption
with_default_lower_namespace ns o = record o { default_lower_namespace = ns }

abbrev pub default_driver_options : DriverOptions
default_driver_options = record {
  mode = mode_all;
  csi_endpoint = "unix:///tmp/csi.sock";
  default_lower_namespace = "union";
}

abbrev pub apply_driver_options : DriverOptions → List DriverOption → DriverOptions
apply_driver_options o [] = o
apply_driver_options o (f ∷ fs) = apply_driver_options (f o) fs

pub record NodeServer : Type 0 where
  pub node_id : String
  pub validator : NodeValidator

abbrev pub node_capabilities : List NodeCapType
node_capabilities = []

-- `node_name` is the environment variable NODE_NAME, empty if it is not set.
unfoldable pub new_node_server : String → Result NodeServer
unfolding new_node_validator
new_node_server node_name =
    if node_name == ""
    then panic
    else elim (new_node_validator node_capabilities volume_capabilities) [
      | ok v ↦ ok (record { node_id = node_name; validator = v })
      | err e ↦ panic
      | panic ↦ panic
    ]

-- `Driver`. A server that is not made stays nil.
pub record Driver : Type 0 where
  pub identity_server : IdentityServer
  pub controller_server : Option ControllerServer
  pub node_server : Option NodeServer
  pub options : DriverOptions

-- What the constructors take from their surroundings: the splitter of the `union.Interface`, the
-- order of a Go map, and the environment.
pub record Setup : Type 0 where
  pub splitter : Splitter
  pub in_order : List PluginCapType → List PluginCapType
  pub node_name : String

module _ (E : Setup) where
  abbrev pub make_controller_server : DriverOptions → Result (Option ControllerServer)
  make_controller_server o =
      next (new_controller_server E.splitter o.default_lower_namespace) λ s. ok (some s)

  abbrev pub make_node_server : Result (Option NodeServer)
  make_node_server = next (new_node_server E.node_name) λ s. ok (some s)

  -- The switch of `NewDriver`.
  unfoldable pub make_servers : DriverOptions → Result (Option ControllerServer × Option NodeServer)
  unfolding new_controller_server new_node_server
  make_servers o =
      if o.mode == mode_all
      then (next (make_controller_server o) λ c. next make_node_server λ n. ok (c, n))
      else if o.mode == mode_controller
      then (next (make_controller_server o) λ c. ok (c, none))
      else if o.mode == mode_node
      then (next make_node_server λ n. ok (none, n))
      else err (errorf mode_unknown)

  unfoldable pub new_driver : List DriverOption → Result Driver
  unfolding make_servers new_identity_server
  new_driver options =
      let o = apply_driver_options default_driver_options options in
      next (new_identity_server E.in_order) λ i. next (make_servers o) λ servers. ok (record {
        identity_server = i;
        controller_server = servers.0;
        node_server = servers.1;
        options = o;
      })

pub data Service : Type 0 where
  identity controller node : Service

unfoldable pub Service-discrete : Discrete Service
Service-discrete = hlevel

instance unfoldable pub service_eq : Eq Service
unfolding Service-discrete
service_eq = record { dec = Service-discrete }

-- The switch of `Run`: what it registers beside the identity service.
unfoldable pub services_of : String → Result (List Service)
services_of mode =
    if mode == mode_all
    then ok (identity ∷ controller ∷ node ∷ [])
    else if mode == mode_controller
    then ok (identity ∷ controller ∷ [])
    else if mode == mode_node
    then ok (identity ∷ node ∷ [])
    else err (errorf mode_unknown)

-- `url.URL`, as far as it is read.
pub record Url : Type 0 where
  pub scheme : String
  pub host : String
  pub path : String

-- What is called of net/url, path/filepath, os, net and google.golang.org/grpc. `serve` runs the
-- server with the services that are registered until it ends.
pub record Network : Type 1 where
  pub World : Type 0
  pub parse_url : String → Option Err × Url
  pub join_path : List String → String
  pub remove : String → World → Option Err × World
  pub is_not_exist : Err → Bool
  pub listen : String → String → World → Option Err × World
  pub serve : List Service → World → Option Err × World

module _ (N : Network) where
  -- The error of `os.Remove` that `parseEndpoint` reports.
  unfoldable pub remove_error : Option Err → Option Err
  remove_error none = none
  remove_error (some e) = if not (N.is_not_exist e) then some (errorf socket_kept) else none

  unfoldable pub remove_socket : String → Act N.World (Unit {0})
  unfolding remove_error
  remove_socket address w = let gone = N.remove address w in (check (remove_error gone.0), gone.1)

  -- `filepath.FromSlash` changes nothing where the separator is a slash.
  unfoldable pub parse_endpoint : String → Act N.World (String × String)
  unfolding to_lower remove_socket
  parse_endpoint endpoint =
      let u = (N.parse_url endpoint).1 in
      let address = N.join_path (u.host ∷ u.path ∷ []) in
      let scheme = to_lower u.scheme in
      elim (N.parse_url endpoint).0 [
        | some e ↦ fail (errorf endpoint_unreadable)
        | none ↦
            if scheme == "tcp"
            then pure (scheme, address)
            else if scheme == "unix"
            then (remove_socket (N.join_path ("/" ∷ address ∷ []))
                >> pure (scheme, N.join_path ("/" ∷ address ∷ [])))
            else fail (errorf protocol_unsupported)
      ]

  -- `Driver.Run`. A listener that is open when the mode turns out to be unknown stays open.
  unfoldable pub run : Driver → Act N.World (Unit {0})
  unfolding parse_endpoint services_of
  run d = do
    at ← parse_endpoint d.options.csi_endpoint
    (λ w. let opened = N.listen at.0 at.1 w in (check opened.0, opened.1))
    services ← lift (services_of d.options.mode)
    (λ w. let ended = N.serve services w in (check ended.0, ended.1))

-- The switch of `GetOptions` on the flag `mode`. None is for the end of the program.
unfoldable pub mode_of_flag : String → Option String
mode_of_flag flag =
    if flag == "all"
    then some mode_all
    else if flag == "controller"
    then some mode_controller
    else if flag == "node"
    then some mode_node
    else none
