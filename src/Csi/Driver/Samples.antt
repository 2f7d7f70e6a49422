-- ===== src/Csi/Driver/Samples.antt =====
-- A driver for all services, and an endpoint on a file system with one socket.
use union_csi.Base.{
  String, Bool, true, false, none, some, List, [], ◌∷◌, ◌≡◌, ◌⊎◌, refl, arith, string_eq,
  if◌then◌else◌,
}
use union_csi.Base.Text.{to_lower}
use union_csi.Csi.{
  mode_eq, Mode-discrete, controller_cap_type_eq, ControllerCapType-discrete, node_cap_type_eq,
  NodeCapType-discrete,
}
use union_csi.Csi.Controller.{new_controller_server}
use union_csi.Csi.Driver.{
  Driver, Setup, Network, DriverOption, with_mode, with_csi_endpoint, mode_node, new_node_server,
  make_servers, new_driver, parse_endpoint, remove_socket, remove_error, mode_of_flag, mode_all,
}
use union_csi.Csi.Driver.Program.{default_flags, get_options, options}
use union_csi.Csi.Driver.Services.{IsServed, new_driver-IsServed}
use union_csi.Csi.Driver.Endpoint.{IsRemoving, joined, parse_endpoint_outcome}
use union_csi.Csi.Identity.{
  plugin_cap_type_eq, PluginCapType-discrete, new_identity_validator, new_identity_server,
}
use union_csi.Csi.Validators.{
  check_caps, new_volume_validator, new_controller_validator, new_node_validator,
}
use union_csi.Failure.{foreign, Result, ok, err, panic}

abbrev setup : Setup
setup = record {
  splitter = record { claim_name_prefix = "" };
  in_order = λ types. types;
  node_name = "n1";
}

abbrev made_driver : Result Driver → Driver → Driver
made_driver (ok d) other = d
made_driver (err e) other = other
made_driver panic other = other

abbrev for_nodes : List DriverOption
for_nodes = with_mode mode_node ∷ with_csi_endpoint "unix:///csi/csi.sock" ∷ []

abbrev no_driver : Driver
no_driver = record {
  identity_server = record { validator = record { plugin_cap_types_set = []; plugin_caps = [] } };
  controller_server = none;
  node_server = none;
  options = record { mode = ""; csi_endpoint = ""; default_lower_namespace = "" };
}

abbrev node_driver : Driver
node_driver = made_driver (new_driver setup for_nodes) no_driver

node_driver_made : new_driver setup for_nodes ≡ ok node_driver
unfolding new_driver make_servers new_node_server new_identity_server new_identity_validator
    new_controller_server new_controller_validator new_node_validator new_volume_validator
    check_caps with_mode with_csi_endpoint string_eq mode_eq Mode-discrete plugin_cap_type_eq
    PluginCapType-discrete controller_cap_type_eq ControllerCapType-discrete node_cap_type_eq
    NodeCapType-discrete
node_driver_made = refl

new_driver-IsServed_example :
    IsServed node_driver.options node_driver.controller_server node_driver.node_server
new_driver-IsServed_example = new_driver-IsServed setup for_nodes node_driver_made

-- A file system where one socket may lie, and endpoints that are all "unix:///csi/csi.sock".
abbrev socket : Network
socket = record {
  World = Bool;
  parse_url = λ s. (none, record { scheme = "unix"; host = ""; path = "/csi/csi.sock" });
  join_path = λ parts. "/csi/csi.sock";
  remove = λ p w. if w then (none, false) else (some (foreign "no such file"), false);
  is_not_exist = λ e. true;
  listen = λ n a w. (none, true);
  serve = λ services w. (none, w);
}

socket-IsRemoving : IsRemoving socket (λ w p. w)
socket-IsRemoving = record {
  remove_done = λ p w h. ground arith;
  remove_absent = λ p w e h k. ground arith;
}

socket_parsed : (parse_endpoint socket "unix:///csi/csi.sock" true).0 ≡ ok ("unix", "/csi/csi.sock")
unfolding parse_endpoint remove_socket remove_error to_lower string_eq
socket_parsed = refl

parse_endpoint_outcome_example :
    let w' = (parse_endpoint socket "unix:///csi/csi.sock" true).1 in
    ((◌≡◌ {A = String} "unix" "tcp")
      × (◌≡◌ {A = String} "/csi/csi.sock"
          (joined socket (λ w p. w) socket-IsRemoving "unix:///csi/csi.sock"))
      × (w' ≡ true))
    ⊎ ((◌≡◌ {A = String} "unix" "unix")
        × (◌≡◌ {A = String} "/csi/csi.sock" (
            socket.join_path
              ("/" ∷ joined socket (λ w p. w) socket-IsRemoving "unix:///csi/csi.sock" ∷ [])))
        × (w' ≡ false))
parse_endpoint_outcome_example =
    parse_endpoint_outcome socket (λ w p. w) socket-IsRemoving "unix:///csi/csi.sock" true
      socket_parsed

-- The command line without flags asks for all services at the default endpoint.
no_flags :
    get_options default_flags
    ≡ options (record {
      mode = mode_all;
      csi_endpoint = "unix:///tmp/csi.sock";
      default_lower_namespace = "union";
      kubeconfig = "";
    })
unfolding get_options mode_of_flag string_eq
no_flags = refl
