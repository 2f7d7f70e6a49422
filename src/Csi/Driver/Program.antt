-- ===== src/Csi/Driver/Program.antt =====
-- cmd/union-csi-driver/main.go: the program, from its flags to the run of the driver.
use union_csi.Base.{
  ℕ, String, Bool, false, not, ◌≡◌, arith, none, some, List, [], ◌∷◌, all, ◌==◌, string_eq,
  if◌then◌else◌,
}
use union_csi.Csi.Driver.{
  Driver, Network, with_mode, with_csi_endpoint, with_default_lower_namespace, new_driver, run,
  mode_of_flag,
}
use union_csi.Csi.Identity.{PluginCapType}
use union_csi.Csi.Validators.{next}
use union_csi.Failure.{Result, ok, err, panic}
use union_csi.Union.Splitter.{Splitter, new_splitter}
use union_csi.Kube.Clientset.{ClientGo, Config, Constructors, new_for_config}

-- The values of the flags, as the flag set parses them.
pub record Flags : Type 0 where
  pub endpoint : String
  pub lower_namespace : String
  pub kubeconfig : String
  pub mode : String
  pub version : Bool

-- What the flags are where the command line does not set them.
abbrev pub default_flags : Flags
default_flags = record {
  endpoint = "unix:///tmp/csi.sock";
  lower_namespace = "union";
  kubeconfig = "";
  mode = "all";
  version = false;
}

pub record Options : Type 0 where
  pub mode : String
  pub csi_endpoint : String
  pub default_lower_namespace : String
  pub kubeconfig : String

-- What `GetOptions` comes to: options, or the end of the program with a status.
pub data Chosen : Type 0 where
  options : Options → Chosen
  exits : ℕ → Chosen

unfoldable pub get_options : Flags → Chosen
unfolding mode_of_flag
get_options f = if f.version then exits 0 else elim (mode_of_flag f.mode) [
  | none ↦ exits 1
  | some mode ↦ options (record {
    mode = mode;
    csi_endpoint = f.endpoint;
    default_lower_namespace = f.lower_namespace;
    kubeconfig = f.kubeconfig;
  })
]

-- How the program ends: `main` returns, it exits with a status, `klog.Fatalf` ends it, or it panics.
pub data Outcome : Type 0 where
  returned : Outcome
  exited : ℕ → Outcome
  fatal : Outcome
  panicked : Outcome

abbrev pub outcome_of : Result (Unit {0}) → Outcome
outcome_of (ok u) = returned
outcome_of (err e) = fatal
outcome_of panic = panicked

-- `union.New`, as far as the splitter goes: it has no option.
unfoldable pub union_splitter : Splitter
unfolding new_splitter
union_splitter = new_splitter []

-- `node_name` is the environment variable, and `in_order` the order of a Go map.
module _ (node_name : String) (in_order : List PluginCapType → List PluginCapType) (N : Network)
    (G : ClientGo) (L : Constructors G) where
  -- What `main` calls of client-go besides the constructors of the clientset. `caches_synced` is
  -- what the informers report when they were waited for.
  pub record Informed : Type 0 where
    pub build_config : String → Result (Config G)
    pub in_cluster_config : Result (Config G)
    pub kube_client_for : Config G → Result (Unit {0})
    pub caches_synced : List Bool

  module _ (I : Informed) where
    abbrev pub config_of : Options → Result (Config G)
    config_of o =
        if not (o.kubeconfig == "") then I.build_config o.kubeconfig else I.in_cluster_config

    -- `main` up to the driver.
    unfoldable pub make_driver : Options → Result Driver
    unfolding new_for_config new_driver union_splitter
    make_driver o = next (config_of o) λ config. next (I.kube_client_for config) λ _.
        next (new_for_config G L config) λ _.
          new_driver
            (record { splitter = union_splitter; in_order = in_order; node_name = node_name })
            (with_mode o.mode
              ∷ with_csi_endpoint o.csi_endpoint
              ∷ with_default_lower_namespace o.default_lower_namespace
              ∷ [])

    -- `main` from the caches on.
    unfoldable pub run_driver : Driver → N.World → Outcome × N.World
    unfolding run
    run_driver d w =
        if all (λ synced. synced) I.caches_synced
        then (let ran = run N d w in (outcome_of ran.0, ran.1))
        else (fatal, w)

    unfoldable pub main : Flags → N.World → Outcome × N.World
    unfolding get_options make_driver run_driver
    main f w = elim (get_options f) [
      | exits status ↦ (exited status, w)
      | options o ↦ elim (make_driver o) [
        | ok d ↦ run_driver d w
        | err e ↦ (fatal, w)
        | panic ↦ (panicked, w)
      ]
    ]

    -- A mode that is none of the three ends the program before it touches anything.
    pub main_refused :
        (f : Flags) (w : N.World)
        → f.version ≡ false
        → mode_of_flag f.mode ≡ none
        → main f w ≡ (exited 1, w)
    unfolding main get_options
    main_refused f w asked unknown = ground (arith, asked, unknown)
