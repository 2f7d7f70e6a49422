-- ===== src/Kube/Clientset.antt =====
-- pkg/k8s/client/clientset/clientset.go and the client of the union.io group in
-- pkg/k8s/client/clientset/typed/union/v1alpha1/union_client.go: how clients are made from a
-- configuration.
pub mod Equivalence
mod Samples
use union_csi.Base.{
  String, Bool, true, false, not, ◌&&◌, Option, none, some, ◌==◌, string_eq, if◌then◌else◌, is_some,
}
use union_csi.Base.Int.{ℤ, pos, ltb_ℤ}
use union_csi.Csi.Validators.{next}
use union_csi.Failure.{Err, errorf, burst_required, Result, ok, err, panic}

-- What is called of k8s.io/client-go, with its types. A call answers with a value or an error.
-- `Fields` are the members of a configuration that this code does not name.
pub record ClientGo : Type 1 where
  pub Fields : Type 0
  pub Qps : Type 0
  pub RateLimiter : Type 0
  pub HttpClient : Type 0
  pub RestClient : Type 0
  pub DiscoveryClient : Type 0
  pub default_user_agent : String
  pub positive : Qps → Bool
  pub token_bucket : Qps → ℤ → RateLimiter

module _ (G : ClientGo) where
  -- `rest.Config`. `union_group` says whether GroupVersion, APIPath and NegotiatedSerializer are
  -- set for the group union.io, which they are always together.
  pub record Config : Type 0 where
    pub user_agent : String
    pub rate_limiter : Option G.RateLimiter
    pub qps : G.Qps
    pub burst : ℤ
    pub union_group : Bool
    pub fields : G.Fields

  pub record Constructors : Type 0 where
    pub http_client_for : Config → Result G.HttpClient
    pub rest_client_for : Config → G.HttpClient → Result G.RestClient
    pub discovery_client_for : Config → G.HttpClient → Result G.DiscoveryClient

  -- The default that both clients set.
  abbrev pub with_user_agent : Config → Config
  with_user_agent c =
      if c.user_agent == "" then record c { user_agent = G.default_user_agent } else c

  -- `setConfigDefaults`
  unfoldable pub set_config_defaults : Config → Config
  set_config_defaults c = with_user_agent (record c { union_group = true })

  pub record UnionV1alpha1Client : Type 0 where
    pub rest_client : G.RestClient

  pub record Clientset : Type 0 where
    pub discovery_client : G.DiscoveryClient
    pub union_v1alpha1 : UnionV1alpha1Client

  -- `RESTClient` of a client that may be nil.
  abbrev pub rest_client_of : Option UnionV1alpha1Client → Option G.RestClient
  rest_client_of none = none
  rest_client_of (some c) = some c.rest_client

  module _ (L : Constructors) where
    unfoldable pub union_client_for_config_and_client :
        Config → G.HttpClient → Result UnionV1alpha1Client
    unfolding set_config_defaults
    union_client_for_config_and_client c h =
        next (L.rest_client_for (set_config_defaults c) h) λ r. ok (record { rest_client = r })

    unfoldable pub union_client_for_config : Config → Result UnionV1alpha1Client
    unfolding set_config_defaults union_client_for_config_and_client
    union_client_for_config c =
        let config = set_config_defaults c in
        next (L.http_client_for config) (union_client_for_config_and_client config)

    -- The rate limiter that `NewForConfigAndClient` of the clientset makes where none is set.
    unfoldable pub limited : Config → Result Config
    limited c =
        if not (is_some c.rate_limiter) && G.positive c.qps
        then (if ltb_ℤ (pos 0) c.burst
            then ok (record c { rate_limiter = some (G.token_bucket c.qps c.burst) })
            else err (errorf burst_required))
        else ok c

    unfoldable pub new_for_config_and_client : Config → G.HttpClient → Result Clientset
    unfolding limited union_client_for_config_and_client
    new_for_config_and_client c h = next (limited c) λ config.
        next (union_client_for_config_and_client config h) λ u.
          next (L.discovery_client_for config h)
            λ d. ok (record { discovery_client = d; union_v1alpha1 = u })

    unfoldable pub new_for_config : Config → Result Clientset
    unfolding new_for_config_and_client
    new_for_config c =
        let config = with_user_agent c in
        next (L.http_client_for config) (new_for_config_and_client config)

-- `NewForConfigOrDie`, of a constructor that may fail.
abbrev pub or_die : {A : Type 0} → Result A → Result A
or_die (ok a) = ok a
or_die (err e) = panic
or_die panic = panic
