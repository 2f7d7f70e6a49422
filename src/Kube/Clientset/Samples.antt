-- ===== src/Kube/Clientset/Samples.antt =====
-- Clients that are their user agents.
use union_csi.Base.{ℕ, String, true, false, none, ◌≡◌, refl, string_eq}
use union_csi.Base.Int.{pos}
use union_csi.Failure.{ok}
use union_csi.Kube.Clientset.{
  ClientGo, Config, Constructors, set_config_defaults, limited, new_for_config_and_client,
  union_client_for_config_and_client, new_for_config,
}

abbrev agents : ClientGo
agents = record {
  Fields = Unit;
  Qps = ℕ;
  RateLimiter = ℕ;
  HttpClient = String;
  RestClient = String;
  DiscoveryClient = Unit;
  default_user_agent = "kubernetes";
  positive = λ q. true;
  token_bucket = λ q b. q;
}

abbrev agent_clients : Constructors agents
agent_clients = record {
  http_client_for = λ c. ok c.user_agent;
  rest_client_for = λ c h. ok h;
  discovery_client_for = λ c h. ok tt;
}

abbrev plain : Config agents
plain = record {
  user_agent = "";
  rate_limiter = none;
  qps = 5;
  burst = pos 10;
  union_group = false;
  fields = tt;
}

-- The HTTP client has the default user agent.
agent_set :
    new_for_config agents agent_clients plain
    ≡ ok (record { discovery_client = tt; union_v1alpha1 = record { rest_client = "kubernetes" } })
unfolding new_for_config new_for_config_and_client union_client_for_config_and_client limited
    set_config_defaults string_eq
agent_set = refl
