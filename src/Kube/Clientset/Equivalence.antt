-- ===== src/Kube/Clientset/Equivalence.antt =====
-- What the comments on `NewForConfig` say of it.
use union_csi.Base.{◌≡◌, refl, ap, ◌∙◌, arith, string_eq}
use union_csi.Csi.Validators.{next}
use union_csi.Failure.{Result, ok, err, panic}
use union_csi.Kube.Clientset.{
  ClientGo, Config, Constructors, Clientset, with_user_agent, set_config_defaults,
  union_client_for_config_and_client, union_client_for_config, limited, new_for_config_and_client,
  new_for_config,
}

module _ (G : ClientGo) where
  set_config_defaults_again :
      (c : Config G) → set_config_defaults G (set_config_defaults G c) ≡ set_config_defaults G c
  unfolding set_config_defaults
  set_config_defaults_again c = ground arith

  set_config_defaults-with_user_agent :
      (c : Config G) → set_config_defaults G (with_user_agent G c) ≡ set_config_defaults G c
  unfolding set_config_defaults
  set_config_defaults-with_user_agent c = ground arith

next-ext :
    {A B : Type 0} (r : Result A) (f g : A → Result B) → ((a : A) → f a ≡ g a) → next r f ≡ next r g
next-ext (ok a) f g same = same a
next-ext (err e) f g same = refl
next-ext panic f g same = refl

next-next_ok :
    {A B : Type 0} (r : Result A) (k : A → A) (f : A → Result B)
    → next (next r (λ a. ok (k a))) f ≡ next r (λ a. f (k a))
next-next_ok (ok a) k f = refl
next-next_ok (err e) k f = refl
next-next_ok panic k f = refl

module _ (G : ClientGo) (L : Constructors G) where
  limited-with_user_agent :
      (c : Config G)
      → limited G L (with_user_agent G c) ≡ next (limited G L c) (λ d. ok (with_user_agent G d))
  unfolding limited
  limited-with_user_agent c = ground arith

  union_client-with_user_agent :
      (c : Config G) (h : G.HttpClient)
      → union_client_for_config_and_client G L (with_user_agent G c) h
        ≡ union_client_for_config_and_client G L c h
  unfolding union_client_for_config_and_client
  union_client-with_user_agent c h = rw (set_config_defaults-with_user_agent G c) refl

  -- What `NewForConfigAndClient` of the clientset does once the rate limiter is settled.
  abbrev clients : G.HttpClient → Config G → Result (Clientset G)
  clients h config = next (union_client_for_config_and_client G L config h) λ u.
      next (L.discovery_client_for config h)
        λ d. ok (record { discovery_client = d; union_v1alpha1 = u })

  module _
      (own_default : (c : Config G) (h : G.HttpClient)
        → L.discovery_client_for (with_user_agent G c) h ≡ L.discovery_client_for c h) where
    clients-with_user_agent :
        (h : G.HttpClient) (c : Config G) → clients h (with_user_agent G c) ≡ clients h c
    clients-with_user_agent h c = rw (union_client-with_user_agent c h) (rw (own_default c h) refl)

    new_for_config_and_client-with_user_agent :
        (c : Config G) (h : G.HttpClient)
        → new_for_config_and_client G L (with_user_agent G c) h ≡ new_for_config_and_client G L c h
    unfolding new_for_config_and_client
    new_for_config_and_client-with_user_agent c h =
        ap (λ r. next r (clients h)) (limited-with_user_agent c)
        ∙ next-next_ok (limited G L c) (with_user_agent G) (clients h)
        ∙ next-ext (limited G L c) _ _ (clients-with_user_agent h)

    -- If the discovery client comes out the same whether the default user agent is set before it
    -- is made or not, the clientset is made as NewForConfigAndClient makes it from the same
    -- configuration and the HTTP client for that configuration with the default user agent. The
    -- client of the group is made as NewForConfigAndClient makes it from the same configuration and
    -- the HTTP client for that configuration with all its defaults.
    pub new_for_config-eq :
        (c : Config G)
        → (new_for_config G L c
            ≡ next (L.http_client_for (with_user_agent G c)) (new_for_config_and_client G L c))
          × (union_client_for_config G L c
              ≡ next
                  (L.http_client_for (set_config_defaults G c))
                  (union_client_for_config_and_client G L c))
    unfolding new_for_config union_client_for_config union_client_for_config_and_client
    new_for_config-eq c = (
      next-ext (L.http_client_for (with_user_agent G c)) _ _
          (new_for_config_and_client-with_user_agent c),
      next-ext (L.http_client_for (set_config_defaults G c)) _ _
          (λ h. rw (set_config_defaults_again G c) refl),
    )
