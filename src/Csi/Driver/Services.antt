-- ===== src/Csi/Driver/Services.antt =====
-- Every service that a driver registers has its server.
use union_csi.Base.{
  true, Option, List, [], ◌∷◌, ◌≡◌, refl, subst, arith, ◌==◌, string_eq, contains, is_some,
  Bool-cases, inl, inr,
}
use union_csi.Csi.Controller.{ControllerServer}
use union_csi.Csi.Driver.{
  DriverOptions, DriverOption, NodeServer, Driver, Setup, Service, identity, controller, node,
  service_eq, Service-discrete, mode_all, mode_controller, mode_node, make_servers, new_driver,
  services_of, apply_driver_options, default_driver_options,
}
use union_csi.Csi.Identity.{new_identity_server}
use union_csi.Csi.Validators.{next}
use union_csi.Failure.{Result, ok, err, panic}

-- The services that are registered beside the identity service are those whose server is there.
abbrev pub IsServed : DriverOptions → Option ControllerServer → Option NodeServer → Type 0
IsServed o c n =
    (services : List Service) × (services_of o.mode ≡ ok services)
    × (contains services identity ≡ true)
    × (contains services controller ≡ is_some c)
    × (contains services node ≡ is_some n)

next-eq-ok :
    {A B : Type 0} (r : Result A) (f : A → Result B) {b : B}
    → next r f ≡ ok b
    → (a : A) × (r ≡ ok a) × (f a ≡ ok b)
next-eq-ok (ok a) f h = (a, refl, h)
next-eq-ok (err e) f h = absurd (ground arith)
next-eq-ok panic f h = absurd (ground arith)

module _ (E : Setup) where
  make_servers-IsServed :
      (o : DriverOptions) (c : Option ControllerServer) (n : Option NodeServer)
      → make_servers E o ≡ ok (c, n)
      → IsServed o c n
  unfolding make_servers services_of service_eq Service-discrete
  make_servers-IsServed o c n h = elim (Bool-cases (o.mode == mode_all)) [
    | inl all_ ↦ (
      identity ∷ controller ∷ node ∷ [],
      ground (arith, all_),
      refl,
      ground (arith, all_),
      ground (arith, all_),
    )
    | inr not_all ↦ elim (Bool-cases (o.mode == mode_controller)) [
      | inl c_ ↦ (
        identity ∷ controller ∷ [],
        ground (arith, not_all, c_),
        refl,
        ground (arith, not_all, c_),
        ground (arith, not_all, c_),
      )
      | inr not_c ↦ elim (Bool-cases (o.mode == mode_node)) [
        | inl n_ ↦ (
          identity ∷ node ∷ [],
          ground (arith, not_all, not_c, n_),
          refl,
          ground (arith, not_all, not_c, n_),
          ground (arith, not_all, not_c, n_),
        )
        | inr not_n ↦ absurd (ground (arith, not_all, not_c, not_n))
      ]
    ]
  ]

  -- A driver that was made registers the identity service, the controller service exactly when it
  -- has a controller server, and the node service exactly when it has a node server. So a driver
  -- never registers a server that is nil, and `Run` never finds its mode unknown.
  pub new_driver-IsServed :
      (options : List DriverOption) {d : Driver}
      → new_driver E options ≡ ok d
      → IsServed d.options d.controller_server d.node_server
  unfolding new_driver
  new_driver-IsServed options {d} h =
      let o = apply_driver_options default_driver_options options in
      let (i, made_i, h1) = next-eq-ok (new_identity_server E.in_order) _ h in
      let (servers, made, h2) = next-eq-ok (make_servers E o) _ h1 in
      let built : Driver = record {
        identity_server = i;
        controller_server = servers.0;
        node_server = servers.1;
        options = o;
      } in
      let is_it : built ≡ d = ground (arith, h2) in
      subst (λ x. IsServed x.options x.controller_server x.node_server) is_it
        (make_servers-IsServed o servers.0 servers.1 made)
