-- ===== src/Csi/Driver/Endpoint.antt =====
-- What `parseEndpoint` gives and what it does to the file system.
use union_csi.Base.{
  String, Bool, true, false, none, some, [], ◌∷◌, ◌≡◌, ◌⊎◌, inl, inr, refl, arith, ◌==◌, string_eq,
  Bool-cases, Option-cases, ==_iff,
}
use union_csi.Base.Text.{to_lower}
use union_csi.Csi.Driver.{Network, remove_error, remove_socket, parse_endpoint}
use union_csi.Failure.{Err, Act, ok, after-eq-ok, pure, ◌>>◌}

-- What `os.Remove` promises of the files that are there.
pub record IsRemoving (N : Network) (file : N.World → String → Bool) : Type 0 where
  pub remove_done :
      (p : String) (w : N.World) → (N.remove p w).0 ≡ none → file (N.remove p w).1 p ≡ false
  pub remove_absent :
      (p : String) (w : N.World) (e : Err)
      → (N.remove p w).0 ≡ some e
      → N.is_not_exist e ≡ true
      → file (N.remove p w).1 p ≡ false

module _ (N : Network) (file : N.World → String → Bool) (R : IsRemoving N file) where
  remove_socket_done :
      (p : String) (w : N.World) {u : Unit {0}}
      → (remove_socket N p w).0 ≡ ok u
      → file (remove_socket N p w).1 p ≡ false
  unfolding remove_socket remove_error
  remove_socket_done p w h = elim (Option-cases (N.remove p w).0) [
    | inl done ↦ R.remove_done p w done
    | inr (e, failed) ↦ R.remove_absent p w e failed (ground (arith, failed))
  ]

  -- The path of the endpoint, as the first line of `parseEndpoint` joins it.
  abbrev pub joined : String → String
  joined endpoint = let u = (N.parse_url endpoint).1 in N.join_path (u.host ∷ u.path ∷ [])

  -- The end of the branch for unix.
  abbrev unlinked : String → String → Act N.World (String × String)
  unlinked scheme p = remove_socket N p >> pure (scheme, p)

  unix_done :
      (scheme p : String) (w : N.World) {network address : String}
      → (scheme == "unix") ≡ true
      → (unlinked scheme p w).0 ≡ ok (network, address)
      → (network ≡ "unix") × (address ≡ p) × (file (unlinked scheme p w).1 address ≡ false)
  unix_done scheme p w {network} {address} unix h =
      let (u, removed, ends, same) =
        after-eq-ok (remove_socket N p w).0 (λ _. pure (scheme, p)) _ h in
      let is_p : address ≡ p = ground (arith, ends) in
      (
        ground (arith, ends, (==_iff scheme "unix").0 unix),
        is_p,
        rw is_p (rw same (remove_socket_done p w removed)),
      )

  -- When `parseEndpoint` succeeds, the network is tcp and the address the host and path of the
  -- endpoint, with no file touched; or it is unix and the address that path under the root, where
  -- no file is left.
  pub parse_endpoint_outcome :
      (endpoint : String) (w : N.World) {network address : String}
      → (parse_endpoint N endpoint w).0 ≡ ok (network, address)
      → let w' = (parse_endpoint N endpoint w).1 in
        ((network ≡ "tcp") × (address ≡ joined endpoint) × (w' ≡ w))
        ⊎ ((network ≡ "unix")
            × (address ≡ N.join_path ("/" ∷ joined endpoint ∷ []))
            × (file w' address ≡ false))
  unfolding parse_endpoint
  parse_endpoint_outcome endpoint w {network} {address} h =
      let scheme = to_lower (N.parse_url endpoint).1.scheme in
      elim (Option-cases (N.parse_url endpoint).0) [
        | inr (e, failed) ↦ absurd (ground (arith, failed))
        | inl parsed ↦ elim (Bool-cases (scheme == "tcp")) [
          | inl tcp ↦ inl (
            ground (arith, parsed, tcp),
            ground (arith, parsed, tcp),
            ground (arith, parsed, tcp),
          )
          | inr not_tcp ↦ elim (Bool-cases (scheme == "unix")) [
            | inr not_unix ↦ absurd (ground (arith, parsed, not_tcp, not_unix))
            | inl unix ↦
                let runs : parse_endpoint N endpoint w
                    ≡ unlinked scheme (N.join_path ("/" ∷ joined endpoint ∷ [])) w =
                  rw (parsed, not_tcp, unix, parse_endpoint) refl in
                inr (
                  rw runs (
                    unix_done scheme (N.join_path ("/" ∷ joined endpoint ∷ [])) w unix
                      (rw runs at h)))
          ]
        ]
      ]
