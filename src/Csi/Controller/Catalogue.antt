-- ===== src/Csi/Controller/Catalogue.antt =====
-- What the controller service of pkg/csi/driver/controller_server.go is for its clients: a catalogue
-- of volumes.
pub mod Acceptance
pub mod Represents
pub mod Creation
pub mod Removal
pub mod Refinement
mod Samples
use union_csi.Base.{
  String, ◌<>◌, Bool, true, false, Option, none, some, List, [], ◌∷◌, ◌≡◌, ◌≢◌, ◌==◌, string_eq,
  All, if◌then◌else◌,
}
use union_csi.Base.Int.{pos}
use union_csi.Csi.{ControllerCapType, CreateVolumeRequest, DeleteVolumeRequest, Segments}
use union_csi.Csi.Controller.{ControllerServer, any_block, default_options}
use union_csi.Csi.Controller.Calls.{Response, created, done, serve}
use union_csi.Csi.Controller.Parameters.{IsParameter, with_parameters}
use union_csi.Csi.Controller.Request.{Request}
use union_csi.Csi.Status.{Code, invalid_argument, Reply, replied, status}
use union_csi.Csi.Validation.{FieldLibrary}
use union_csi.Csi.Validation.Requests.{IsCreateRequest}
use union_csi.Csi.Validators.Modes.{Supports}
use union_csi.Kube.Cluster.{Cluster}
use union_csi.Union.Splitter.{make_split_name}

-- The namespace of the lower claims of each volume that there is.
abbrev pub Catalogue : Type 0
Catalogue = String → Option String

abbrev pub put : String → String → Catalogue → Catalogue
put v ns cat u = if u == v then some ns else cat u

abbrev pub drop : String → Catalogue → Catalogue
drop v cat u = if u == v then none else cat u

-- A request to create a volume that can be met.
abbrev pub IsAcceptable : (Segments → Bool) → ControllerServer → CreateVolumeRequest → Type 0
IsAcceptable labels s req =
    IsCreateRequest labels req
    × All (Supports s.validator.volume_validator) req.volume_capabilities
    × (any_block req.volume_capabilities ≡ false)
    × All IsParameter req.parameters

-- The namespace that a request asks for, or the default one.
abbrev pub namespace_of : ControllerServer → CreateVolumeRequest → String
namespace_of s req = (with_parameters req.parameters (default_options s)).lower_namespace

-- The requests that the catalogue has no part in.
abbrev pub IsAside : Request → Type 0
IsAside (Request.create_volume req) = ⊥
IsAside (Request.delete_volume req) = ⊥
IsAside _ = Unit

module _ (labels : Segments → Bool) (s : ControllerServer) where
  -- What may be answered to a request, and the catalogue that there is then. A volume that is there
  -- is not created again, whatever the request.
  pub data Allowed (cat : Catalogue) : Request → Reply Response → Catalogue → Type 0 where
    made :
        {req : CreateVolumeRequest} {r : Reply Response}
        → IsAcceptable labels s req
        → cat req.name ≡ none
        → r ≡ replied (created (record { volume_id = req.name; capacity_bytes = pos 0 }))
        → Allowed cat (Request.create_volume req) r (put req.name (namespace_of s req) cat)
    taken :
        {req : CreateVolumeRequest} {r : Reply Response} {ns : String}
        → IsAcceptable labels s req
        → cat req.name ≡ some ns
        → (c : Code) → r ≡ status c
        → Allowed cat (Request.create_volume req) r cat
    unacceptable :
        {req : CreateVolumeRequest} {r : Reply Response}
        → ¬ IsAcceptable labels s req
        → r ≡ status invalid_argument
        → Allowed cat (Request.create_volume req) r cat
    removed :
        {req : DeleteVolumeRequest} {r : Reply Response}
        → req.volume_id ≢ ""
        → r ≡ replied done
        → Allowed cat (Request.delete_volume req) r (drop req.volume_id cat)
    unnamed :
        {req : DeleteVolumeRequest} {r : Reply Response}
        → req.volume_id ≡ ""
        → r ≡ status invalid_argument
        → Allowed cat (Request.delete_volume req) r cat
    aside : {req : Request} {r : Reply Response} → IsAside req → Allowed cat req r cat

  -- The same for requests that are served one after the other.
  pub data Follows : Catalogue → List Request → List (Reply Response) → Catalogue → Type 0 where
    end : {cat : Catalogue} → Follows cat [] [] cat
    step :
        {req : Request} {r : Reply Response} {cat cat' cat'' : Catalogue} {reqs : List Request}
        {rs : List (Reply Response)}
        → Allowed cat req r cat'
        → Follows cat' reqs rs cat''
        → Follows cat (req ∷ reqs) (r ∷ rs) cat''

module _ (in_order : List ControllerCapType → List ControllerCapType) (K : Cluster)
    (F : FieldLibrary) (s : ControllerServer) where
  -- The requests are served one after the other.
  abbrev pub serve_all : List Request → K.World → List (Reply Response) × K.World
  serve_all [] w = ([], w)
  serve_all (req ∷ reqs) w =
      let first = serve in_order K F s req w in
      let rest = serve_all reqs first.1 in (first.0 ∷ rest.0, rest.1)

-- A name that is not the name of the split of another volume.
abbrev pub IsPlain : String → Type 0
IsPlain v = (u : String) → v ≢ make_split_name u

-- Only volumes with such names are to be created.
abbrev pub AsksPlain : Request → Type 0
AsksPlain (Request.create_volume req) = IsPlain req.name
AsksPlain _ = Unit
