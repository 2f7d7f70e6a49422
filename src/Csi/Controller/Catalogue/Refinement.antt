-- ===== src/Csi/Controller/Catalogue/Refinement.antt =====
-- The controller service keeps a catalogue of volumes: on a cluster that works, whatever requests are
-- served one after the other, what it answers and what it leaves is what the catalogue allows.
use union_csi.Base.{String, Bool, List, ◌≡◌, string_eq}
use union_csi.Csi.{mode_eq, ControllerCapType, Segments}
use union_csi.Csi.Controller.{ControllerServer, new_controller_server}
use union_csi.Csi.Controller.Calls.{serve}
use union_csi.Csi.Controller.Catalogue.{Catalogue, Allowed}
use union_csi.Csi.Controller.Catalogue.Represents.{Represents}
use union_csi.Csi.Controller.Request.{Request}
use union_csi.Csi.Validation.{FieldLibrary}
use union_csi.Csi.Validation.Requests.{IsFieldLibrary}
use union_csi.Failure.{ok}
use union_csi.Kube.Cluster.{Cluster}
use union_csi.Kube.Cluster.Apart.{IsApart}
use union_csi.Kube.Cluster.Laws.{IsClassifier}
use union_csi.Kube.Cluster.Store.{View, IsSplitStore, IsClaimStore, IsHealthy}
use union_csi.Kube.Cluster.Working.{IsWorking}
use union_csi.Union.Splitter.{Splitter}

module _ (in_order : List ControllerCapType → List ControllerCapType) (K : Cluster) (V : View K)
    (S : IsSplitStore K V) (D : IsClaimStore K V) (C : IsClassifier K) (H : IsHealthy K V)
    (G : IsWorking K V) (A : IsApart K V) (F : FieldLibrary) (labels : Segments → Bool)
    (L : IsFieldLibrary F labels) (splitter : Splitter) (ns : String) {s : ControllerServer}
    (built : new_controller_server splitter ns ≡ ok s) where
  -- What one request leaves is allowed.
  abbrev Refines : Catalogue → Request → K.World → Type 0
  Refines cat req w =
      (cat' : Catalogue) × Allowed labels s cat req (serve in_order K F s req w).0 cat'
      × Represents K V s.splitter cat' (serve in_order K F s req w).1
