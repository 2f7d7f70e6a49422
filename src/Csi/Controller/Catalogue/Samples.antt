-- ===== src/Csi/Controller/Catalogue/Samples.antt =====
-- A catalogue that begins empty, on a cluster in memory.
use union_csi.Base.{none, List, [], ◌∷◌}
use union_csi.Csi.Controller.Calls.Samples.{creation, deletion}
use union_csi.Csi.Controller.Catalogue.{Catalogue}
use union_csi.Csi.Controller.Catalogue.Represents.{Represents}
use union_csi.Csi.Controller.Request.{Request}

abbrev nothing : Catalogue
nothing v = none

-- The volume is created, asked for again, and deleted twice.
abbrev script : List Request
script = creation ∷ creation ∷ deletion ∷ deletion ∷ []
