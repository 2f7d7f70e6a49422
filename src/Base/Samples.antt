-- ===== src/Base/Samples.antt =====
-- Runs of the string functions.
use union_csi.Base.Equality.{string_eq}
use union_csi.Base.Text.{to_lower, itoa, join_path, contains_text}
use mathlib.Core.Path.{◌≡◌, refl}
use mathlib.Core.Bool.{true}
use mathlib.Core.List.{[], ◌∷◌}

lower_cased : to_lower "csi.Storage.K8s.io/PVC/name" ≡ "csi.storage.k8s.io/pvc/name"
unfolding to_lower
lower_cased = refl

numbered : itoa 1024 ≡ "1024"
unfolding itoa
numbered = refl

joined : join_path ("/var//lib" ∷ "" ∷ "../a/./b" ∷ "merged" ∷ []) ≡ "/var/a/b/merged"
unfolding join_path string_eq
joined = refl

escaped : join_path ("/volume" ∷ "../../x" ∷ []) ≡ "/x"
unfolding join_path string_eq
escaped = refl

contained : contains_text "umount: /a: not mounted." "not mounted" ≡ true
contained = refl
