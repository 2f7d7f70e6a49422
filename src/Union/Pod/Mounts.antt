-- ===== src/Union/Pod/Mounts.antt =====
-- What the attach pod mounts.
use union_csi.Base.{ℕ, suc, String, List, [], ◌∷◌, ◌++◌, ◌≡◌, refl, sym, ap, ◌∙◌}
use union_csi.Kube.{PodVolume, persistent_volume_claim, host_path, VolumeMount}
use union_csi.Union.Pod.{
  Builder, add_pvc_loop, add_pvc_volumes_and_volume_mounts, add_host_path_volume_and_volume_mount,
  build,
}

-- The claims among the volumes of a pod.
abbrev pub claims_of : List PodVolume → List String
claims_of [] = []
claims_of (v ∷ vs) = elim v.source [
  | persistent_volume_claim c ↦ c ∷ claims_of vs
  | host_path p t ↦ claims_of vs
]

pub append-nil_right : (xs : List String) → (xs ++ []) ≡ xs
append-nil_right [] = refl
append-nil_right (x ∷ xs) = ap (λ ys. x ∷ ys) (append-nil_right xs)

pub append_shift :
    (xs : List String) (y : String) (zs : List String) → ((xs ++ y ∷ []) ++ zs) ≡ xs ++ y ∷ zs
append_shift [] y zs = refl
append_shift (x ∷ xs) y zs = ap (λ ys. x ∷ ys) (append_shift xs y zs)

claims_of_claim :
    (vs : List PodVolume) (n c : String)
    → claims_of (vs ++ record { name = n; source = persistent_volume_claim c } ∷ [])
      ≡ claims_of vs ++ c ∷ []
claims_of_claim [] n c = refl
claims_of_claim (v ∷ vs) n c =
    elim v.source
      as (λ s.
        claims_of (
          record { name = v.name; source = s }
          ∷ (vs ++ record { name = n; source = persistent_volume_claim c } ∷ []))
        ≡ claims_of (record { name = v.name; source = s } ∷ vs) ++ c ∷ []) [
          | persistent_volume_claim d ↦ ap (λ ys. d ∷ ys) (claims_of_claim vs n c)
          | host_path p t ↦ claims_of_claim vs n c
        ]

claims_of_path :
    (vs : List PodVolume) (n p t : String)
    → claims_of (vs ++ record { name = n; source = host_path p t } ∷ []) ≡ claims_of vs
claims_of_path [] n p t = refl
claims_of_path (v ∷ vs) n p t =
    elim v.source
      as (λ s.
        claims_of (
          record { name = v.name; source = s }
          ∷ (vs ++ record { name = n; source = host_path p t } ∷ []))
        ≡ claims_of (record { name = v.name; source = s } ∷ vs)) [
          | persistent_volume_claim d ↦ ap (λ ys. d ∷ ys) (claims_of_path vs n p t)
          | host_path q u ↦ claims_of_path vs n p t
        ]

add_pvc_loop-claims_of :
    (b : Builder) (i : ℕ) (cs : List String) (vs : List PodVolume) (ms : List VolumeMount)
    → claims_of (add_pvc_loop b i cs (vs, ms)).0 ≡ claims_of vs ++ cs
unfolding add_pvc_loop
add_pvc_loop-claims_of b i [] vs ms = sym (append-nil_right (claims_of vs))
add_pvc_loop-claims_of b i (c ∷ cs) vs ms =
    add_pvc_loop-claims_of b (suc i) cs _ _
    ∙ ap (λ xs. xs ++ cs) (claims_of_claim vs _ c)
    ∙ append_shift (claims_of vs) c cs

-- The volumes of the attach pod that are claims are the claims that its builder was given, in order.
pub build-claims_of : (b : Builder) → claims_of (build b).spec.volumes ≡ b.claim_names
unfolding build add_pvc_volumes_and_volume_mounts add_host_path_volume_and_volume_mount
build-claims_of b =
    claims_of_path (add_pvc_loop b 0 b.claim_names ([], [])).0 "target" b.host_path
      "DirectoryOrCreate"
    ∙ add_pvc_loop-claims_of b 0 b.claim_names [] []
