-- ===== src/Union/Pod/Names.antt =====
-- The names of the volumes of the attach pod, under which its container mounts them.
use text.Mathlib.TextLemmas.{append_cancel_left, cons-append}
use Prim.Native.Char.{code}
use union_csi.Base.{
  ℕ, suc, ◌<◌, String, false, List, [], ◌∷◌, ◌++◌, map, ◌≡◌, ◌≢◌, refl, sym, ap, ◌∙◌, arith, ◌==◌,
  ==_iff, string_eq, contains, Bool-cases, inl, inr,
}
use union_csi.Base.Text.{itoa}
use union_csi.Base.Text.Digits.{itoa_inj}
use union_csi.Kube.{PodVolume, VolumeMount, Container}
use union_csi.Union.Pod.{
  Builder, branch_name, add_pvc_loop, add_pvc_volumes_and_volume_mounts,
  add_host_path_volume_and_volume_mount, build,
}
use union_csi.Union.Pod.Mounts.{append-nil_right, append_shift, claims_of, build-claims_of}

-- No text stands twice in the list.
abbrev pub IsDistinct : List String → Type 0
IsDistinct [] = Unit
IsDistinct (x ∷ xs) = (contains xs x ≡ false) × IsDistinct xs

abbrev pub volume_names : List PodVolume → List String
volume_names vs = map (λ v. v.name) vs

abbrev pub mount_names : List VolumeMount → List String
mount_names ms = map (λ m. m.name) ms

-- The names of the branches from an index on.
branch_names : ℕ → List String → List String
branch_names i [] = []
branch_names i (c ∷ cs) = branch_name i ∷ branch_names (suc i) cs

branch_name_inj : (i j : ℕ) → branch_name i ≡ branch_name j → i ≡ j
branch_name_inj i j e = itoa_inj i j (append_cancel_left "branch" (itoa i) (itoa j) e)

-- The code of the first character.
first_code : String → ℕ
first_code String.[] = 0
first_code (String.◌∷◌ c s) = code c

first_code-branch_name : (i : ℕ) → first_code (branch_name i) ≡ b'b'
unfolding first_code
first_code-branch_name i = ap first_code (cons-append "b" "ranch" (itoa i))

branch_name-ne-target : (i : ℕ) → branch_name i ≢ "target"
unfolding first_code
branch_name-ne-target i e = omega (arith, first_code-branch_name i, ap first_code e)

map-append_last :
    {A : Type 0} (f : A → String) (xs : List A) (y : A)
    → map f (xs ++ y ∷ []) ≡ map f xs ++ f y ∷ []
map-append_last f [] y = refl
map-append_last f (x ∷ xs) y = ap (λ ys. f x ∷ ys) (map-append_last f xs y)

mount_names-append_none : (ms : List VolumeMount) → mount_names (ms ++ []) ≡ mount_names ms
mount_names-append_none [] = refl
mount_names-append_none (m ∷ ms) = ap (λ ys. m.name ∷ ys) (mount_names-append_none ms)

-- The loop adds a volume and a mount of the same name for each claim.
add_pvc_loop-names :
    (b : Builder) (i : ℕ) (cs : List String) (vs : List PodVolume) (ms : List VolumeMount)
    → let r = add_pvc_loop b i cs (vs, ms) in
      (volume_names r.0 ≡ volume_names vs ++ branch_names i cs)
      × (mount_names r.1 ≡ mount_names ms ++ branch_names i cs)
unfolding add_pvc_loop branch_names
add_pvc_loop-names b i [] vs ms =
    (sym (append-nil_right (volume_names vs)), sym (append-nil_right (mount_names ms)))
add_pvc_loop-names b i (c ∷ cs) vs ms =
    let (v, m) = add_pvc_loop-names b (suc i) cs _ _ in
    (
      v
          ∙ ap (λ xs. xs ++ branch_names (suc i) cs) (map-append_last (λ x. x.name) vs _)
          ∙ append_shift (volume_names vs) (branch_name i) (branch_names (suc i) cs),
      m
          ∙ ap (λ xs. xs ++ branch_names (suc i) cs) (map-append_last (λ x. x.name) ms _)
          ∙ append_shift (mount_names ms) (branch_name i) (branch_names (suc i) cs),
    )

branch_name-differs : (i j : ℕ) → i < j → (branch_name i == branch_name j) ≡ false
branch_name-differs i j lt = elim (Bool-cases (branch_name i == branch_name j)) [
  | inr off ↦ off
  | inl same ↦
      let e = branch_name_inj i j ((==_iff (branch_name i) (branch_name j)).0 same) in
      absurd (omega (arith, e))
]

target-differs : (i : ℕ) → (branch_name i == "target") ≡ false
target-differs i = elim (Bool-cases (branch_name i == "target")) [
  | inr off ↦ off
  | inl same ↦ absurd (branch_name-ne-target i ((==_iff (branch_name i) "target").0 same))
]

-- An earlier branch is none of the later ones, and not the target.
contains-branch_names :
    (i j : ℕ) (cs : List String)
    → i < j
    → contains (branch_names j cs ++ "target" ∷ []) (branch_name i) ≡ false
unfolding branch_names
contains-branch_names i j [] lt = ground (arith, target-differs i)
contains-branch_names i j (c ∷ cs) lt =
    ground (arith, branch_name-differs i j lt, contains-branch_names i (suc j) cs (omega arith))

branch_names-IsDistinct :
    (i : ℕ) (cs : List String) → IsDistinct (branch_names i cs ++ "target" ∷ [])
unfolding branch_names
branch_names-IsDistinct i [] = (refl, tt)
branch_names-IsDistinct i (c ∷ cs) =
    (contains-branch_names i (suc i) cs (omega arith), branch_names-IsDistinct (suc i) cs)

-- What an attach pod needs to be accepted, and that it has the branches it was asked for.
pub record IsSound (b : Builder) (vs : List PodVolume) (ms : List VolumeMount) : Type 0 where
  pub distinct : IsDistinct (volume_names vs)
  pub mounted : mount_names ms ≡ volume_names vs
  pub claims : claims_of vs ≡ b.claim_names

-- The mounts of all containers.
abbrev pub mounts_of : List Container → List VolumeMount
mounts_of [] = []
mounts_of (c ∷ cs) = c.volume_mounts ++ mounts_of cs

build-names :
    (b : Builder)
    → let p = (build b).spec in
      (volume_names p.volumes ≡ branch_names 0 b.claim_names ++ "target" ∷ [])
      × (mount_names (mounts_of p.containers) ≡ branch_names 0 b.claim_names ++ "target" ∷ [])
unfolding build add_pvc_volumes_and_volume_mounts add_host_path_volume_and_volume_mount
build-names b =
    let (v, m) = add_pvc_loop-names b 0 b.claim_names [] [] in
    (
      map-append_last (λ x. x.name) (add_pvc_loop b 0 b.claim_names ([], [])).0 _
          ∙ ap (λ xs. xs ++ "target" ∷ []) v,
      mount_names-append_none _
          ∙ map-append_last (λ x. x.name) (add_pvc_loop b 0 b.claim_names ([], [])).1 _
          ∙ ap (λ xs. xs ++ "target" ∷ []) m,
    )

-- The volumes of the attach pod have different names, and its container mounts each of them once, in
-- their order. Those that are claims are the claims that the builder was given, in order.
pub build-IsSound :
    (b : Builder) → IsSound b (build b).spec.volumes (mounts_of (build b).spec.containers)
build-IsSound b =
    let (v, m) = build-names b in
    record {
      distinct = rw v (branch_names-IsDistinct 0 b.claim_names);
      mounted = m ∙ sym v;
      claims = build-claims_of b;
    }
