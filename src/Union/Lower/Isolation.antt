-- ===== src/Union/Lower/Isolation.antt =====
-- Volumes do not share lower claims, so the deletion of one leaves the claims of the others alone.
use Prim.Native.String.{count}
use text.Mathlib.TextLemmas.{append_cancel_left, append_inj, length-append}
use union_csi.Base.{
  ℕ, zero, suc, ◌<◌, String, ◌<>◌, false, not, some, List, ◌≡◌, ◌≢◌, refl, sym, ap, ==_iff, arith,
  inl, inr, ◌==◌, string_eq, Bool-cases, if◌then◌else◌,
}
use union_csi.Kube.{AccessMode}
use union_csi.Kube.Cluster.{Cluster}
use union_csi.Kube.Cluster.Store.{View, IsSplitStore, IsClaimStore}
use union_csi.Union.{CreateLowerOptions}
use union_csi.Union.Splitter.{Splitter, make_split_name, make_claim_name}
use union_csi.Union.Splits.{new_split}
use union_csi.Union.Lower.{split_spec_of, delete_lower}
use union_csi.Union.Lower.Exact.{delete_lower_exact}
use union_csi.Union.Lower.Liveness.{split_of}

-- Claim names with a digit at the end tell the volumes apart.
lower_name_inj :
    (x y a b : String) → count a ≡ count b → (x <> ("-lower" <> a)) ≡ (y <> ("-lower" <> b)) → x ≡ y
lower_name_inj x y a b same e =
    (append_inj e (
      omega (
        arith,
        same,
        ap count e,
        length-append x ("-lower" <> a),
        length-append y ("-lower" <> b),
        length-append "-lower" a,
        length-append "-lower" b,
      ))).0

-- The name without the splitter's prefix.
bare_name : String → ℕ → String
bare_name v zero = v <> ("-lower" <> "0")
bare_name v (suc i) = v <> ("-lower" <> "1")

bare_name_inj : (v u : String) (i j : ℕ) → bare_name v i ≡ bare_name u j → v ≡ u
unfolding bare_name
bare_name_inj v u zero zero e = lower_name_inj v u "0" "0" refl e
bare_name_inj v u zero (suc j) e = lower_name_inj v u "0" "1" refl e
bare_name_inj v u (suc i) zero e = lower_name_inj v u "1" "0" refl e
bare_name_inj v u (suc i) (suc j) e = lower_name_inj v u "1" "1" refl e

make_claim_name-bare_name :
    (s : Splitter) (v : String) (i : ℕ)
    → i < 2
    → make_claim_name s v i ≡ (
        if not (s.claim_name_prefix == "")
        then s.claim_name_prefix <> ("-" <> bare_name v i)
        else bare_name v i)
unfolding make_claim_name bare_name
make_claim_name-bare_name s v zero h = refl
make_claim_name-bare_name s v (suc zero) h = refl
make_claim_name-bare_name s v (suc (suc i)) h = absurd (omega arith)

pub make_claim_name_inj :
    (s : Splitter) (v u : String) (i j : ℕ)
    → i < 2
    → j < 2
    → make_claim_name s v i ≡ make_claim_name s u j
    → v ≡ u
make_claim_name_inj s v u i j lt_i lt_j e =
    let e' = rw (make_claim_name-bare_name s v i lt_i, make_claim_name-bare_name s u j lt_j) at e in
    bare_name_inj v u i j (elim (Bool-cases (s.claim_name_prefix == "")) [
      | inl bare ↦ rw bare at e'
      | inr prefixed ↦
          append_cancel_left "-" _ _
            (append_cancel_left s.claim_name_prefix _ _ (rw prefixed at e'))
    ])

claim_names_differ :
    (s : Splitter) (v u : String) (i j : ℕ)
    → v ≢ u
    → i < 2
    → j < 2
    → (make_claim_name s u j == make_claim_name s v i) ≡ false
claim_names_differ s v u i j differ lt_i lt_j =
    elim (Bool-cases (make_claim_name s u j == make_claim_name s v i)) [
      | inr other ↦ other
      | inl same ↦ absurd (
          differ (
            make_claim_name_inj s v u i j lt_i lt_j
              (sym ((==_iff (make_claim_name s u j) (make_claim_name s v i)).0 same))))
    ]

module _ (K : Cluster) (V : View K) (S : IsSplitStore K V) (D : IsClaimStore K V) where
  open V use {splits, claims}

  -- Whatever the API answers, `DeleteLower` of a volume whose recorded split `CreateLower` made
  -- leaves every claim that is named for another volume as it was, in every namespace.
  pub delete_lower_isolated :
      (s : Splitter) (v u : String) (o : CreateLowerOptions) (modes : List AccessMode) (w : K.World)
      → v ≢ u
      → splits w (make_split_name v) ≡ some (split_of s v o modes)
      → (ns : String) (j : ℕ) → j < 2
      → claims (delete_lower K v w).1 ns (make_claim_name s u j)
        ≡ claims w ns (make_claim_name s u j)
  unfolding new_split split_spec_of
  delete_lower_isolated s v u o modes w differ recorded ns j lt =
      delete_lower_exact K V S D v w recorded ns (make_claim_name s u j) (
        ground (
          arith,
          claim_names_differ s v u 0 j differ (omega arith) lt,
          claim_names_differ s v u 1 j differ (omega arith) lt,
        ))
