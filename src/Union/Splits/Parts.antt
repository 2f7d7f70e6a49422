-- ===== src/Union/Splits/Parts.antt =====
-- The two parts into which a new split divides the capacity of a volume.
use text.Mathlib.TextEquality.{eq_iff}
use text.Mathlib.TextLemmas.{append_cancel_left}
use union_csi.Base.{
  ℕ, ◌+◌, ◌/◌, ◌%◌, String, ◌<>◌, [], ◌∷◌, ◌≡◌, refl, ◌≢◌, Bool-cases, inl, inr, ==_refl, string_eq,
  ◌==◌, not, arith, if◌then◌else◌,
}
use union_csi.Base.Int.{pos, half}
use union_csi.Kube.{quantity_of, resource_storage, VolumeSplitSpec, PersistentVolumeClaimSplit}
use union_csi.Union.Splitter.{Splitter, make_claim_name}
use union_csi.Union.Splitter.Compatible.{storage}
use union_csi.Union.Splits.{new_split}

zero≢one : ◌≢◌ {A = String} "0" "1"
zero≢one = ground (arith, eq_iff "0" "1")

lower_names : (name : String) → (name <> ("-lower" <> "0")) ≢ (name <> ("-lower" <> "1"))
lower_names name e = zero≢one (append_cancel_left "-lower" "0" "1" (append_cancel_left name _ _ e))

pub make_claim_name-ne :
    (s : Splitter) (name : String) → make_claim_name s name 0 ≢ make_claim_name s name 1
unfolding make_claim_name
make_claim_name-ne s name e = elim (Bool-cases (s.claim_name_prefix == "")) [
  | inl bare ↦ lower_names name (rw (bare, make_claim_name) at e)
  | inr prefixed ↦ lower_names name (
      append_cancel_left "-" _ _
        (append_cancel_left s.claim_name_prefix _ _ (rw (prefixed, make_claim_name) at e)))
]

-- The bytes that a claim asks for.
abbrev pub requested : PersistentVolumeClaimSplit → ℕ
requested c = union_csi.Base.Int.pos_part (quantity_of c.resources.requests resource_storage).value

-- The part at an index.
abbrev pub part : Splitter → VolumeSplitSpec → ℕ → PersistentVolumeClaimSplit
part s spec i = record {
  claim_name = make_claim_name s spec.volume_name i;
  resources = record {
    requests =
        (
          resource_storage,
          record {
            value = half (storage spec);
            format = (quantity_of spec.capacity_total resource_storage).format;
          },
        )
        ∷ [];
  };
}

requested-part :
    (s : Splitter) (spec : VolumeSplitSpec) (i c : ℕ)
    → storage spec ≡ pos c
    → requested (part s spec i) ≡ c / 2
unfolding quantity_of
requested-part s spec i c size = rw size (ground (arith, ==_refl resource_storage))

-- A split made for a specification with no parts and a capacity of c bytes has two parts. Their
-- claims have different names, and each asks for half the capacity, so that what is lost is the
-- last byte of an odd one.
pub new_split_parts :
    (s : Splitter) (split_name : String) (spec : VolumeSplitSpec) (c : ℕ)
    → storage spec ≡ pos c
    → spec.splits ≡ []
    → (a : PersistentVolumeClaimSplit) × (b : PersistentVolumeClaimSplit) × ((new_split s split_name
          spec).spec.splits
        ≡ a ∷ b ∷ [])
      × (a.claim_name ≢ b.claim_name)
      × (requested a ≡ requested b)
      × (requested a + requested b + c % 2 ≡ c)
unfolding new_split
new_split_parts s split_name spec c size empty = (
  part s spec 0,
  part s spec 1,
  rw empty,
  make_claim_name-ne s spec.volume_name,
  refl,
  omega (arith, requested-part s spec 0 c size, requested-part s spec 1 c size),
)
