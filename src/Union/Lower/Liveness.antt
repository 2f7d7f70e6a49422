-- ===== src/Union/Lower/Liveness.antt =====
-- On a cluster that works, `CreateLower` of a new volume and `DeleteLower` of a recorded one succeed.
use union_csi.Base.{
  ℕ, String, Bool, true, false, none, some, List, [], ◌∷◌, ◌≡◌, ◌⊎◌, refl, ap, ◌∙◌, arith, inl, inr,
  ◌==◌, string_eq, Bool-cases, if◌then◌else◌,
}
use union_csi.Failure.{ok, check}
use union_csi.Kube.{VolumeSplit, VolumeSplitSpec, AccessMode, PersistentVolumeClaimSplit}
use union_csi.Kube.Cluster.{Cluster}
use union_csi.Kube.Cluster.Laws.{IsClassifier}
use union_csi.Kube.Cluster.Store.{View, IsSplitStore, IsClaimStore, IsHealthy}
use union_csi.Kube.Cluster.Working.{IsWorking}
use union_csi.Union.{CreateLowerOptions}
use union_csi.Union.AccessModes.{get_access_modes}
use union_csi.Union.Splitter.{Splitter, make_split_name, make_claim_name, empty_split}
use union_csi.Union.Splits.{
  new_split, get_split, volume_splits_get, delete_split, volume_splits_delete,
}
use union_csi.Union.Splits.Parts.{part, make_claim_name-ne}
use union_csi.Union.Lower.{
  split_spec_of, create_lower_from_split, create_lower, delete_lower_claim_from_split,
  delete_lower_loop, delete_lower_from_split, find_split, delete_lower,
}
use union_csi.Union.Lower.Deletion.{Shrinks-trans, delete_lower_loop-Shrinks, find_split-Shrinks}
use union_csi.Union.Lower.Creation.{volume_of}
use union_csi.Union.Lower.Fresh.{
  create_split_new, splits-create_split, claims-create_split, split_posted, create_lower_loop_new,
  claim_made, TwoMade, claim_made-TwoMade,
}

-- The split of a new volume, and its parts.
abbrev pub split_of : Splitter → String → CreateLowerOptions → List AccessMode → VolumeSplit
split_of s v o modes = new_split s (make_split_name v) (split_spec_of v o modes)

abbrev pub part_of :
    Splitter → String → CreateLowerOptions → List AccessMode → ℕ → PersistentVolumeClaimSplit
part_of s v o modes i = part s (split_spec_of v o modes) i

split_of-parts :
    (s : Splitter) (v : String) (o : CreateLowerOptions) (modes : List AccessMode)
    → ((split_of s v o modes).spec.splits ≡ part_of s v o modes 0 ∷ part_of s v o modes 1 ∷ [])
      × ((split_of s v o modes).spec.namespace ≡ o.lower_namespace)
unfolding new_split split_spec_of
split_of-parts s v o modes = (refl, refl)

module _ (K : Cluster) (V : View K) (S : IsSplitStore K V) (D : IsClaimStore K V)
    (C : IsClassifier K) (H : IsHealthy K V) (G : IsWorking K V) where
  open V use {splits, claims}

  module _ (s : Splitter) (v : String) (o : CreateLowerOptions) (w : K.World) where
    -- Nothing of the volume is there: no split, no split under the name with two suffixes, no claim.
    pub record IsNew : Type 0 where
      pub no_split : splits w (make_split_name v) ≡ none
      pub no_twin : splits w (make_split_name (make_split_name v)) ≡ none
      pub no_first : claims w o.lower_namespace (make_claim_name s v 0) ≡ false
      pub no_second : claims w o.lower_namespace (make_claim_name s v 1) ≡ false

    -- What `CreateLower` of a new volume changes.
    pub record IsMade (split : VolumeSplit) (w' : K.World) : Type 0 where
      pub recorded :
          (m : String) → splits w' m ≡ (if m == make_split_name v then some split else splits w m)
      pub first_made : claims w' o.lower_namespace (make_claim_name s v 0) ≡ true
      pub second_made : claims w' o.lower_namespace (make_claim_name s v 1) ≡ true
      pub kept : (ms n : String) → claims w ms n ≡ true → claims w' ms n ≡ true
      pub only :
          (ms n : String)
          → claims w' ms n ≡ true
          → (claims w ms n ≡ true)
            ⊎ ((ms ≡ o.lower_namespace)
                × ((n ≡ make_claim_name s v 0) ⊎ (n ≡ make_claim_name s v 1)))

    module _ (modes : List AccessMode) (known : get_access_modes o.csi_access_modes ≡ ok modes)
        (new : IsNew) where
      open new use {no_split, no_twin, no_first, no_second}

      abbrev spec : VolumeSplitSpec
      spec = split_spec_of v o modes

      abbrev split : VolumeSplit
      split = split_of s v o modes

      abbrev posted : K.World
      posted = split_posted K s v spec w

      abbrev made : K.World
      made = claim_made K split (part s spec 1) (claim_made K split (part s spec 0) posted)

      no_claim :
          (n : String)
          → claims w o.lower_namespace n ≡ false
          → claims posted split.spec.namespace n ≡ false
      unfolding new_split split_spec_of
      no_claim n h = rw (claims-create_split K V S D C H G s v spec w no_split no_twin) h

      claims_run : create_lower_from_split K split posted ≡ (ok tt, made)
      unfolding create_lower_from_split new_split split_spec_of
      claims_run =
          create_lower_loop_new K V S D C H G split (part s spec 0) (part s spec 1) posted
            (make_claim_name-ne s v) (no_claim _ no_first) (no_claim _ no_second)

      create_lower_new_run : create_lower K s v o w ≡ (ok (volume_of split), made)
      unfolding create_lower
      create_lower_new_run =
          rw known
            (rw (create_split_new K V S D C H G s v spec w no_split no_twin) (rw claims_run refl))

      claims_made : TwoMade K V S D C H G split (part s spec 0) (part s spec 1) posted made
      unfolding new_split split_spec_of
      claims_made =
          claim_made-TwoMade K V S D C H G split (part s spec 0) (part s spec 1) posted
            (make_claim_name-ne s v) (no_claim _ no_first) (no_claim _ no_second)

      same_claims : claims posted ≡ claims w
      same_claims = claims-create_split K V S D C H G s v spec w no_split no_twin

      made-IsMade : IsMade split made
      unfolding new_split split_spec_of
      made-IsMade = record {
        recorded = λ m.
            ap (λ f. f m) claims_made.same_splits
            ∙ splits-create_split K V S D C H G s v spec w no_split no_twin m;
        first_made = claims_made.made_a;
        second_made = claims_made.made_b;
        kept = λ ms n h. claims_made.kept ms n (rw same_claims h);
        only = λ ms n h. rw (← same_claims) (claims_made.only ms n h);
      }

      pub create_lower_new :
          ((create_lower K s v o w).0 ≡ ok (volume_of split))
          × IsMade split (create_lower K s v o w).1
      create_lower_new = rw create_lower_new_run (refl, made-IsMade)

  delete_claim_succeeds :
      (split : VolumeSplit) (c : PersistentVolumeClaimSplit) (w : K.World)
      → (b : Bool) × ((delete_lower_claim_from_split K split c w).0 ≡ ok b)
  unfolding delete_lower_claim_from_split
  delete_claim_succeeds split c w = elim (Bool-cases (claims w split.spec.namespace c.claim_name)) [
    | inl there ↦
        (true, ground (arith, G.delete_claim_present split.spec.namespace c.claim_name w there))
    | inr gone ↦
        let (e, failed, missing) = G.delete_claim_absent split.spec.namespace c.claim_name w gone in
        (false, ground (arith, failed, missing))
  ]

  delete_loop_succeeds :
      (split : VolumeSplit) (cs : List PersistentVolumeClaimSplit) (w : K.World)
      → (delete_lower_loop K split cs w).0 ≡ ok tt
  unfolding delete_lower_loop
  delete_loop_succeeds split [] w = refl
  delete_loop_succeeds split (c ∷ cs) w =
      let (b, done) = delete_claim_succeeds split c w in rw done (delete_loop_succeeds split cs _)

  find_split_succeeds :
      (v : String) (w : K.World) {split : VolumeSplit}
      → splits w (make_split_name v) ≡ some split
      → (find_split K v w).0 ≡ ok split
  unfolding find_split get_split volume_splits_get
  find_split_succeeds v w h =
      let fine = H.get_present (make_split_name v) empty_split w h in
      ground (arith, fine, S.get_found (make_split_name v) empty_split w fine)

  delete_split_succeeds :
      (v : String) (w : K.World) {split : VolumeSplit}
      → splits w (make_split_name v) ≡ some split
      → (delete_split K v w).0 ≡ none
  unfolding delete_split volume_splits_delete
  delete_split_succeeds v w h = ground (arith, G.delete_present (make_split_name v) w h)

  -- On a cluster that works, `DeleteLower` of a volume with a recorded split succeeds, whether its
  -- claims are there or not.
  pub delete_lower_succeeds :
      (v : String) (w : K.World) {split : VolumeSplit}
      → splits w (make_split_name v) ≡ some split
      → (delete_lower K v w).0 ≡ ok tt
  unfolding delete_lower delete_lower_from_split
  delete_lower_succeeds v w {split} h =
      let w1 = (find_split K v w).1 in
      let shrunk =
        Shrinks-trans K V (find_split-Shrinks K V S D v w)
          (delete_lower_loop-Shrinks K V S D split split.spec.splits w1) in
      rw (find_split_succeeds v w h) (
        rw (delete_loop_succeeds split split.spec.splits w1)
          (ap check (delete_split_succeeds v _ {split = split} (rw shrunk.same h))))
