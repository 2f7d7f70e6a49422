-- ===== src/Csi/Controller/Catalogue/Creation.antt =====
-- The creation of a volume that the catalogue does not have, and of one that it has.
use union_csi.Base.{
  ℕ, zero, suc, ◌<◌, String, true, false, none, some, List, ◌≡◌, refl, ap, ◌∙◌, arith, ◌==◌, ==_iff,
  ==_refl, string_eq, Bool-cases, inl, inr,
}
use union_csi.Csi.Controller.Catalogue.{Catalogue, put, IsPlain}
use union_csi.Csi.Controller.Catalogue.Represents.{
  make_split_name-ne, IsRecorded, IsPart, Represents, Represents-move, split_name_absent,
}
use union_csi.Failure.{Err, ok, err}
use union_csi.Kube.{AccessMode}
use union_csi.Kube.Cluster.{Cluster}
use union_csi.Kube.Cluster.Laws.{IsClassifier}
use union_csi.Kube.Cluster.Store.{View, IsSplitStore, IsClaimStore, IsHealthy}
use union_csi.Kube.Cluster.Working.{IsWorking}
use union_csi.Union.{CreateLowerOptions}
use union_csi.Union.AccessModes.{get_access_modes}
use union_csi.Union.Lower.{split_spec_of, create_lower}
use union_csi.Union.Lower.Creation.{volume_of}
use union_csi.Union.Lower.Isolation.{make_claim_name_inj}
use union_csi.Union.Lower.Liveness.{split_of, IsNew, IsMade, create_lower_new}
use union_csi.Union.Splits.{create_split}
use union_csi.Union.Splits.Create.{create_split_again, create_split_again-splits}
use union_csi.Union.Splits.Keeps.{create_split-Grows}
use union_csi.Union.Splitter.{Splitter, make_split_name, make_claim_name}

module _ (K : Cluster) (V : View K) (S : IsSplitStore K V) (D : IsClaimStore K V)
    (C : IsClassifier K) (H : IsHealthy K V) (G : IsWorking K V) (s : Splitter) where
  open V use {splits, claims}

  module _ (cat : Catalogue) (w : K.World) (h : Represents K V s cat w) (v : String)
      (o : CreateLowerOptions) (modes : List AccessMode)
      (known : get_access_modes o.csi_access_modes ≡ ok modes) where
    -- No volume of the catalogue has a claim with the name of a new one.
    no_claim :
        cat v ≡ none → (i : ℕ) → i < 2 → claims w o.lower_namespace (make_claim_name s v i) ≡ false
    no_claim new i lt = elim (Bool-cases (claims w o.lower_namespace (make_claim_name s v i))) [
      | inr off ↦ off
      | inl on ↦
          let p = h.only o.lower_namespace (make_claim_name s v i) on in
          let same = make_claim_name_inj s v p.volume i p.index lt p.in_range p.named in
          absurd (ground (arith, ap cat same, p.known))
    ]

    is_new : cat v ≡ none → IsNew K V S D C H G s v o w
    is_new new = record {
      no_split = h.absent v new;
      no_twin = h.absent (make_split_name v) (split_name_absent K V s cat w v h);
      no_first = no_claim new 0 (omega arith);
      no_second = no_claim new 1 (omega arith);
    }

    abbrev pub made_world : K.World
    made_world = (create_lower K s v o w).1

    is_made : cat v ≡ none → IsMade K V S D C H G s v o w (split_of s v o modes) made_world
    is_made new = (create_lower_new K V S D C H G s v o w modes known (is_new new)).1

    split_other :
        cat v ≡ none
        → (u : String) → (u == v) ≡ false
        → splits made_world (make_split_name u) ≡ splits w (make_split_name u)
    split_other new u other =
        ground (arith, (is_made new).recorded (make_split_name u), make_split_name-ne v u other)

    put-recorded :
        cat v ≡ none
        → (u ns : String) → put v o.lower_namespace cat u ≡ some ns
        → IsRecorded K V s u ns made_world
    put-recorded new u ns k = elim (Bool-cases (u == v)) [
      | inl same ↦
          let e = (==_iff u v).0 same in
          record {
            options = o;
            modes = modes;
            recorded = rw e (
                ground
                  (arith, (is_made new).recorded (make_split_name v), ==_refl (make_split_name v)));
            in_namespace = ground arith;
          }
      | inr other ↦
          let r = h.recorded u ns (ground arith) in
          record {
            options = r.options;
            modes = r.modes;
            recorded = split_other new u other ∙ r.recorded;
            in_namespace = r.in_namespace;
          }
    ]

    made_claim :
        cat v ≡ none
        → (i : ℕ) → i < 2
        → claims made_world o.lower_namespace (make_claim_name s v i) ≡ true
    made_claim new zero lt = (is_made new).first_made
    made_claim new (suc zero) lt = (is_made new).second_made
    made_claim new (suc (suc i)) lt = absurd (omega arith)

    put-stored :
        cat v ≡ none
        → (u ns : String) → put v o.lower_namespace cat u ≡ some ns
        → (i : ℕ) → i < 2
        → claims made_world ns (make_claim_name s u i) ≡ true
    put-stored new u ns k i lt = elim (Bool-cases (u == v)) [
      | inl same ↦
          let e = (==_iff u v).0 same in
          let e' : ns ≡ o.lower_namespace = ground arith in rw (e, e') (made_claim new i lt)
      | inr other ↦ (is_made new).kept ns _ (h.stored u ns (ground arith) i lt)
    ]

    -- What the catalogue had it still has.
    put-known :
        cat v ≡ none → (u ns : String) → cat u ≡ some ns → put v o.lower_namespace cat u ≡ some ns
    put-known new u ns k = elim (Bool-cases (u == v)) [
      | inl same ↦ absurd (ground (arith, ap cat ((==_iff u v).0 same)))
      | inr other ↦ ground arith
    ]

    put-only :
        cat v ≡ none
        → (ns n : String) → claims made_world ns n ≡ true
        → IsPart K V s (put v o.lower_namespace cat) ns n
    put-only new ns n on =
        let known_now : put v o.lower_namespace cat v ≡ some o.lower_namespace =
          ground (arith, ==_refl v) in
        elim ((is_made new).only ns n on) [
          | inl before ↦
              let p = h.only ns n before in
              record {
                volume = p.volume;
                index = p.index;
                known = put-known new p.volume ns p.known;
                in_range = p.in_range;
                named = p.named;
              }
          | inr (in_ns, inl first) ↦ record {
            volume = v;
            index = 0;
            known = rw in_ns known_now;
            in_range = omega arith;
            named = first;
          }
          | inr (in_ns, inr second) ↦ record {
            volume = v;
            index = 1;
            known = rw in_ns known_now;
            in_range = omega arith;
            named = second;
          }
        ]

    -- A new volume is created, and the catalogue has it then.
    pub create_lower_new-Represents :
        cat v ≡ none
        → IsPlain v
        → ((create_lower K s v o w).0 ≡ ok (volume_of (split_of s v o modes)))
          × Represents K V s (put v o.lower_namespace cat) made_world
    create_lower_new-Represents new plain = (
      (create_lower_new K V S D C H G s v o w modes known (is_new new)).0,
      record {
        recorded = put-recorded new;
        absent = λ u k. elim (Bool-cases (u == v)) [
          | inl same ↦ absurd (ground arith)
          | inr other ↦ split_other new u other ∙ h.absent u (ground arith)
        ];
        plain = λ u ns k. elim (Bool-cases (u == v)) [
          | inl same ↦ rw ((==_iff u v).0 same) plain
          | inr other ↦ h.plain u ns (ground arith)
        ];
        stored = put-stored new;
        only = put-only new;
      },
    )

    -- A volume that the catalogue has is not created again, and everything stays as it is.
    pub create_lower_taken :
        {ns : String}
        → cat v ≡ some ns
        → ((e : Err) × ((create_lower K s v o w).0 ≡ err e)) × Represents K V s cat made_world
    unfolding create_lower
    create_lower_taken {ns} there =
        let r = h.recorded v ns there in
        let twin = h.absent (make_split_name v) (split_name_absent K V s cat w v h) in
        let spec = split_spec_of v o modes in
        let (e, failed, named) = create_split_again K V S C H s v spec w r.recorded twin in
        let ends : create_lower K s v o w ≡ (err e, (create_split K s v spec w).1) =
          rw known (rw failed refl) in
        (
          (e, ap (λ x. x.0) ends),
          Represents-move K V s
              (ap (λ x. splits x.1) ends
                ∙ create_split_again-splits K V S C H s v spec w r.recorded twin)
              (ap (λ x. claims x.1) ends ∙ (create_split-Grows K V S s v spec w).claims) h,
        )
