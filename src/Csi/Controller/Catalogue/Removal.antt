-- ===== src/Csi/Controller/Catalogue/Removal.antt =====
-- The deletion of a volume that the catalogue has, and of one that it does not have.
use union_csi.Base.{
  ℕ, zero, suc, ◌<◌, String, Bool, true, false, none, some, [], ◌∷◌, ◌≡◌, refl, sym, ap, ◌∙◌, arith,
  ◌==◌, ==_iff, ==_refl, string_eq, Bool-cases, inl, inr, here, there,
}
use union_csi.Csi.Controller.Catalogue.{Catalogue, drop}
use union_csi.Csi.Controller.Catalogue.Represents.{
  make_split_name-ne, IsRecorded, IsPart, Represents, Represents-move,
}
use union_csi.Csi.Controller.Deletion.{delete_lower_absent, delete_lower_absent_world}
use union_csi.Failure.{Err, volume_not_found, is, ok, err}
use union_csi.Kube.Cluster.{Cluster}
use union_csi.Kube.Cluster.Laws.{IsClassifier}
use union_csi.Kube.Cluster.Store.{View, IsSplitStore, IsClaimStore, IsHealthy}
use union_csi.Kube.Cluster.Working.{IsWorking}
use union_csi.Union.Lower.{split_spec_of, delete_lower}
use union_csi.Union.Lower.Cleanup.{Deleted, delete_lower_done}
use union_csi.Union.Lower.Exact.{lists_claim, delete_lower_exact}
use union_csi.Union.Lower.Isolation.{delete_lower_isolated}
use union_csi.Union.Lower.Liveness.{split_of, part_of, delete_lower_succeeds}
use union_csi.Union.Splits.{new_split}
use union_csi.Union.Splitter.{Splitter, make_split_name, make_claim_name}

module _ (K : Cluster) (V : View K) (S : IsSplitStore K V) (D : IsClaimStore K V)
    (C : IsClassifier K) (H : IsHealthy K V) (G : IsWorking K V) (s : Splitter) where
  open V use {splits, claims}

  module _ (cat : Catalogue) (w : K.World) (h : Represents K V s cat w) (v : String) where
    abbrev pub left_world : K.World
    left_world = (delete_lower K v w).1

    -- A volume that the catalogue does not have counts as deleted, and everything stays as it is.
    pub delete_lower_unknown :
        cat v ≡ none
        → ((e : Err) × ((delete_lower K v w).0 ≡ err e) × (is e volume_not_found ≡ true))
          × Represents K V s cat left_world
    delete_lower_unknown unknown =
        let same = delete_lower_absent_world K V S D C H v w (h.absent v unknown) in
        (
          delete_lower_absent K V S D C H v w (h.absent v unknown),
          Represents-move K V s (same.0) (same.1) h,
        )

    module _ {ns : String} (there_ : cat v ≡ some ns) where
      r : IsRecorded K V s v ns w
      r = h.recorded v ns there_

      pub succeeds : (delete_lower K v w).0 ≡ ok tt
      succeeds = delete_lower_succeeds K V S D C H G v w r.recorded

      gone : Deleted K V S D v (split_of s v r.options r.modes) w left_world
      gone =
          let (split, recorded, deleted) = delete_lower_done K V S D v w succeeds in
          let is_it : split ≡ split_of s v r.options r.modes =
            ground (arith, r.recorded, recorded) in
          rw (← is_it) deleted

      drop-recorded : (u ms : String) → drop v cat u ≡ some ms → IsRecorded K V s u ms left_world
      drop-recorded u ms k = elim (Bool-cases (u == v)) [
        | inl same ↦ absurd (ground arith)
        | inr other ↦
            let q = h.recorded u ms (ground arith) in
            record {
              options = q.options;
              modes = q.modes;
              recorded =
                  gone.others_kept (make_split_name u) (make_split_name-ne v u other) ∙ q.recorded;
              in_namespace = q.in_namespace;
            }
      ]

      drop-absent :
          (u : String) → drop v cat u ≡ none → splits left_world (make_split_name u) ≡ none
      drop-absent u k = elim (Bool-cases (u == v)) [
        | inl same ↦ rw ((==_iff u v).0 same) (gone.split_gone)
        | inr other ↦
            gone.others_kept (make_split_name u) (make_split_name-ne v u other)
            ∙ h.absent u (ground arith)
      ]

      drop-stored :
          (u ms : String)
          → drop v cat u ≡ some ms
          → (i : ℕ) → i < 2
          → claims left_world ms (make_claim_name s u i) ≡ true
      drop-stored u ms k i lt = elim (Bool-cases (u == v)) [
        | inl same ↦ absurd (ground arith)
        | inr other ↦
            delete_lower_isolated K V S D s v u r.options r.modes w
              (λ e. ground (arith, (==_iff u v).1 (sym e))) r.recorded ms i lt
            ∙ h.stored u ms (ground arith) i lt
      ]

      abbrev listed : String → String → Bool
      listed ms n =
          lists_claim r.options.lower_namespace
            (part_of s v r.options r.modes 0 ∷ part_of s v r.options r.modes 1 ∷ []) ms n

      -- A claim that is listed is gone.
      listed_gone : (ms n : String) → listed ms n ≡ true → claims left_world ms n ≡ false
      unfolding new_split split_spec_of
      listed_gone ms n on = elim (Bool-cases (n == make_claim_name s v 0)) [
        | inl first ↦
            let e : ms ≡ r.options.lower_namespace = ground arith in
            let e' = (==_iff n (make_claim_name s v 0)).0 first in
            rw (e, e') (gone.claims_gone (make_claim_name s v 0) (here refl))
        | inr not_first ↦
            let e : ms ≡ r.options.lower_namespace = ground arith in
            let e' : n ≡ make_claim_name s v 1 = ground arith in
            rw (e, e') (gone.claims_gone (make_claim_name s v 1) (there (here refl)))
      ]

      listed_own : (i : ℕ) → i < 2 → listed ns (make_claim_name s v i) ≡ true
      unfolding split_spec_of
      listed_own zero lt =
          ground (arith, r.in_namespace, ==_refl ns, ==_refl (make_claim_name s v 0))
      listed_own (suc zero) lt =
          ground (arith, r.in_namespace, ==_refl ns, ==_refl (make_claim_name s v 1))
      listed_own (suc (suc i)) lt = absurd (omega arith)

      named_own :
          (ms n : String) (i : ℕ) → i < 2 → ms ≡ ns → n ≡ make_claim_name s v i → listed ms n ≡ true
      named_own ms n i lt in_ns its =
          ap (λ x. listed x n) in_ns ∙ ap (listed ns) its ∙ listed_own i lt

      drop-only : (ms n : String) → claims left_world ms n ≡ true → IsPart K V s (drop v cat) ms n
      unfolding new_split split_spec_of
      drop-only ms n on = elim (Bool-cases (listed ms n)) [
        | inl own ↦ absurd (ground (arith, listed_gone ms n own))
        | inr other ↦
            let before = sym (delete_lower_exact K V S D v w r.recorded ms n other) ∙ on in
            let p = h.only ms n before in
            elim (Bool-cases (p.volume == v)) [
              | inl same ↦
                  let e = (==_iff p.volume v).0 same in
                  let in_ns : ms ≡ ns = ground (arith, p.known, ap cat e) in
                  let its : n ≡ make_claim_name s v p.index =
                    p.named ∙ ap (λ u. make_claim_name s u p.index) e in
                  let own = named_own ms n p.index p.in_range in_ns its in
                  absurd (ground (arith, own, other))
              | inr differs ↦ record {
                volume = p.volume;
                index = p.index;
                known = ground (arith, p.known);
                in_range = p.in_range;
                named = p.named;
              }
            ]
      ]

      -- A volume that the catalogue has is deleted, and the catalogue does not have it then.
      pub delete_lower-Represents : Represents K V s (drop v cat) left_world
      delete_lower-Represents = record {
        recorded = drop-recorded;
        absent = drop-absent;
        plain = λ u ms k. elim (Bool-cases (u == v)) [
          | inl same ↦ absurd (ground arith)
          | inr other ↦ h.plain u ms (ground arith)
        ];
        stored = drop-stored;
        only = drop-only;
      }
