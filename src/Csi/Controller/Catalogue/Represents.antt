-- ===== src/Csi/Controller/Catalogue/Represents.antt =====
-- How the recorded splits and the lower claims stand for a catalogue.
use Prim.Native.String.{count}
use text.Mathlib.TextLemmas.{append_inj, length-append}
use union_csi.Base.{
  ℕ, ◌<◌, String, true, false, none, some, List, ◌≡◌, ap, arith, ◌==◌, ==_iff, string_eq, refl,
  Bool-cases, Option-cases, inl, inr,
}
use union_csi.Csi.Controller.Catalogue.{Catalogue, IsPlain}
use union_csi.Kube.{AccessMode}
use union_csi.Kube.Cluster.{Cluster}
use union_csi.Kube.Cluster.Store.{View}
use union_csi.Union.{CreateLowerOptions}
use union_csi.Union.Lower.Liveness.{split_of}
use union_csi.Union.Splitter.{Splitter, make_split_name, make_claim_name}

pub make_split_name_inj : (v u : String) → make_split_name v ≡ make_split_name u → v ≡ u
unfolding make_split_name
make_split_name_inj v u e =
    (append_inj e (omega (arith, ap count e, length-append v "-split", length-append u "-split"))).0

pub make_split_name-ne :
    (v u : String) → (u == v) ≡ false → (make_split_name u == make_split_name v) ≡ false
make_split_name-ne v u other = elim (Bool-cases (make_split_name u == make_split_name v)) [
  | inr off ↦ off
  | inl same ↦
      let e = make_split_name_inj u v ((==_iff (make_split_name u) (make_split_name v)).0 same) in
      absurd (ground (arith, other, (==_iff u v).1 e))
]

module _ (K : Cluster) (V : View K) (s : Splitter) where
  open V use {splits, claims}

  -- The split of a volume is the one that the driver makes for it.
  pub record IsRecorded (v ns : String) (w : K.World) : Type 0 where
    pub options : CreateLowerOptions
    pub modes : List AccessMode
    pub recorded : splits w (make_split_name v) ≡ some (split_of s v options modes)
    pub in_namespace : options.lower_namespace ≡ ns

  -- The claim is one of the two of a volume of the catalogue.
  pub record IsPart (cat : Catalogue) (ns n : String) : Type 0 where
    pub volume : String
    pub index : ℕ
    pub known : cat volume ≡ some ns
    pub in_range : index < 2
    pub named : n ≡ make_claim_name s volume index

  -- The splits of the catalogue's volumes are recorded and no other volume has one. Their claims are
  -- stored, and no other claims are.
  pub record Represents (cat : Catalogue) (w : K.World) : Type 0 where
    pub recorded : (v ns : String) → cat v ≡ some ns → IsRecorded v ns w
    pub absent : (v : String) → cat v ≡ none → splits w (make_split_name v) ≡ none
    pub plain : (v ns : String) → cat v ≡ some ns → IsPlain v
    pub stored :
        (v ns : String)
        → cat v ≡ some ns
        → (i : ℕ) → i < 2
        → claims w ns (make_claim_name s v i) ≡ true
    pub only : (ns n : String) → claims w ns n ≡ true → IsPart cat ns n

  -- That depends on the splits and the claims alone.
  pub Represents-move :
      {cat : Catalogue} {w w' : K.World}
      → splits w' ≡ splits w
      → claims w' ≡ claims w
      → Represents cat w
      → Represents cat w'
  Represents-move same_splits same_claims h = record {
    recorded = λ v ns k.
        let r = h.recorded v ns k in
        record {
          options = r.options;
          modes = r.modes;
          recorded = rw same_splits (r.recorded);
          in_namespace = r.in_namespace;
        };
    absent = λ v k. rw same_splits (h.absent v k);
    plain = h.plain;
    stored = λ v ns k i lt. rw same_claims (h.stored v ns k i lt);
    only = λ ns n k. h.only ns n (rw (← same_claims) k);
  }

  -- The name of a split is no volume of the catalogue.
  pub split_name_absent :
      (cat : Catalogue) (w : K.World) (v : String)
      → Represents cat w
      → cat (make_split_name v) ≡ none
  split_name_absent cat w v h = elim (Option-cases (cat (make_split_name v))) [
    | inl e ↦ e
    | inr (ns, e) ↦ absurd (h.plain (make_split_name v) ns e v refl)
  ]
