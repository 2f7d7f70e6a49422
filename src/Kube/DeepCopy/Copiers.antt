-- ===== src/Kube/DeepCopy/Copiers.antt =====
-- What it takes to copy something deeply on a heap, and how such copies are put together.
use mathlib.Core.Path.{ap₂}
use union_csi.Base.{ℕ, ◌≤◌, ◌<◌, ◌≡◌, ◌∙◌, arith, none, some, refl, ap}
use union_csi.Kube.DeepCopy.{Address, Cell, Heap, alloc, copy_cell, read_cell}

-- The addresses from lo on and below hi hold the same in both heaps.
abbrev pub Agrees : Heap → Heap → ℕ → ℕ → Type 0
Agrees h g lo hi = (a : ℕ) → lo ≤ a → a < hi → g.cell a ≡ h.cell a

-- What is taken in h is taken and the same in g.
abbrev pub Extends : Heap → Heap → Type 0
Extends h g = (h.next ≤ g.next) × Agrees h g 0 h.next

pub Extends-trans : {h g k : Heap} → Extends h g → Extends g k → Extends h k
Extends-trans (le1, same1) (le2, same2) = (
  omega (arith, le1, le2),
  λ a low high. same2 a low (omega (arith, le1, high)) ∙ same1 a low high,
)

-- An address that is nil or in a range.
abbrev pub In : ℕ → ℕ → Address → Type 0
In lo hi none = Unit
In lo hi (some a) = (lo ≤ a) × (a < hi)

pub alloc-Extends : (c : Cell) (h : Heap) → Extends h (alloc c h).1
alloc-Extends c h = (omega arith, λ a low high. ground arith)

pub In-widen : (p : Address) (lo hi lo' hi' : ℕ) → lo' ≤ lo → hi ≤ hi' → In lo hi p → In lo' hi' p
In-widen none lo hi lo' hi' le le' held = tt
In-widen (some a) lo hi lo' hi' le le' held = (omega (arith, held.0), omega (arith, held.1))

-- A way to copy values of X, what they stand for, and where their addresses are.
pub record Copier (X V : Type 0) : Type 1 where
  pub copy : X → Heap → X × Heap
  pub read : Heap → X → V
  pub Holds : Heap → ℕ → ℕ → X → Type 0
  pub extends : (x : X) (h : Heap) → Extends h (copy x h).1
  pub fresh :
      (x : X) (h : Heap)
      → Holds h 0 h.next x
      → Holds (copy x h).1 h.next (copy x h).1.next (copy x h).0
  pub same : (x : X) (h : Heap) → Holds h 0 h.next x → read (copy x h).1 (copy x h).0 ≡ read h x
  pub frame :
      (x : X) (h g : Heap) (lo hi : ℕ) → Holds h lo hi x → Agrees h g lo hi → read g x ≡ read h x
  pub move : (x : X) (h g : Heap) (lo hi : ℕ) → Holds h lo hi x → Agrees h g lo hi → Holds g lo hi x
  pub widen :
      (x : X) (h : Heap) (lo hi lo' hi' : ℕ)
      → lo' ≤ lo
      → hi ≤ hi'
      → Holds h lo hi x
      → Holds h lo' hi' x

-- One thing after the other.
module _ {X Y V W : Type 0} (C : Copier X V) (D : Copier Y W) where
  module _ (x : X) (y : Y) (h : Heap) where
    abbrev pub after_first : Heap
    after_first = (C.copy x h).1

    abbrev pub after_both : Heap
    after_both = (D.copy y after_first).1

    later_same : Agrees after_first after_both h.next after_first.next
    later_same a low high = (D.extends y after_first).1 a (omega arith) high

    second_held : D.Holds h 0 h.next y → D.Holds after_first 0 after_first.next y
    second_held held =
        D.widen y after_first 0 h.next 0 after_first.next (omega arith) (C.extends x h).0
          (D.move y h after_first 0 h.next held (C.extends x h).1)

  abbrev pub PairHolds : Heap → ℕ → ℕ → X × Y → Type 0
  PairHolds h lo hi (x, y) = C.Holds h lo hi x × D.Holds h lo hi y

  abbrev pub copy_pair : X × Y → Heap → (X × Y) × Heap
  copy_pair (x, y) h = let a = C.copy x h in let b = D.copy y a.1 in ((a.0, b.0), b.1)

  pub pair-fresh :
      (p : X × Y) (h : Heap)
      → PairHolds h 0 h.next p
      → PairHolds (copy_pair p h).1 h.next (copy_pair p h).1.next (copy_pair p h).0
  pair-fresh (x, y) h (held_x, held_y) = (
    C.widen _ (after_both x y h) h.next (after_first x y h).next h.next (after_both x y h).next
        (omega arith) (D.extends y (after_first x y h)).0
        (C.move _ (after_first x y h) (after_both x y h) h.next (after_first x y h).next
          (C.fresh x h held_x) (later_same x y h)),
    D.widen _ (after_both x y h) (after_first x y h).next (after_both x y h).next h.next
        (after_both x y h).next (C.extends x h).0 (omega arith)
        (D.fresh y (after_first x y h) (second_held x y h held_y)),
  )

  pub pair-same :
      (p : X × Y) (h : Heap)
      → PairHolds h 0 h.next p
      → let (x', y') = (copy_pair p h).0 in
        let h' = (copy_pair p h).1 in (C.read h' x' ≡ C.read h p.0) × (D.read h' y' ≡ D.read h p.1)
  pair-same (x, y) h (held_x, held_y) = (
    C.frame _ (after_first x y h) (after_both x y h) h.next (after_first x y h).next
          (C.fresh x h held_x) (later_same x y h)
        ∙ C.same x h held_x,
    D.same y (after_first x y h) (second_held x y h held_y)
        ∙ D.frame y h (after_first x y h) 0 h.next held_y (C.extends x h).1,
  )

  abbrev pub pair : Copier (X × Y) (V × W)
  pair = record {
    copy = copy_pair;
    read = λ h p. (C.read h p.0, D.read h p.1);
    Holds = PairHolds;
    extends = λ p h. Extends-trans (C.extends p.0 h) (D.extends p.1 (C.copy p.0 h).1);
    fresh = pair-fresh;
    same = λ p h held. ap₂ (λ a b. (a, b)) (pair-same p h held).0 (pair-same p h held).1;
    frame = λ p h g lo hi held same.
        ap₂ (λ a b. (a, b)) (C.frame p.0 h g lo hi held.0 same) (D.frame p.1 h g lo hi held.1 same);
    move = λ p h g lo hi held same.
        (C.move p.0 h g lo hi held.0 same, D.move p.1 h g lo hi held.1 same);
    widen = λ p h lo hi lo' hi' le le' held.
        (C.widen p.0 h lo hi lo' hi' le le' held.0, D.widen p.1 h lo hi lo' hi' le le' held.1);
  }

-- A cell that is copied into a new one.
module _ {V : Type 0} (content : Cell → Cell) (value : Cell → V) (nothing : V)
    (kept : (c : Cell) → value (content c) ≡ value c) where
  pub copy_cell-Extends : (p : Address) (h : Heap) → Extends h (copy_cell content p h).1
  copy_cell-Extends none h = (omega arith, λ a low high. refl)
  copy_cell-Extends (some a) h = alloc-Extends (content (h.cell a)) h

  pub copy_cell-In :
      (p : Address) (h : Heap) → In h.next (copy_cell content p h).1.next (copy_cell content p h).0
  copy_cell-In none h = tt
  copy_cell-In (some a) h = (omega arith, omega arith)

  pub read_cell-copy_cell :
      (p : Address) (h : Heap)
      → read_cell value nothing (copy_cell content p h).1 (copy_cell content p h).0
        ≡ read_cell value nothing h p
  read_cell-copy_cell none h = refl
  read_cell-copy_cell (some a) h = ground (arith, kept (h.cell a))

  pub read_cell-frame :
      (p : Address) (h g : Heap) (lo hi : ℕ)
      → In lo hi p
      → Agrees h g lo hi
      → read_cell value nothing g p ≡ read_cell value nothing h p
  read_cell-frame none h g lo hi held same = refl
  read_cell-frame (some a) h g lo hi held same = ap value (same a held.0 held.1)

  abbrev pub cell_copier : Copier Address V
  cell_copier = record {
    copy = copy_cell content;
    read = read_cell value nothing;
    Holds = λ h lo hi p. In lo hi p;
    extends = copy_cell-Extends;
    fresh = λ p h held. copy_cell-In p h;
    same = λ p h held. read_cell-copy_cell p h;
    frame = read_cell-frame;
    move = λ p h g lo hi held same. held;
    widen = λ p h lo hi lo' hi' le le' held. In-widen p lo hi lo' hi' le le' held;
  }

-- A struct X whose parts P hold its addresses. It is rebuilt from copied parts, and what it stands
-- for is read off what they stand for.
module _ {X P V W : Type 0} (C : Copier P V) (parts_of : X → P) (with_parts : X → P → X)
    (value : X → V → W) (parts_kept : (x : X) (p : P) → parts_of (with_parts x p) ≡ p)
    (value_kept : (x : X) (p : P) (v : V) → value (with_parts x p) v ≡ value x v) where
  abbrev pub copy_struct : X → Heap → X × Heap
  copy_struct x h = let r = C.copy (parts_of x) h in (with_parts x r.0, r.1)

  abbrev pub struct_copier : Copier X W
  struct_copier = record {
    copy = copy_struct;
    read = λ h x. value x (C.read h (parts_of x));
    Holds = λ h lo hi x. C.Holds h lo hi (parts_of x);
    extends = λ x h. C.extends (parts_of x) h;
    fresh = λ x h held.
        let r = C.copy (parts_of x) h in rw (parts_kept x r.0) (C.fresh (parts_of x) h held);
    same = λ x h held.
        let r = C.copy (parts_of x) h in
        value_kept x r.0 _
        ∙ ap (λ p. value x (C.read r.1 p)) (parts_kept x r.0)
        ∙ ap (value x) (C.same (parts_of x) h held);
    frame = λ x h g lo hi held same. ap (value x) (C.frame (parts_of x) h g lo hi held same);
    move = λ x h g lo hi held same. C.move (parts_of x) h g lo hi held same;
    widen = λ x h lo hi lo' hi' le le' held. C.widen (parts_of x) h lo hi lo' hi' le le' held;
  }
