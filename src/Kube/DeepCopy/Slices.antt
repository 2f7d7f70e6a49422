-- ===== src/Kube/DeepCopy/Slices.antt =====
-- A slice whose array holds structs is copied by copying its elements.
use mathlib.Core.Path.{ap₂}
use union_csi.Base.{ℕ, suc, ◌≤◌, ◌<◌, ◌≡◌, ◌∙◌, arith, none, some, List, [], ◌∷◌, map, refl, All}
use union_csi.Kube.DeepCopy.{Address, Cell, Heap, alloc, copy_elements, copy_slice, read_slice}
use union_csi.Kube.DeepCopy.Copiers.{Agrees, Extends, Extends-trans, Copier, alloc-Extends}

module _ {X V : Type 0} (C : Copier X V) where
  abbrev pub HoldsAll : Heap → ℕ → ℕ → List X → Type 0
  HoldsAll h lo hi xs = All (C.Holds h lo hi) xs

  HoldsAll-widen :
      (xs : List X) (h : Heap) (lo hi lo' hi' : ℕ)
      → lo' ≤ lo
      → hi ≤ hi'
      → HoldsAll h lo hi xs
      → HoldsAll h lo' hi' xs
  HoldsAll-widen [] h lo hi lo' hi' le le' held = tt
  HoldsAll-widen (x ∷ xs) h lo hi lo' hi' le le' held =
      (C.widen x h lo hi lo' hi' le le' held.0, HoldsAll-widen xs h lo hi lo' hi' le le' held.1)

  HoldsAll-move :
      (xs : List X) (h g : Heap) (lo hi : ℕ)
      → HoldsAll h lo hi xs
      → Agrees h g lo hi
      → HoldsAll g lo hi xs
  HoldsAll-move [] h g lo hi held same = tt
  HoldsAll-move (x ∷ xs) h g lo hi held same =
      (C.move x h g lo hi held.0 same, HoldsAll-move xs h g lo hi held.1 same)

  elements-Extends : (xs : List X) (h : Heap) → Extends h (copy_elements C.copy xs h).1
  elements-Extends [] h = (omega arith, λ a low high. refl)
  elements-Extends (x ∷ xs) h = Extends-trans (C.extends x h) (elements-Extends xs (C.copy x h).1)

  -- The elements after the first, once it is copied.
  rest_held :
      (x : X) (xs : List X) (h : Heap)
      → HoldsAll h 0 h.next xs
      → HoldsAll (C.copy x h).1 0 (C.copy x h).1.next xs
  rest_held x xs h held =
      let (le, same) = C.extends x h in
      HoldsAll-widen xs (C.copy x h).1 0 h.next 0 (C.copy x h).1.next (omega arith) le
        (HoldsAll-move xs h (C.copy x h).1 0 h.next held same)

  elements-fresh :
      (xs : List X) (h : Heap)
      → HoldsAll h 0 h.next xs
      → let r = copy_elements C.copy xs h in HoldsAll r.1 h.next r.1.next r.0
  elements-fresh [] h held = tt
  elements-fresh (x ∷ xs) h held =
      let h1 = (C.copy x h).1 in
      let (le, same) = elements-Extends xs h1 in
      let h2 = (copy_elements C.copy xs h1).1 in
      (
        C.widen (C.copy x h).0 h2 h.next h1.next h.next h2.next (omega arith) le (
            C.move (C.copy x h).0 h1 h2 h.next h1.next (C.fresh x h held.0)
              (λ a low high. same a (omega arith) high)),
        HoldsAll-widen (copy_elements C.copy xs h1).0 h2 h1.next h2.next h.next h2.next
            (C.extends x h).0 (omega arith) (elements-fresh xs h1 (rest_held x xs h held.1)),
      )

  elements-frame :
      (xs : List X) (h g : Heap) (lo hi : ℕ)
      → HoldsAll h lo hi xs
      → Agrees h g lo hi
      → map (C.read g) xs ≡ map (C.read h) xs
  elements-frame [] h g lo hi held same = refl
  elements-frame (x ∷ xs) h g lo hi held same =
      ap₂ ◌∷◌ (C.frame x h g lo hi held.0 same) (elements-frame xs h g lo hi held.1 same)

  elements-same :
      (xs : List X) (h : Heap)
      → HoldsAll h 0 h.next xs
      → let r = copy_elements C.copy xs h in map (C.read r.1) r.0 ≡ map (C.read h) xs
  elements-same [] h held = refl
  elements-same (x ∷ xs) h held =
      let h1 = (C.copy x h).1 in
      let h2 = (copy_elements C.copy xs h1).1 in
      ap₂ ◌∷◌
        (C.frame (C.copy x h).0 h1 h2 h.next h1.next (C.fresh x h held.0)
            (λ a low high. (elements-Extends xs h1).1 a (omega arith) high)
          ∙ C.same x h held.0)
        (elements-same xs h1 (rest_held x xs h held.1)
          ∙ elements-frame xs h h1 0 h.next held.1 (C.extends x h).1)

  module _ (array : List X → Cell) (elements : Cell → List X)
      (elements-array : (xs : List X) → elements (array xs) ≡ xs) where
    -- The address of a slice, and those in its array.
    abbrev pub HoldsSlice : Heap → ℕ → ℕ → Address → Type 0
    HoldsSlice h lo hi none = Unit
    HoldsSlice h lo hi (some a) = (lo ≤ a) × (a < hi) × HoldsAll h lo hi (elements (h.cell a))

    -- The array of copies as it is found at its address.
    alloc_here : (xs : List X) (h : Heap) → elements ((alloc (array xs) h).1.cell h.next) ≡ xs
    alloc_here xs h = ground (arith, elements-array xs)

    pub slice-Extends :
        (p : Address) (h : Heap) → Extends h (copy_slice C.copy array elements p h).1
    slice-Extends none h = (omega arith, λ a low high. refl)
    slice-Extends (some a) h =
        let xs = copy_elements C.copy (elements (h.cell a)) h in
        Extends-trans (elements-Extends (elements (h.cell a)) h) (alloc-Extends (array xs.0) xs.1)

    -- A new array leaves alone what its elements refer to.
    kept_below : (xs : List X) (h : Heap) (lo : ℕ) → Agrees h (alloc (array xs) h).1 lo h.next
    kept_below xs h lo a low high = (alloc-Extends (array xs) h).1 a (omega arith) high

    pub slice-fresh :
        (p : Address) (h : Heap)
        → HoldsSlice h 0 h.next p
        → let r = copy_slice C.copy array elements p h in HoldsSlice r.1 h.next r.1.next r.0
    slice-fresh none h held = tt
    slice-fresh (some a) h (low, high, inner) =
        let xs = copy_elements C.copy (elements (h.cell a)) h in
        let h' = (alloc (array xs.0) xs.1).1 in
        let le = (elements-Extends (elements (h.cell a)) h).0 in
        (
          le,
          omega arith,
          rw (alloc_here xs.0 xs.1) (
              HoldsAll-widen xs.0 h' h.next xs.1.next h.next (suc xs.1.next) (omega arith)
                (omega arith)
                (HoldsAll-move xs.0 xs.1 h' h.next xs.1.next
                  (elements-fresh (elements (h.cell a)) h inner) (kept_below xs.0 xs.1 h.next))),
        )

    pub slice-same :
        (p : Address) (h : Heap)
        → HoldsSlice h 0 h.next p
        → let r = copy_slice C.copy array elements p h in
          read_slice C.read elements r.1 r.0 ≡ read_slice C.read elements h p
    slice-same none h held = refl
    slice-same (some a) h (low, high, inner) =
        let old = elements (h.cell a) in
        let xs = copy_elements C.copy old h in
        rw (alloc_here xs.0 xs.1) (
          elements-frame xs.0 xs.1 (alloc (array xs.0) xs.1).1 h.next xs.1.next
            (elements-fresh old h inner) (kept_below xs.0 xs.1 h.next)
          ∙ elements-same old h inner)

    pub slice-frame :
        (p : Address) (h g : Heap) (lo hi : ℕ)
        → HoldsSlice h lo hi p
        → Agrees h g lo hi
        → read_slice C.read elements g p ≡ read_slice C.read elements h p
    slice-frame none h g lo hi held same = refl
    slice-frame (some a) h g lo hi (low, high, inner) same =
        rw (same a low high) (elements-frame (elements (h.cell a)) h g lo hi inner same)

    pub slice-move :
        (p : Address) (h g : Heap) (lo hi : ℕ)
        → HoldsSlice h lo hi p
        → Agrees h g lo hi
        → HoldsSlice g lo hi p
    slice-move none h g lo hi held same = tt
    slice-move (some a) h g lo hi (low, high, inner) same =
        (low, high, rw (same a low high) (HoldsAll-move (elements (h.cell a)) h g lo hi inner same))

    pub slice-widen :
        (p : Address) (h : Heap) (lo hi lo' hi' : ℕ)
        → lo' ≤ lo
        → hi ≤ hi'
        → HoldsSlice h lo hi p
        → HoldsSlice h lo' hi' p
    slice-widen none h lo hi lo' hi' le le' held = tt
    slice-widen (some a) h lo hi lo' hi' le le' (low, high, inner) = (
      omega (arith, low),
      omega (arith, high),
      HoldsAll-widen (elements (h.cell a)) h lo hi lo' hi' le le' inner,
    )

    abbrev pub slice_copier : Copier Address (List V)
    slice_copier = record {
      copy = copy_slice C.copy array elements;
      read = read_slice C.read elements;
      Holds = HoldsSlice;
      extends = slice-Extends;
      fresh = slice-fresh;
      same = slice-same;
      frame = slice-frame;
      move = slice-move;
      widen = slice-widen;
    }
