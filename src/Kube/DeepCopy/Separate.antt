-- ===== src/Kube/DeepCopy/Separate.antt =====
-- A deep copy stands for the same and shares nothing with the original.
use union_csi.Base.{◌≡◌, ◌∙◌}
use union_csi.Kube.DeepCopy.{Heap}
use union_csi.Kube.DeepCopy.Copiers.{Agrees, Copier}

-- What a copy promises. A heap that agrees with the one after the copy below the first new
-- address may differ in all that the copy holds, and one that agrees from there on may differ in
-- all that the original holds.
pub record IsSeparateCopy {X V : Type 0} (read : Heap → X → V) (x : X) (h : Heap) (x' : X)
    (h' : Heap) : Type 0 where
  pub same : read h' x' ≡ read h x
  pub original_kept : (g : Heap) → Agrees h' g 0 h.next → read g x ≡ read h x
  pub copy_kept : (g : Heap) → Agrees h' g h.next h'.next → read g x' ≡ read h x

pub copy-IsSeparateCopy :
    {X V : Type 0} (C : Copier X V) (x : X) (h : Heap)
    → C.Holds h 0 h.next x
    → IsSeparateCopy C.read x h (C.copy x h).0 (C.copy x h).1
copy-IsSeparateCopy C x h held =
    let r = C.copy x h in
    record {
      same = C.same x h held;
      original_kept = λ g agrees.
          C.frame x h g 0 h.next held
            (λ a low high. agrees a low high ∙ (C.extends x h).1 a low high);
      copy_kept =
          λ g agrees. C.frame r.0 r.1 g h.next r.1.next (C.fresh x h held) agrees ∙ C.same x h held;
    }
