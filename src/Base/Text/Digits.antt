-- ===== src/Base/Text/Digits.antt =====
-- The number that decimal digits stand for, and that `strconv.Itoa` writes it.
use Prim.Native.Char.{code}
use Prim.Native.Nat.{ℕ, zero, suc, ◌+◌, ◌-◌, ◌*◌, ◌/◌, ◌%◌, ◌<◌}
use Prim.Native.String.{String, slice, ◌++◌ as ◌<>◌}
use mathlib.Core.Logic.{inl, inr}
use mathlib.Core.Path.{◌≡◌, refl, sym, ap, ◌∙◌}
use native.Mathlib.Omega.{arith}
use text.Mathlib.TextLemmas.{nil-append, cons-append}
use union_csi.Base.Equality.{ltb, Bool-cases}
use union_csi.Base.Text.{itoa, itoa_onto}

-- `strconv.Atoi` of digits, after those that stand for `n`.
atoi_onto : ℕ → String → ℕ
atoi_onto n String.[] = n
atoi_onto n (String.◌∷◌ c s) = atoi_onto (n * 10 + (code c - 48)) s

atoi_onto-append : (n : ℕ) (s t : String) → atoi_onto n (s <> t) ≡ atoi_onto (atoi_onto n s) t
unfolding atoi_onto
atoi_onto-append n String.[] t = ap (atoi_onto n) (nil-append t)
atoi_onto-append n (String.◌∷◌ c s) t =
    ap (atoi_onto n) (cons-append c s t) ∙ atoi_onto-append (n * 10 + (code c - 48)) s t

digit_value : (n d : ℕ) → d < 10 → atoi_onto n (slice "0123456789" d (d + 1)) ≡ n * 10 + d
unfolding atoi_onto
digit_value n zero h = refl
digit_value n (suc zero) h = refl
digit_value n (suc (suc zero)) h = refl
digit_value n (suc (suc (suc zero))) h = refl
digit_value n (suc (suc (suc (suc zero)))) h = refl
digit_value n (suc (suc (suc (suc (suc zero))))) h = refl
digit_value n (suc (suc (suc (suc (suc (suc zero)))))) h = refl
digit_value n (suc (suc (suc (suc (suc (suc (suc zero))))))) h = refl
digit_value n (suc (suc (suc (suc (suc (suc (suc (suc zero)))))))) h = refl
digit_value n (suc (suc (suc (suc (suc (suc (suc (suc (suc zero))))))))) h = refl
digit_value n (suc (suc (suc (suc (suc (suc (suc (suc (suc (suc d)))))))))) h = absurd (omega arith)

atoi_onto-digit :
    (n d : ℕ) (acc : String)
    → d < 10
    → atoi_onto n (slice "0123456789" d (d + 1) <> acc) ≡ atoi_onto (n * 10 + d) acc
atoi_onto-digit n d acc h =
    atoi_onto-append n (slice "0123456789" d (d + 1)) acc
    ∙ ap (λ k. atoi_onto k acc) (digit_value n d h)

atoi_onto-itoa_onto :
    (fuel n : ℕ) (acc : String) → n < fuel → atoi_onto 0 (itoa_onto fuel n acc) ≡ atoi_onto n acc
unfolding itoa_onto
atoi_onto-itoa_onto zero n acc h = absurd (omega arith)
atoi_onto-itoa_onto (suc fuel) n acc h =
    let d = n % 10 in
    elim (Bool-cases (ltb n 10)) [
      | inl small ↦
          let same : d ≡ n = ground (arith, small) in
          rw small (
            atoi_onto-digit 0 d acc (omega arith) ∙ ap (λ k. atoi_onto k acc) (omega (arith, same)))
      | inr big ↦ rw big (
          atoi_onto-itoa_onto fuel (n / 10) (slice "0123456789" d (d + 1) <> acc)
            (ground (arith, big))
          ∙ atoi_onto-digit (n / 10) d acc (omega arith)
          ∙ ap (λ k. atoi_onto k acc) (omega arith))
    ]

-- Different numbers have different digits.
pub itoa_inj : (m n : ℕ) → itoa m ≡ itoa n → m ≡ n
unfolding itoa atoi_onto
itoa_inj m n e =
    sym (atoi_onto-itoa_onto (suc m) m "" (omega arith))
    ∙ ap (atoi_onto 0) e
    ∙ atoi_onto-itoa_onto (suc n) n "" (omega arith)
