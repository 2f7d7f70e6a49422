-- ===== src/Merger/Threads.antt =====
-- Goroutines by number: what each does is a function of its number, and a count says how many of
-- the first n do one kind of thing.
use union_csi.Base.{
  ℕ, zero, ltb, suc, ◌+◌, ◌*◌, ◌≤◌, ◌<◌, ◌≡◌, refl, Bool, true, false, if◌then◌else◌, inl, inr,
  arith, Bool-cases,
}
use mathlib.Core.Logic.{ite}
use native.Mathlib.Decide.{dec_lt, ℕ_discrete}

abbrev pub update {ℓ} : {A : Type ℓ} → (ℕ → A) → ℕ → A → ℕ → A
update f i a j = ite (ℕ_discrete j i) a (f j)

abbrev pub one_if : Bool → ℕ
one_if b = if b then 1 else 0

module _ {ℓ} {A : Type ℓ} (p : A → Bool) where
  -- How many of the first n goroutines satisfy the test.
  unfoldable pub count : ℕ → (ℕ → A) → ℕ
  count zero f = 0
  count (suc n) f = one_if (p (f n)) + count n f

  count-update_of_le :
      (n : ℕ) (f : ℕ → A) (i : ℕ) (a : A) → n ≤ i → count n (update f i a) ≡ count n f
  unfolding count
  count-update_of_le zero f i a h = refl
  count-update_of_le (suc n) f i a h = ground (arith, count-update_of_le n f i a)

  -- One goroutine changes: its old share leaves the count, its new share enters.
  pub count-update :
      (n : ℕ) (f : ℕ → A) (i : ℕ) (a : A)
      → i < n
      → count n (update f i a) + one_if (p (f i)) ≡ count n f + one_if (p a)
  unfolding count
  count-update zero f i a h = absurd (omega arith)
  count-update (suc n) f i a h = elim (dec_lt i n) [
    | yes below ↦ ground (arith, count-update n f i a below)
    | no last ↦ ground (arith, count-update_of_le n f i a)
  ]

  pub count-le : (n : ℕ) (f : ℕ → A) (i : ℕ) → i < n → one_if (p (f i)) ≤ count n f
  unfolding count
  count-le zero f i h = absurd (omega arith)
  count-le (suc n) f i h = elim (dec_lt i n) [
    | yes below ↦ ground (arith, count-le n f i below)
    | no last ↦ ground arith
  ]

  count-two :
      (n : ℕ) (f : ℕ → A) (i j : ℕ)
      → i < j
      → j < n
      → one_if (p (f i)) + one_if (p (f j)) ≤ count n f
  unfolding count
  count-two zero f i j h below = absurd (omega arith)
  count-two (suc n) f i j h below = elim (dec_lt j n) [
    | yes more ↦ ground (arith, count-two n f i j h more)
    | no last ↦ ground (arith, count-le n f i)
  ]

  -- Where at most one satisfies the test, two that do are the same.
  pub count_unique :
      (n : ℕ) (f : ℕ → A)
      → count n f ≤ 1
      → (i j : ℕ) → i < n
      → j < n
      → p (f i) ≡ true
      → p (f j) ≡ true
      → i ≡ j
  count_unique n f one i j lt_i lt_j on_i on_j = elim (dec_lt i j) [
    | yes less ↦ absurd (ground (arith, count-two n f i j less lt_j))
    | no most ↦ elim (dec_lt j i) [
      | yes more ↦ absurd (ground (arith, count-two n f j i more lt_i))
      | no least ↦ omega arith
    ]
  ]

  pub count-none : (n : ℕ) (f : ℕ → A) → ((i : ℕ) → p (f i) ≡ false) → count n f ≡ 0
  unfolding count
  count-none zero f h = refl
  count-none (suc n) f h = ground (arith, h n, count-none n f h)

  -- A positive count has a goroutine to show.
  pub count-positive : (n : ℕ) (f : ℕ → A) → 0 < count n f → (i : ℕ) × (i < n) × (p (f i) ≡ true)
  unfolding count
  count-positive zero f h = absurd (omega arith)
  count-positive (suc n) f h = elim (Bool-cases (p (f n))) [
    | inl on ↦ (n, omega arith, on)
    | inr off ↦ let (i, below, on) = count-positive n f (ground arith) in (i, omega arith, on)
  ]

-- A stricter test counts no more.
pub count_mono {ℓ} :
    {A : Type ℓ} (p q : A → Bool)
    → ((a : A) → one_if (p a) ≤ one_if (q a))
    → (n : ℕ) (f : ℕ → A) → count p n f ≤ count q n f
unfolding count
count_mono p q below zero f = omega arith
count_mono p q below (suc n) f = omega (arith, below (f n), count_mono p q below n f)

-- What a list of goroutines weighs together, by the weight of what each does.
module _ {ℓ} {A : Type ℓ} (weight : A → ℕ) where
  pub load : (ℕ → A) → ℕ → ℕ
  load f zero = 0
  load f (suc n) = load f n + weight (f n)

  -- Both sides with the share of goroutine i, if it is one of the first n.
  load-change :
      (f : ℕ → A) (i : ℕ) (a : A) (n : ℕ)
      → load (update f i a) n + (if ltb i n then weight (f i) else 0)
        ≡ load f n + (if ltb i n then weight a else 0)
  unfolding load
  load-change f i a zero = ground arith
  load-change f i a (suc n) = ground (arith, load-change f i a n)

  pub load-update :
      (f : ℕ → A) (i : ℕ) (a : A) (n : ℕ)
      → i < n
      → load (update f i a) n + weight (f i) ≡ load f n + weight a
  load-update f i a n lt = ground (arith, load-change f i a n)

  pub load-le : (k : ℕ) → ((a : A) → weight a ≤ k) → (f : ℕ → A) (n : ℕ) → load f n ≤ n * k
  unfolding load
  load-le k small f zero = omega arith
  load-le k small f (suc n) = omega (arith, small (f n), load-le k small f n)
