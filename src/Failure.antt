-- ===== src/Failure.antt =====
-- Go errors and fallible state-passing code: the sentinels of pkg/union/errors.go, `fmt.Errorf` with
-- and without `%w`, `errors.Is`, and a monad for functions that return `(value, error)`.
-- Formatted texts are not modelled: an `fmt.Errorf` is known by the place that makes it.
use union_csi.Base.{String, Bool, true, false, ◌||◌, Option, none, some, Eq, ◌==◌, ◌≡◌, refl, arith}

-- pkg/union/errors.go, and `fs.ErrNotExist` of the standard library.
pub data Sentinel : Type 0 where
  idempotency_incompatible volume_not_found node_not_found attachment_not_found : Sentinel
  volume_in_use not_exist : Sentinel

unfoldable pub Sentinel-discrete : Discrete Sentinel
Sentinel-discrete = hlevel

-- The calls of `fmt.Errorf` with no `%w`, which cut the chain of errors off.
pub data Site : Type 0 where
  access_mode_not_supported access_mode_unknown : Site
  splits_empty create_claim_failed claim_invalid : Site
  get_pod_failed create_pod_failed delete_pod_failed pod_terminating : Site
  capability_unknown capability_unsupported : Site
  source_corrupted source_unreadable source_missing source_not_mounted many_references : Site
  target_corrupted target_unreadable target_taken make_target_failed : Site
  merge_failed unmerge_failed burst_required : Site
  mode_unknown endpoint_unreadable socket_kept protocol_unsupported : Site

pub data Err : Type 0 where
  sentinel : Sentinel → Err
  -- an error of code outside the repository, by its text
  foreign : String → Err
  errorf : Site → Err
  -- fmt.Errorf("%w: %v", a, b)
  wrap_first : Err → Err → Err
  -- fmt.Errorf("%w: %w", a, b)
  wrap_both : Err → Err → Err

instance unfoldable pub sentinel_eq : Eq Sentinel
unfolding Sentinel-discrete
sentinel_eq = record { dec = Sentinel-discrete }

-- `errors.Is`
unfoldable pub is : Err → Sentinel → Bool
unfolding sentinel_eq
is (sentinel s) t = s == t
is (foreign text) t = false
is (errorf site) t = false
is (wrap_first a b) t = is a t
is (wrap_both a b) t = is a t || is b t

-- The result of a Go function: a value, an error with the zero value, or a panic.
pub data Result {ℓ} (A : Type ℓ) : Type ℓ where
  ok : A → Result A
  err : Err → Result A
  panic : Result A

-- `if err != nil { return err }`
abbrev pub check : Option Err → Result (Unit {0})
check none = ok tt
check (some e) = err e

-- Code that acts on a world and may fail. What it did before it failed stays done.
abbrev pub Act : Type 0 → Type 0 → Type 0
Act W A = W → Result A × W

abbrev pub after : {W A B : Type 0} → Result A → (A → Act W B) → Act W B
after (ok a) f w = f a w
after (err e) f w = (err e, w)
after panic f w = (panic, w)

infixl 5 ◌>>=◌ ◌>>◌
abbrev pub ◌>>=◌ : {W A B : Type 0} → Act W A → (A → Act W B) → Act W B
◌>>=◌ m f w = after (m w).0 f (m w).1

abbrev pub ◌>>◌ : {W B : Type 0} → Act W (Unit {0}) → Act W B → Act W B
m >> k = m >>= λ _. k

abbrev pub pure : {W A : Type 0} → A → Act W A
pure a w = (ok a, w)

abbrev pub fail : {W A : Type 0} → Err → Act W A
fail e w = (err e, w)

abbrev pub lift : {W A : Type 0} → Result A → Act W A
lift r w = (r, w)

-- A call that answers with an error or nil, as an action.
abbrev pub call : {W : Type 0} → (W → Option Err × W) → Act W (Unit {0})
call m w = (check (m w).0, (m w).1)

-- What the world satisfies where the first step ends and, if that succeeded, where the rest ends,
-- it satisfies where the chain ends.
pub after_world :
    {W A B : Type 0} (P : W → Type 0) (r : Result A) (f : A → Act W B) (w : W)
    → P w
    → ((a : A) → r ≡ ok a → P (f a w).1)
    → P (after r f w).1
after_world P (ok a) f w here next = next a refl
after_world P (err e) f w here next = here
after_world P panic f w here next = here

-- A chain that succeeds is a first step that succeeds and a rest that succeeds.
pub after-eq-ok :
    {W A B : Type 0} (r : Result A) (f : A → Act W B) (w : W) {b : B}
    → (after r f w).0 ≡ ok b
    → (a : A) × (r ≡ ok a) × ((f a w).0 ≡ ok b) × (after r f w ≡ f a w)
after-eq-ok (ok a) f w h = (a, refl, h, refl)
after-eq-ok (err e) f w h = absurd (ground arith)
after-eq-ok panic f w h = absurd (ground arith)

-- A sentinel is what it is, and nothing else.
pub is-sentinel : (s : Sentinel) → is (sentinel s) s ≡ true
unfolding is
is-sentinel s = ground arith
