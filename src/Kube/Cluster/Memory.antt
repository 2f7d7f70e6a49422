-- ===== src/Kube/Cluster/Memory.antt =====
-- A cluster kept in lists, in which every documented law holds and the theorems run. The caches
-- follow the store, except that the pods change along a schedule at the pauses of the retry loop.
pub mod Laws
pub mod Patience
use mathlib.Core.Option
use union_csi.Base.{
  ℕ, zero, suc, String, ◌<>◌, Bool, true, false, ◌&&◌, ◌||◌, Option, none, some, List, [], ◌∷◌,
  ◌==◌, string_eq, is_some, if◌then◌else◌,
}
use union_csi.Failure.{
  Err, sentinel, foreign, errorf, wrap_first, wrap_both, Result, ok, err, panic,
}
use union_csi.Kube.{VolumeSplit, PersistentVolumeClaim, Pod}
use union_csi.Kube.Cluster.{Cluster, Backoff, Polled, polled, crashed, Condition}

pub record Store : Type 0 where
  pub splits : List VolumeSplit
  pub claims : List PersistentVolumeClaim
  pub nodes : List String
  pub pods : List Pod
  -- the pods after each pause
  pub schedule : List (List Pod)

abbrev pub missing : Err
missing = foreign "not found"

abbrev pub existing : Err
existing = foreign "already exists"

-- Whether an error is, or wraps, the foreign error with this text.
unfoldable pub has_reason : String → Err → Bool
has_reason text (sentinel s) = false
has_reason text (foreign t) = t == text
has_reason text (errorf site) = false
has_reason text (wrap_first a b) = has_reason text a
has_reason text (wrap_both a b) = has_reason text a || has_reason text b

unfoldable pub find_split : String → List VolumeSplit → Option VolumeSplit
find_split n [] = none
find_split n (s ∷ ss) = if n == s.name then some s else find_split n ss

unfoldable pub drop_split : String → List VolumeSplit → List VolumeSplit
drop_split n [] = []
drop_split n (s ∷ ss) = let rest = drop_split n ss in if n == s.name then rest else s ∷ rest

unfoldable pub find_claim :
    String → String → List PersistentVolumeClaim → Option PersistentVolumeClaim
find_claim ns n [] = none
find_claim ns n (c ∷ cs) = if ns == c.namespace && n == c.name then some c else find_claim ns n cs

unfoldable pub drop_claim :
    String → String → List PersistentVolumeClaim → List PersistentVolumeClaim
drop_claim ns n [] = []
drop_claim ns n (c ∷ cs) =
    let rest = drop_claim ns n cs in if ns == c.namespace && n == c.name then rest else c ∷ rest

unfoldable pub find_pod : String → String → List Pod → Option Pod
find_pod ns n [] = none
find_pod ns n (p ∷ ps) = if ns == p.namespace && n == p.name then some p else find_pod ns n ps

unfoldable pub has_node : String → List String → Bool
has_node n [] = false
has_node n (m ∷ ms) = n == m || has_node n ms

abbrev pub listed : {A : Type 0} → Option A → Option A × Option Err
listed none = (none, some missing)
listed (some a) = (some a, none)

abbrev pub pause : Store → Store
pause w = elim w.schedule [ [] ↦ w | ps ∷ rest ↦ record w { pods = ps; schedule = rest } ]

-- The loop polls, and pauses if it may poll again.
unfoldable pub retry :
    {C : Type 0} → ℕ → Condition Store C → Store → C → Result (Unit {0}) × Store × C
retry zero poll w c = (err (foreign "timed out waiting for the condition"), w, c)
retry (suc n) poll w c =
    let (answer, c') = poll w c in
    elim answer [
      | crashed ↦ (panic, w, c')
      | polled b (some e) ↦ (err e, w, c')
      | polled true none ↦ (ok tt, w, c')
      | polled false none ↦ retry n poll (pause w) c'
    ]

unfoldable pub post_split : VolumeSplit → VolumeSplit → Store → (VolumeSplit × Option Err) × Store
post_split s r w =
    if is_some (find_split s.name w.splits)
    then ((r, some existing), w)
    else ((s, none), record w { splits = s ∷ w.splits })

unfoldable pub fetch_split : String → VolumeSplit → Store → (VolumeSplit × Option Err) × Store
fetch_split n r w = elim (find_split n w.splits) [
  | none ↦ ((r, some missing), w)
  | some s ↦ ((s, none), w)
]

unfoldable pub remove_split : String → Store → Option Err × Store
remove_split n w =
    if is_some (find_split n w.splits)
    then (none, record w { splits = drop_split n w.splits })
    else (some missing, w)

unfoldable pub post_claim : String → PersistentVolumeClaim → Store → Option Err × Store
post_claim ns c w =
    if is_some (find_claim ns c.name w.claims)
    then (some existing, w)
    else (none, record w { claims = record c { namespace = ns } ∷ w.claims })

unfoldable pub remove_claim : String → String → Store → Option Err × Store
remove_claim ns n w =
    if is_some (find_claim ns n w.claims)
    then (none, record w { claims = drop_claim ns n w.claims })
    else (some missing, w)

unfoldable pub post_pod : String → Pod → Store → Option Err × Store
post_pod ns p w =
    if is_some (find_pod ns p.name w.pods)
    then (some existing, w)
    else (none, record w { pods = record p { namespace = ns } ∷ w.pods })

-- A deletion is carried out later, by the schedule.
unfoldable pub remove_pod : String → String → Store → Option Err × Store
remove_pod ns n w = if is_some (find_pod ns n w.pods) then (none, w) else (some missing, w)

abbrev pub memory : Cluster
memory = record {
  World = Store;
  is_not_found = has_reason "not found";
  is_already_exists = has_reason "already exists";
  rest_get = fetch_split;
  rest_post = post_split;
  rest_delete = remove_split;
  claim_lister = λ ns n w. listed (find_claim ns n w.claims);
  pod_lister = λ ns n w. listed (find_pod ns n w.pods);
  node_lister = λ n w. if has_node n w.nodes then none else some missing;
  create_claim = post_claim;
  delete_claim = remove_claim;
  create_pod = post_pod;
  delete_pod = remove_pod;
  exponential_backoff = λ C b. retry b.steps;
  sha256_hex = λ s. "digest-of-" <> s;
}
