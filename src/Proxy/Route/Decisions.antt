-- ===== src/Proxy/Route/Decisions.antt =====
-- What `routePlan` of internal/proxy/server.go may decide.
use hamstergres.Base.{
  ◌≡◌, ◌⊎◌, inl, inr, refl, sym, ◌∙◌, ℕ, suc, zero, ◌%◌, ◌<◌, String, str_eq, eq_refl, Bool, true,
  false, ◌||◌, List, [], ◌∷◌, Option, none, some, contains, arith, if-cases, length, get_elem?,
  get_elem?_total, ◌≢◌, not, subst, eq_iff, Bool-cases, if◌then◌else◌,
}
use hamstergres.Base.Sort.{sort, contains-sort}
use hamstergres.Topology.Bootstrap.Owners.{length-sort}
use hamstergres.Router.Statement.{RoutePlan}
use hamstergres.Proxy.Route.{
  Unsharded, RouteDecision, balanced_burrow, random_burrow, is_none_left, undecided, single_target,
  route_plan,
}

contains-get_elem? :
    (xs : List String) (i : ℕ) (x : String) → get_elem? xs i ≡ some x → contains x xs ≡ true
contains-get_elem? [] i x e = cc
contains-get_elem? (y ∷ ys) zero x e = ground (arith, eq_refl x)
contains-get_elem? (y ∷ ys) (suc i) x e = ground (arith, contains-get_elem? ys i x e)

modulo-lt : (n m : ℕ) → n % suc m < suc m
modulo-lt n m = omega arith

-- An element at an index within the bounds.
abbrev element : Option String → String
element none = ""
element (some x) = x

contains-element :
    (xs : List String) (i : ℕ) → i < length xs → contains (element (get_elem? xs i)) xs ≡ true
contains-element xs i small =
    let (x, e) = get_elem?_total xs i small in rw e (contains-get_elem? xs i x e)

contains-balanced :
    (counter : ℕ) (b : String) (bs : List String)
    → contains (balanced_burrow counter (b ∷ bs)) (b ∷ bs) ≡ true
unfolding balanced_burrow
contains-balanced counter b bs =
    sym (contains-sort (balanced_burrow counter (b ∷ bs)) (b ∷ bs))
    ∙ contains-element (sort (b ∷ bs)) (counter % length (b ∷ bs))
        (omega (arith, length-sort (b ∷ bs), modulo-lt counter (length bs)))

contains-random :
    (value : Option ℕ) (b : String) (bs : List String)
    → contains (random_burrow value (b ∷ bs)) (b ∷ bs) ≡ true
unfolding random_burrow
contains-random none b bs = ground (arith, eq_refl b)
contains-random (some v) b bs =
    contains-element (b ∷ bs) (v % length (b ∷ bs)) (modulo-lt v (length bs))

-- The target and the route of a decision. A Burrow that is listed may be any of them.
pub data Decides (u : Unsharded) (plan : RoutePlan) (burrows : List String)
    : String → Bool → Type 0 where
  single_left_open :
      plan.single_burrow ≡ true → burrows ≡ [] → Decides u plan burrows plan.target plan.routed
  single_primary :
      plan.single_burrow ≡ true
      → burrows ≢ []
      → u.primary_mode ≡ true
      → Decides u plan burrows u.primary (not (str_eq u.primary ""))
  single_listed :
      {t : String}
      → plan.single_burrow ≡ true
      → burrows ≢ []
      → u.primary_mode ≡ false
      → contains t burrows ≡ true
      → Decides u plan burrows t (not (str_eq t ""))
  routed_before :
      plan.single_burrow ≡ false → plan.routed ≡ true → Decides u plan burrows plan.target true
  left_open :
      plan.single_burrow ≡ false
      → plan.routed ≡ false
      → (plan.table ≡ "") ⊎ (plan.sharded ≡ true)
      → Decides u plan burrows plan.target false
  primary :
      plan.single_burrow ≡ false
      → plan.routed ≡ false
      → plan.table ≢ ""
      → plan.sharded ≡ false
      → u.primary_mode ≡ true
      → Decides u plan burrows u.primary true
  replicated_write :
      plan.single_burrow ≡ false
      → plan.routed ≡ false
      → plan.table ≢ ""
      → plan.sharded ≡ false
      → u.primary_mode ≡ false
      → (plan.write ≡ true) ⊎ (burrows ≡ [])
      → Decides u plan burrows plan.target false
  replicated_read :
      {t : String}
      → plan.single_burrow ≡ false
      → plan.routed ≡ false
      → plan.table ≢ ""
      → plan.sharded ≡ false
      → u.primary_mode ≡ false
      → plan.write ≡ false
      → contains t burrows ≡ true
      → Decides u plan burrows t true

is_none_left-empty : (bs : List String) → is_none_left bs ≡ true → bs ≡ []
is_none_left-empty [] e = refl
is_none_left-empty (b ∷ bs) e = cc

is_none_left-filled : (bs : List String) → is_none_left bs ≡ false → bs ≢ []
is_none_left-filled [] e same = cc
is_none_left-filled (b ∷ bs) e same = cc

contains-random_burrow :
    (value : Option ℕ) (bs : List String)
    → is_none_left bs ≡ false
    → contains (random_burrow value bs) bs ≡ true
contains-random_burrow value [] e = cc
contains-random_burrow value (b ∷ bs) e = contains-random value b bs

contains-balanced_burrow :
    (counter : ℕ) (bs : List String)
    → is_none_left bs ≡ false
    → contains (balanced_burrow counter bs) bs ≡ true
contains-balanced_burrow counter [] e = cc
contains-balanced_burrow counter (b ∷ bs) e = contains-balanced counter b bs

module _ (u : Unsharded) (counter : ℕ) (value : Option ℕ) (plan : RoutePlan)
    (burrows : List String) where
  abbrev IsDecided : RouteDecision → Type 0
  IsDecided d = Decides u plan burrows d.target d.routed

  single_target-Decides :
      plan.single_burrow ≡ true
      → is_none_left burrows ≡ false
      → Decides u plan burrows
          (single_target u counter value plan burrows)
          (not (str_eq (single_target u counter value plan burrows) ""))
  single_target-Decides single e =
      if-cases Single u.primary_mode (λ p. single_primary single filled p)
        (λ p.
          if-cases Single plan.deterministic
            (λ d. single_listed single filled p (contains-balanced_burrow counter burrows e))
            (λ d. single_listed single filled p (contains-random_burrow value burrows e)))
    where
      filled : burrows ≢ []
      filled = is_none_left-filled burrows e

      Single : String → Type 0
      Single t = Decides u plan burrows t (not (str_eq t ""))

  undecided-IsDecided :
      plan.single_burrow ≡ false
      → (plan.routed || str_eq plan.table "" || plan.sharded) ≡ true
      → IsDecided (undecided plan)
  undecided-IsDecided single e = elim (Bool-cases plan.routed) [
    | inl routed ↦
        subst (Decides u plan burrows plan.target) (sym routed) (routed_before single routed)
    | inr open' ↦ subst (Decides u plan burrows plan.target) (sym open') (
        left_open single open' (elim (Bool-cases plan.sharded) [
          | inl sharded ↦ inr sharded
          | inr unsharded ↦ inl ((eq_iff plan.table "").0 (ground arith))
        ]))
  ]

  decides_unsharded :
      plan.single_burrow ≡ false
      → plan.routed ≡ false
      → plan.table ≢ ""
      → plan.sharded ≡ false
      → IsDecided (
          if u.primary_mode
          then record (undecided plan) { target = u.primary; routed = true }
          else if plan.write || is_none_left burrows
          then undecided plan
          else record (undecided plan) { target = random_burrow value burrows; routed = true })
  decides_unsharded single open' named unsharded =
      if-cases IsDecided u.primary_mode (λ p. primary single open' named unsharded p)
        (λ p.
          if-cases IsDecided (plan.write || is_none_left burrows)
            (λ w.
              subst (Decides u plan burrows plan.target) (sym open')
                (replicated_write single open' named unsharded p (held w)))
            (λ w.
              replicated_read single open' named unsharded p (ground arith)
                (contains-random_burrow value burrows (ground arith))))
    where
      held : (plan.write || is_none_left burrows) ≡ true → (plan.write ≡ true) ⊎ (burrows ≡ [])
      held w = elim (Bool-cases plan.write) [
        | inl writes ↦ inl writes
        | inr reads ↦ inr (is_none_left-empty burrows (ground arith))
      ]

-- A plan for a single Burrow is left as it is if no Burrow is listed; else it goes to the primary
-- where unsharded tables live there, else to a listed Burrow, and it is routed if that has a name.
-- Any other plan that is routed keeps its target. A statement that is not, on a named table that is
-- not sharded, goes to the primary where those tables live, else, if it is a read and a Burrow is
-- listed, to a listed one. Every other statement stays unrouted, with the target of its plan.
pub route_plan-Decides :
    (u : Unsharded) (counter : ℕ) (value : Option ℕ) (plan : RoutePlan) (burrows : List String)
    → Decides u plan burrows
        (route_plan u counter value plan burrows).target
        (route_plan u counter value plan burrows).routed
unfolding route_plan
route_plan-Decides u counter value plan burrows =
    if-cases Good plan.single_burrow
      (λ s.
        if-cases Good (is_none_left burrows)
          (λ e. single_left_open s (is_none_left-empty burrows e))
          (λ e. single_target-Decides u counter value plan burrows s e))
      (λ s.
        if-cases Good (plan.routed || str_eq plan.table "" || plan.sharded)
          (λ e. undecided-IsDecided u counter value plan burrows s e)
          (λ e.
            let differs : str_eq plan.table "" ≡ false = ground arith in
            decides_unsharded u counter value plan burrows s (ground arith)
              (λ same. cc (differs, (eq_iff plan.table "").1 same)) (ground arith)))
  where
    Good : RouteDecision → Type 0
    Good d = Decides u plan burrows d.target d.routed
