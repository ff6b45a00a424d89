-- ===== src/Nest/TopologyStore/Reconciled.antt =====
-- `ReconcileSchema` of internal/nest/topology.go proposes a catalog that may follow the current one.
use hamstergres.Base.{
  ◌≡◌, ◌≢◌, refl, sym, ap, ◌∙◌, ℕ, ◌+◌, ◌<◌, ◌^◌, ◌||◌, String, str_eq, eq_iff, eq_refl, true,
  false, List, [], ◌∷◌, map, Option, none, some, is_present, contains, All, All-map, IsFresh,
  contains-IsFresh, find_by, arith, if◌then◌else◌, if-cases, is_blank, ok,
}
use hamstergres.Base.GoMap.{GoMap, get, put, delete, get-put}
use hamstergres.Topology.Catalog.{
  BurrowState, adding, ready, draining, removed, other, Burrow, Distribution, Catalog,
  bootstrap_distribution, state_eq, valid_transition,
}
use hamstergres.Topology.WellFormed.{burrow_id, distribution_id, IsWellFormed, IsPlaced}
use hamstergres.Topology.Transition.{validate_transition}
use hamstergres.Topology.Transition.Steps.{IsSuccessor, IsAllowed, KeepsCount}
use hamstergres.Topology.Transition.Allowed.{validate_transition_iff}
use hamstergres.Schema.{Registry, canonical_sharded_tables}
use hamstergres.Nest.TopologyStore.{add_tables, keep_tables, reconciled}

module _ {A : Type 0} (key : A → String) where
  abbrev IsFound : List A → A → Type 0
  IsFound xs x = find_by key (key x) xs ≡ some x

  All-IsFound-cons :
      (x : A) (xs ys : List A)
      → contains (key x) (map key ys) ≡ false
      → All (IsFound xs) ys
      → All (IsFound (x ∷ xs)) ys
  All-IsFound-cons x xs [] out h = tt
  All-IsFound-cons x xs (y ∷ ys) out h = (
    ground (arith, h.0, eq_iff (key x) (key y), eq_iff (key y) (key x)),
    All-IsFound-cons x xs ys (ground arith) h.1,
  )

  -- Where the keys differ, each element is the one that its key finds.
  All-IsFound : (seen : List String) (xs : List A) → IsFresh seen (map key xs) → All (IsFound xs) xs
  All-IsFound seen [] f = tt
  All-IsFound seen (x ∷ xs) f = (
    ground (arith, eq_refl (key x)),
    All-IsFound-cons x xs xs
        (ground (arith, contains-IsFresh (key x ∷ seen) (map key xs) (key x) f.1, eq_refl (key x)))
        (All-IsFound (key x ∷ seen) xs f.1),
  )

state_eq_self : (s : BurrowState) → state_eq s s ≡ true
unfolding state_eq
state_eq_self adding = refl
state_eq_self ready = refl
state_eq_self draining = refl
state_eq_self removed = refl
state_eq_self (other s) = eq_refl s

valid_transition_self : (s : BurrowState) → valid_transition s s ≡ true
unfolding valid_transition
valid_transition_self s = rw (state_eq_self s) refl

IsAllowed-self : (b : Burrow) (o : Option Burrow) → o ≡ some b → IsAllowed o b
IsAllowed-self b none e = cc
IsAllowed-self b (some c) e =
    let same : b ≡ c = cc in
    ap (λ x. valid_transition x.state b.state) (sym same) ∙ valid_transition_self b.state

KeepsCount-self : (d : Distribution) (o : Option Distribution) → o ≡ some d → KeepsCount o d
KeepsCount-self d none e = cc
KeepsCount-self d (some c) e = let same : c ≡ d = cc in ap (λ x. x.vshard_count) same

-- Every table has a name and a listed distribution.
module _ (ds : List Distribution) where
  All-IsPlaced-delete :
      (k : String) (m : GoMap String) → All (IsPlaced ds) m → All (IsPlaced ds) (delete k m)
  unfolding delete
  All-IsPlaced-delete k [] h = tt
  All-IsPlaced-delete k ((t, d) ∷ m) h =
      if-cases (All (IsPlaced ds)) (str_eq t k) (λ e. All-IsPlaced-delete k m h.1)
        (λ e. (h.0, All-IsPlaced-delete k m h.1))

  All-IsPlaced-add :
      (ts : List String) (m : GoMap String)
      → contains bootstrap_distribution (map distribution_id ds) ≡ true
      → All (λ t. is_blank t ≡ false) ts
      → All (IsPlaced ds) m
      → All (IsPlaced ds) (add_tables ts m)
  unfolding add_tables put
  All-IsPlaced-add [] m b n h = h
  All-IsPlaced-add (t ∷ ts) m b n h =
      All-IsPlaced-add ts (if is_present (get t m) then m else put t bootstrap_distribution m) b n.1
        (if-cases (All (IsPlaced ds)) (is_present (get t m)) (λ e. h)
          (λ e. ((n.0, b), All-IsPlaced-delete t m h)))

  All-IsPlaced-keep :
      (ts : List String) (m : GoMap String)
      → All (IsPlaced ds) m
      → All (IsPlaced ds) (keep_tables ts m)
  unfolding keep_tables
  All-IsPlaced-keep ts [] h = tt
  All-IsPlaced-keep ts ((t, d) ∷ m) h =
      if-cases (All (IsPlaced ds)) (contains t ts) (λ e. (h.0, All-IsPlaced-keep ts m h.1))
        (λ e. All-IsPlaced-keep ts m h.1)

abbrev pub or_bootstrap : Option String → String
or_bootstrap none = bootstrap_distribution
or_bootstrap (some d) = d

get-add :
    (ts : List String) (m : GoMap String) (k : String)
    → get k (add_tables ts m)
      ≡ (if is_present (get k m) || contains k ts then some (or_bootstrap (get k m)) else none)
unfolding add_tables
get-add [] m k =
    elim (get k m) as (λ o. o ≡ (if is_present o || false then some (or_bootstrap o) else none)) [
      | none ↦ refl
      | some d ↦ refl
    ]
get-add (t ∷ ts) m k =
    get-add ts (if is_present (get t m) then m else put t bootstrap_distribution m) k
    ∙ if-cases
        (λ x.
          (if is_present (get k x) || contains k ts then some (or_bootstrap (get k x)) else none)
          ≡ (if is_present (get k m) || contains k (t ∷ ts)
              then some (or_bootstrap (get k m))
              else none))
        (is_present (get t m)) (λ e. ground (arith, e, eq_iff t k))
        (λ e. ground (arith, e, eq_iff t k, get-put t k bootstrap_distribution m))

get-keep :
    (ts : List String) (m : GoMap String) (k : String)
    → get k (keep_tables ts m) ≡ (if contains k ts then get k m else none)
unfolding keep_tables get
get-keep ts [] k = ground arith
get-keep ts ((t, d) ∷ m) k = ground (arith, get-keep ts m k, eq_iff t k)

IsWellFormed-reconciled :
    (fingerprint : Registry → String) (r : Registry) (now : ℕ) (c : Catalog)
    → IsWellFormed c
    → contains bootstrap_distribution (map distribution_id c.distributions) ≡ true
    → All (λ t. is_blank t ≡ false) (canonical_sharded_tables r)
    → 0 < r.revision
    → fingerprint r ≢ ""
    → c.revision + 1 < 2 ^ 64
    → 0 < now
    → IsWellFormed (reconciled fingerprint r now c)
unfolding reconciled
IsWellFormed-reconciled fingerprint r now c v b n revised printed small later = record {
  stamped = record {
    format = v.stamped.format;
    revised = omega arith;
    schema_format = refl;
    schema_revision = revised;
    schema_fingerprint = printed;
    actor = λ e. cc;
    reason = λ e. cc;
    time = later;
  };
  burrows_valid = v.burrows_valid;
  ids_distinct = v.ids_distinct;
  names_distinct = v.names_distinct;
  distributions_valid = v.distributions_valid;
  distributions_distinct = v.distributions_distinct;
  tables_placed =
      All-IsPlaced-keep c.distributions (canonical_sharded_tables r)
        (add_tables (canonical_sharded_tables r) c.table_distributions)
        (All-IsPlaced-add c.distributions (canonical_sharded_tables r) c.table_distributions b n
          v.tables_placed);
}

-- The catalog that ReconcileSchema proposes may follow the current one: for a well-formed catalog
-- that still lists the bootstrap distribution, below the last revision, a registry of a positive
-- revision with a fingerprint whose sharded tables have names, and a clock that has moved on,
-- `ValidateTransition` accepts it. It places exactly the sharded tables of the registry: a table
-- that was placed keeps its distribution, and a new one has the bootstrap distribution.
pub reconciled_accepted :
    (fingerprint : Registry → String) (r : Registry) (now : ℕ) (c : Catalog)
    → IsWellFormed c
    → contains bootstrap_distribution (map distribution_id c.distributions) ≡ true
    → All (λ t. is_blank t ≡ false) (canonical_sharded_tables r)
    → 0 < r.revision
    → fingerprint r ≢ ""
    → c.revision + 1 < 2 ^ 64
    → c.change.timestamp < now
    → (validate_transition c (reconciled fingerprint r now c) ≡ ok tt)
      × ((t : String)
          → get t (reconciled fingerprint r now c).table_distributions ≡ (
              if contains t (canonical_sharded_tables r)
              then some (or_bootstrap (get t c.table_distributions))
              else none))
unfolding reconciled
reconciled_accepted fingerprint r now c v b n revised printed small later =
    ((validate_transition_iff c (reconciled fingerprint r now c)).1 successor, placed)
  where
    successor : IsSuccessor c (reconciled fingerprint r now c)
    successor = record {
      previous_valid = v;
      next_valid =
          IsWellFormed-reconciled fingerprint r now c v b n revised printed small
            (omega (arith, later));
      revision = refl;
      time = later;
      edges =
          All-map c.burrows (λ x e. IsAllowed-self x (find_by burrow_id x.id c.burrows) e)
            (All-IsFound burrow_id [] c.burrows v.ids_distinct);
      kept = λ k listed. listed;
      counts =
          All-map c.distributions
            (λ x e. KeepsCount-self x (find_by distribution_id x.id c.distributions) e)
            (All-IsFound distribution_id [] c.distributions v.distributions_distinct);
    }

    placed :
        (t : String)
        → get t (
            keep_tables
              (canonical_sharded_tables r)
              (add_tables (canonical_sharded_tables r) c.table_distributions))
          ≡ (if contains t (canonical_sharded_tables r)
              then some (or_bootstrap (get t c.table_distributions))
              else none)
    placed t = ground (
      arith,
      get-keep (canonical_sharded_tables r)
          (add_tables (canonical_sharded_tables r) c.table_distributions) t,
      get-add (canonical_sharded_tables r) c.table_distributions t,
    )
