-- ===== src/Nest/TopologyStore.antt =====
-- `TopologyStore` of internal/nest/topology.go: the catalog of the fleet, changed by
-- compare-and-swap. A value of the key is a catalog, or `none` for what is none in JSON.
pub mod Replies
pub mod Published
pub mod Reconciled
pub mod Settles
use hamstergres.Base.{
  ℕ, zero, suc, ◌+◌, ◌%◌, ◌^◌, ◌==◌, pos, String, Bool, true, false, List, [], ◌∷◌, Option, none,
  some, is_present, contains, Result, ok, err, ◌>>=◌, ◌>>◌, refuse, if◌then◌else◌,
}
use hamstergres.Base.GoMap.{GoMap, get, put}
use hamstergres.Topology.Catalog.{Catalog, SchemaCompatibility, bootstrap_distribution}
use hamstergres.Topology.Validate.{Error, validate}
use hamstergres.Topology.Transition.{TransitionError, validate_transition, next_revision}
use hamstergres.Schema.{Registry, canonical_sharded_tables, registry_format}
use hamstergres.Nest.Etcd.{Entry}

pub data TopologyError : Type 0 where
  unreachable invalid_value invalid_mod_revision conflict repeated_conflicts : TopologyError
  no_winner no_created no_updated no_topology : TopologyError
  invalid_topology : Error → TopologyError
  invalid_transition : TransitionError → TopologyError

pub record StoredTopology : Type 0 where
  pub catalog : Catalog
  pub mod_revision : ℕ  -- int64, positive

abbrev pub Stored : Type 0
Stored = Option Catalog

abbrev pub or_invalid {ℓ κ μ} :
    {E : Type ℓ} {F : Type κ} {A : Type μ} → (E → F) → Result E A → Result F A
or_invalid f (ok a) = ok a
or_invalid f (err e) = err (f e)

abbrev pub decoded : Stored → Result TopologyError Catalog
decoded none = err invalid_value
decoded (some c) = ok c

-- What `Get` makes of the server's reply.
unfoldable pub get_reply : Option (Entry Stored) → Result TopologyError (Option StoredTopology)
get_reply none = ok none
get_reply (some e) = do
  c ← decoded e.value
  or_invalid invalid_topology (validate c)
  refuse (e.mod_revision == 0) invalid_mod_revision
  ok (some (record { catalog = c; mod_revision = e.mod_revision }))

-- A transaction of `compareAndSwap`: `expected` is the compared MOD revision, or `none` for
-- CREATE 0.
pub record Attempt : Type 0 where
  pub expected : Option ℕ
  pub catalog : Catalog

abbrev pub expected_of : ℕ → Option ℕ
expected_of zero = none
expected_of (suc n) = some (suc n)

abbrev pub attempt : ℕ → Catalog → Attempt
attempt revision c = record { expected = expected_of revision; catalog = c }

-- `VerifyOrBootstrap` and `Update`, up to their calls of `compareAndSwap`.
unfoldable pub prepare_bootstrap : Catalog → Result TopologyError Attempt
prepare_bootstrap bootstrap = do
  or_invalid invalid_topology (validate bootstrap)
  ok (attempt 0 bootstrap)

unfoldable pub prepare_update : StoredTopology → Catalog → Result TopologyError Attempt
prepare_update current next = do
  or_invalid invalid_transition (validate_transition current.catalog next)
  ok (attempt current.mod_revision next)

-- for _, table := range registry.CanonicalShardedTables(). A nil map, to which the source cannot write,
-- is not told from an empty one: no catalog that the program makes has it.
unfoldable pub add_tables : List String → GoMap String → GoMap String
add_tables [] m = m
add_tables (t ∷ ts) m =
    add_tables ts (if is_present (get t m) then m else put t bootstrap_distribution m)

-- for table := range next.TableDistributions
unfoldable pub keep_tables : List String → GoMap String → GoMap String
keep_tables sharded [] = []
keep_tables sharded ((t, d) ∷ m) =
    let rest = keep_tables sharded m in if contains t sharded then (t, d) ∷ rest else rest

-- The catalog that `ReconcileSchema` proposes. The fingerprint of the registry is a hash that a
-- third-party package computes.
unfoldable pub reconciled : (Registry → String) → Registry → ℕ → Catalog → Catalog
reconciled fingerprint r now current =
    let sharded = canonical_sharded_tables r in
    record current {
      table_distributions = keep_tables sharded (add_tables sharded current.table_distributions);
      compatibility = record {
        registry_format = pos registry_format;
        revision = r.revision;
        fingerprint = fingerprint r;
      };
      revision = next_revision current.revision;
      change = record {
        actor = "hamstergres-proxy";
        reason = "reconcile successful fleet-wide schema change";
        timestamp = now;
      };
    }

-- The proxy's side of the connection: a request changes the world, which holds the server and all
-- that others do between two requests of this one. No reply is `none`.
pub record Connection : Type 1 where
  pub World : Type 0
  pub range : World → Option (Option (Entry Stored)) × World
  pub swap : Attempt → World → Option Bool × World
  pub now : World → ℕ

module _ (connection : Connection) where
  open connection use {World, range, swap, now}

  abbrev pub Outcome {ℓ} : Type ℓ → Type ℓ
  Outcome A = Result TopologyError A × World

  abbrev pub got : Option (Option (Entry Stored)) × World → Outcome (Option StoredTopology)
  got (none, w) = (err unreachable, w)
  got (some reply, w) = (get_reply reply, w)

  unfoldable pub get_topology : World → Outcome (Option StoredTopology)
  get_topology w = got (range w)

  abbrev pub swapped : Option Bool × World → Outcome (Unit {0})
  swapped (none, w) = (err unreachable, w)
  swapped (some true, w) = (ok tt, w)
  swapped (some false, w) = (err conflict, w)

  unfoldable pub compare_and_swap : Attempt → World → Outcome (Unit {0})
  compare_and_swap a w = swapped (swap a w)

  -- What is read back; its absence is an error.
  abbrev pub must_find : TopologyError → Outcome (Option StoredTopology) → Outcome StoredTopology
  must_find missing (err e, w) = (err e, w)
  must_find missing (ok none, w) = (err missing, w)
  must_find missing (ok (some stored), w) = (ok stored, w)

  abbrev pub after_swap : Outcome (Unit {0}) → Outcome StoredTopology
  after_swap (err e, w) = (err e, w)
  after_swap (ok done, w) = must_find no_updated (get_topology w)

  abbrev pub try_update : Result TopologyError Attempt → World → Outcome StoredTopology
  try_update (err e) w = (err e, w)
  try_update (ok a) w = after_swap (compare_and_swap a w)

  unfoldable pub update : StoredTopology → Catalog → World → Outcome StoredTopology
  update current next w = try_update (prepare_update current next) w

  -- A lost creation reads the winner.
  abbrev pub after_create : Outcome (Unit {0}) → Outcome StoredTopology
  after_create (err conflict, w) = must_find no_winner (get_topology w)
  after_create (err e, w) = (err e, w)
  after_create (ok done, w) = must_find no_created (get_topology w)

  abbrev pub try_create : Result TopologyError Attempt → World → Outcome StoredTopology
  try_create (err e) w = (err e, w)
  try_create (ok a) w = after_create (compare_and_swap a w)

  abbrev pub create_missing : Catalog → Outcome (Option StoredTopology) → Outcome StoredTopology
  create_missing bootstrap (err e, w) = (err e, w)
  create_missing bootstrap (ok (some stored), w) = (ok stored, w)
  create_missing bootstrap (ok none, w) = try_create (prepare_bootstrap bootstrap) w

  unfoldable pub verify_or_bootstrap : Catalog → World → Outcome StoredTopology
  verify_or_bootstrap bootstrap w = create_missing bootstrap (get_topology w)

  module _ (fingerprint : Registry → String) (r : Registry) where
    -- `errors.Is(err, ErrTopologyConflict)`: the next attempt.
    abbrev pub or_again :
        (World → Outcome StoredTopology) → Outcome StoredTopology → Outcome StoredTopology
    or_again again (err conflict, w) = again w
    or_again again (err e, w) = (err e, w)
    or_again again (ok stored, w) = (ok stored, w)

    abbrev pub reconcile_found :
        (World → Outcome StoredTopology) → Outcome (Option StoredTopology) → Outcome StoredTopology
    reconcile_found again (err e, w) = (err e, w)
    reconcile_found again (ok none, w) = (err no_topology, w)
    reconcile_found again (ok (some current), w) =
        or_again again (update current (reconciled fingerprint r (now w) current.catalog) w)

    -- for attempt := 0; attempt < 3; attempt++
    unfoldable pub reconcile_loop : ℕ → World → Outcome StoredTopology
    reconcile_loop zero w = (err repeated_conflicts, w)
    reconcile_loop (suc n) w = reconcile_found (reconcile_loop n) (get_topology w)

    abbrev pub reconcile_schema : World → Outcome StoredTopology
    reconcile_schema w = reconcile_loop 3 w
