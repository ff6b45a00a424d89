-- ===== src/Tests/Store.antt =====
-- internal/nest/topology.go against a server that keeps one key in memory.
use hamstergres.Base.{
  ◌≡◌, refl, sym, ap, subst, ℕ, suc, ◌<◌, String, Bool, true, false, [], ◌∷◌, Option, none, some,
  ok, arith, All, contains, if◌then◌else◌, is_blank,
}
use hamstergres.Base.GoMap.{get, put, delete}
use hamstergres.Topology.Catalog.{Catalog, valid_state, is_routable, state_eq}
use hamstergres.Topology.Validate.{
  validate, check_fields, check_burrows, check_burrow, check_tunnels, check_labels, check_owner,
  check_owners, check_indexes, check_distribution, check_distributions, check_tables,
}
use hamstergres.Topology.Validate.Catalogs.{validate_iff}
use hamstergres.Topology.Transition.{validate_transition}
use hamstergres.Schema.{Registry, canonical_sharded_tables, sharded_of, new_registry}
use hamstergres.Nest.Etcd.{Entry, Etcd, revision_of, IsOlder}
use hamstergres.Nest.TopologyStore.{
  Stored, StoredTopology, get_reply, attempt, prepare_bootstrap, prepare_update, reconciled,
  Connection, reconcile_schema,
}
use hamstergres.Nest.TopologyStore.Published.{
  first, Published, absent, bootstrapped, updated, LeadsTo, Published-History,
}
use hamstergres.Nest.TopologyStore.Reconciled.{or_bootstrap, reconciled_accepted}
use hamstergres.Nest.TopologyStore.Settles.{IsQuiet, entry, stored, reconcile_settles}
use hamstergres.Tests.Memory.{in_memory, same, same-eq, eq-same}
use hamstergres.Tests.Schema.{registry}
use hamstergres.Tests.Topology.{c₁, c₂, c₁_valid, step₁, both}

abbrev e₁ : Entry Stored
e₁ = record { value = some c₁; mod_revision = 1 }

abbrev e₂ : Entry Stored
e₂ = record { value = some c₂; mod_revision = 2 }

abbrev stored₁ : StoredTopology
stored₁ = record { catalog = c₁; mod_revision = 1 }

ready₁ : prepare_bootstrap c₁ ≡ ok (attempt 0 c₁)
unfolding prepare_bootstrap
ready₁ = rw c₁_valid refl

read₁ : get_reply (some e₁) ≡ ok (some stored₁)
unfolding get_reply
read₁ = rw c₁_valid refl

ready₂ : prepare_update stored₁ c₂ ≡ ok (attempt 1 c₂)
unfolding prepare_update
ready₂ = rw step₁ refl

two_writes : Published in_memory (some e₂) (e₂ ∷ e₁ ∷ [])
two_writes =
    updated e₁ stored₁ c₂ (attempt 1 c₂) e₂
      (bootstrapped c₁ (attempt 0 c₁) e₁ (absent none refl) ready₁ refl refl) first read₁ ready₂
      refl refl

Published-History_example :
    (some e₂ ≡ some e₂)
    × ((last : Catalog) × (e₂.value ≡ some last) × All (LeadsTo in_memory last) (e₂ ∷ e₁ ∷ []))
Published-History_example = Published-History in_memory two_writes

abbrev c_boot : Catalog
c_boot = record c₁ {
  distributions = record both { id = "distribution-bootstrap-0001" } ∷ [];
  table_distributions = ("public.old", "distribution-bootstrap-0001") ∷ [];
}

c_boot_valid : validate c_boot ≡ ok tt
unfolding validate check_fields check_burrows check_burrow check_tunnels check_labels check_owner
    check_owners check_indexes check_distribution check_distributions check_tables valid_state
    is_routable state_eq is_blank get put delete
c_boot_valid = refl

abbrev fingerprint : Registry → String
fingerprint r = "sha256:2"

reconciled_accepted_example :
    (validate_transition c_boot (reconciled fingerprint registry 9 c_boot) ≡ ok tt)
    × ((t : String)
        → get t (reconciled fingerprint registry 9 c_boot).table_distributions ≡ (
            if contains t (canonical_sharded_tables registry)
            then some (or_bootstrap (get t c_boot.table_distributions))
            else none))
unfolding get is_blank sharded_of new_registry
reconciled_accepted_example =
    reconciled_accepted fingerprint registry 9 c_boot ((validate_iff c_boot).0 c_boot_valid) refl
      (refl, tt) (omega arith) (λ e. cc) (omega arith) (omega arith)

-- A server whose revisions start at 1: the store keeps a value and the revision before its own.
abbrev Kept : Type 0
Kept = Option (Stored × ℕ)

abbrev kept_entry : Kept → Option (Entry Stored)
kept_entry none = none
kept_entry (some (v, n)) = some (record { value = v; mod_revision = suc n })

abbrev before : Option ℕ → ℕ
before none = 0
before (some r) = r

abbrev keep : Option ℕ → Stored → Kept → Option Kept
keep expected v s =
    if same expected (revision_of (kept_entry s)) then some (some (v, before expected)) else none

before-IsOlder : (r : Option ℕ) → IsOlder r (suc (before r))
before-IsOlder none = tt
before-IsOlder (some r) = omega arith

keep_puts :
    (expected : Option ℕ) (v : Stored) (s t : Kept)
    → keep expected v s ≡ some t
    → (r : ℕ) × (kept_entry t ≡ some (record { value = v; mod_revision = r })) × IsOlder expected r
keep_puts expected v s t h =
    let is_t : some (v, before expected) ≡ t = ground arith in
    (suc (before expected), ap kept_entry (sym is_t), before-IsOlder expected)

abbrev counting : Etcd Stored
counting = record {
  Store = Kept;
  range = kept_entry;
  txn = keep;
  txn_compares = λ expected v s t h. same-eq expected (revision_of (kept_entry s)) (ground arith);
  txn_applies = λ expected v s h.
      (some (v, before expected), rw (eq-same expected (revision_of (kept_entry s)) h) refl);
  txn_puts = keep_puts;
}

abbrev answered : Kept → Option Kept → Option Bool × Kept
answered w none = (some false, w)
answered w (some t) = (some true, t)

-- One proxy, at the time 9.
abbrev quiet : Connection
quiet = record {
  World = Kept;
  range = λ w. (some (kept_entry w), w);
  swap = λ a w. answered w (keep a.expected (some a.catalog) w);
  now = λ w. 9;
}

kept_positive : (s : Kept) (e : Entry Stored) → kept_entry s ≡ some e → 0 < e.mod_revision
kept_positive none e h = cc
kept_positive (some (v, n)) e h =
    let same : suc n ≡ e.mod_revision = cc in subst (λ r. 0 < r) same (omega arith)

quiet-IsQuiet : IsQuiet counting quiet
quiet-IsQuiet = record {
  store = λ w. w;
  range_replies = λ w. refl;
  swap_replies = λ a w t h. (t, ap (answered w) h, refl);
  positive = kept_positive;
}

abbrev booted : Kept
booted = some (some c_boot, 0)

reconcile_settles_example :
    (w' : Kept) × (rev : ℕ) × (kept_entry w'
      ≡ some (entry (reconciled fingerprint registry 9 c_boot) rev))
    × (reconcile_schema quiet fingerprint registry booted
        ≡ (ok (stored (reconciled fingerprint registry 9 c_boot) rev), w'))
unfolding get is_blank sharded_of new_registry quiet-IsQuiet
reconcile_settles_example =
    reconcile_settles counting quiet quiet-IsQuiet fingerprint registry booted c_boot 1 refl
      ((validate_iff c_boot).0 c_boot_valid) refl (refl, tt) (omega arith) (λ e. cc) (omega arith)
      (omega arith)
