-- ===== src/Nest/TopologyStore/Settles.antt =====
-- `ReconcileSchema` of internal/nest/topology.go on a connection that nobody else uses.
use hamstergres.Base.{
  ◌≡◌, ◌≢◌, refl, sym, ap, ◌∙◌, ℕ, zero, suc, ◌+◌, ◌<◌, ◌^◌, ◌==◌, String, true, false, map, some,
  ok, All, arith, contains, is_blank,
}
use hamstergres.Topology.Catalog.{Catalog, bootstrap_distribution}
use hamstergres.Topology.Validate.{validate}
use hamstergres.Topology.Validate.Catalogs.{validate_iff}
use hamstergres.Topology.WellFormed.{distribution_id, IsWellFormed}
use hamstergres.Topology.Transition.{validate_transition}
use hamstergres.Topology.Transition.Allowed.{validate_transition_iff}
use hamstergres.Schema.{Registry, canonical_sharded_tables}
use hamstergres.Nest.Etcd.{Entry, revision_of, Etcd}
use hamstergres.Nest.TopologyStore.{
  StoredTopology, Stored, get_reply, Attempt, attempt, expected_of, prepare_update, reconciled,
  Connection, no_updated, got, get_topology, swapped, compare_and_swap, must_find, after_swap,
  update, or_again, reconcile_found, reconcile_loop, reconcile_schema,
}
use hamstergres.Nest.TopologyStore.Reconciled.{reconciled_accepted}

-- The connection reaches the server, whose revisions start at 1, and no other proxy writes.
pub record IsQuiet (etcd : Etcd Stored) (connection : Connection) : Type 1 where
  pub store : connection.World → etcd.Store
  pub range_replies : (w : connection.World) → connection.range w ≡ (some (etcd.range (store w)), w)
  pub swap_replies :
      (a : Attempt) (w : connection.World) (t : etcd.Store)
      → etcd.txn a.expected (some a.catalog) (store w) ≡ some t
      → (w' : connection.World) × (connection.swap a w ≡ (some true, w')) × (store w' ≡ t)
  pub positive : (s : etcd.Store) (e : Entry Stored) → etcd.range s ≡ some e → 0 < e.mod_revision

abbrev pub entry : Catalog → ℕ → Entry Stored
entry c rev = record { value = some c; mod_revision = rev }

abbrev pub stored : Catalog → ℕ → StoredTopology
stored c rev = record { catalog = c; mod_revision = rev }

get_reply-valid :
    (c : Catalog) (rev : ℕ)
    → validate c ≡ ok tt
    → 0 < rev
    → get_reply (some (entry c rev)) ≡ ok (some (stored c rev))
unfolding get_reply
get_reply-valid c rev v p = rw (v, not_zero) refl
  where
    not_zero : (rev == 0) ≡ false
    not_zero = ground arith

expected_of-suc : (rev : ℕ) → 0 < rev → expected_of rev ≡ some rev
expected_of-suc zero p = absurd (omega arith)
expected_of-suc (suc rev) p = refl

module _ (etcd : Etcd Stored) (connection : Connection) (quiet : IsQuiet etcd connection) where
  open connection use {World, range, swap, now}
  open quiet use {store, range_replies, swap_replies, positive}

  get_topology-valid :
      (w : World) (c : Catalog) (rev : ℕ)
      → etcd.range (store w) ≡ some (entry c rev)
      → validate c ≡ ok tt
      → get_topology connection w ≡ (ok (some (stored c rev)), w)
  unfolding get_topology
  get_topology-valid w c rev at v =
      let p = positive (store w) (entry c rev) at in
      ap (got connection) (range_replies w)
      ∙ ap (λ o. (get_reply o, w)) at
      ∙ ap (λ x. (x, w)) (get_reply-valid c rev v p)

  -- An update that is accepted is written and read back.
  update-accepted :
      (w : World) (c d : Catalog) (rev : ℕ)
      → etcd.range (store w) ≡ some (entry c rev)
      → validate_transition c d ≡ ok tt
      → (w' : World) × (rev' : ℕ) × (etcd.range (store w') ≡ some (entry d rev'))
        × (update connection (stored c rev) d w ≡ (ok (stored d rev'), w'))
  unfolding update compare_and_swap prepare_update
  update-accepted w c d rev at v =
      let p = positive (store w) (entry c rev) at in
      let expects : revision_of (etcd.range (store w)) ≡ expected_of rev =
        ap revision_of at ∙ sym (expected_of-suc rev p) in
      let (t, wrote) = etcd.txn_applies (expected_of rev) (some d) (store w) expects in
      let (w', swaps, is_t) = swap_replies (attempt rev d) w t wrote in
      let (rev', puts, older) = etcd.txn_puts (expected_of rev) (some d) (store w) t wrote in
      let reads : etcd.range (store w') ≡ some (entry d rev') = ap etcd.range is_t ∙ puts in
      let valid : validate d ≡ ok tt =
        (validate_iff d).1 ((validate_transition_iff c d).0 v).next_valid in
      (
        w',
        rev',
        reads,
        rw v (
            ap (λ x. after_swap connection (swapped connection x)) swaps
            ∙ ap (must_find connection no_updated) (get_topology-valid w' d rev' reads valid)),
      )

  -- Where nobody else writes, ReconcileSchema succeeds, under the conditions for its proposal to be
  -- accepted: it returns the proposed catalog, which the server then holds.
  pub reconcile_settles :
      (fingerprint : Registry → String) (r : Registry) (w : World) (c : Catalog) (rev : ℕ)
      → etcd.range (store w) ≡ some (entry c rev)
      → IsWellFormed c
      → contains bootstrap_distribution (map distribution_id c.distributions) ≡ true
      → All (λ t. is_blank t ≡ false) (canonical_sharded_tables r)
      → 0 < r.revision
      → fingerprint r ≢ ""
      → c.revision + 1 < 2 ^ 64
      → c.change.timestamp < now w
      → (w' : World) × (rev' : ℕ) × (etcd.range (store w')
          ≡ some (entry (reconciled fingerprint r (now w) c) rev'))
        × (reconcile_schema connection fingerprint r w
            ≡ (ok (stored (reconciled fingerprint r (now w) c) rev'), w'))
  unfolding reconcile_loop
  reconcile_settles fingerprint r w c rev at v b n revised printed small later =
      let accepted =
        (reconciled_accepted fingerprint r (now w) c v b n revised printed small later).0 in
      let (w', rev', reads, done) =
        update-accepted w c (reconciled fingerprint r (now w) c) rev at accepted in
      let again = reconcile_loop connection fingerprint r 2 in
      (
        w',
        rev',
        reads,
        ap (reconcile_found connection fingerprint r again)
              (get_topology-valid w c rev at ((validate_iff c).1 v))
            ∙ ap (or_again connection fingerprint r again) done,
      )
