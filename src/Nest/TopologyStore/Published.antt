-- ===== src/Nest/TopologyStore/Published.antt =====
-- The catalogs that any number of proxies publish through `TopologyStore` of
-- internal/nest/topology.go, in the order of their writes.
use hamstergres.Base.{
  ◌≡◌, refl, ap, subst, ℕ, ◌<◌, List, [], ◌∷◌, Option, none, some, ok, All, arith,
}
use hamstergres.Topology.Catalog.{Catalog}
use hamstergres.Topology.Validate.{validate}
use hamstergres.Topology.Transition.{validate_transition}
use hamstergres.Topology.Transition.Allowed.{validate_transition_iff}
use hamstergres.Topology.Validate.Catalogs.{validate_iff}
use hamstergres.Topology.Transition.History.{History, here, next}
use hamstergres.Nest.Etcd.{Entry, revision_of, IsOlder, Etcd}
use hamstergres.Nest.TopologyStore.{
  StoredTopology, Stored, get_reply, Attempt, prepare_bootstrap, prepare_update,
}
use hamstergres.Nest.TopologyStore.Replies.{
  IsRead, get_reply-IsRead, prepare_update_ok, prepare_bootstrap_ok,
}

-- `e` is one of the entries.
pub data IsAmong {ℓ} {A : Type ℓ} (e : A) : List A → Type ℓ where
  first : {es : List A} → IsAmong e (e ∷ es)
  later : {f : A} {es : List A} → IsAmong e es → IsAmong e (f ∷ es)

module _ (etcd : Etcd Stored) where
  open etcd use {Store, range, txn, txn_compares, txn_puts}

  -- The successful writes of any number of proxies, from a store without the key. The list holds
  -- the entries that were written, the last one first. A proxy may update from any entry that it
  -- has read at any time before, and any number of attempts may fail in between.
  pub data Published : Store → List (Entry Stored) → Type 0 where
    absent : (s : Store) → range s ≡ none → Published s []
    bootstrapped :
        {s t : Store} {es : List (Entry Stored)} (c : Catalog) (a : Attempt) (e : Entry Stored)
        → Published s es
        → prepare_bootstrap c ≡ ok a
        → txn a.expected (some a.catalog) s ≡ some t
        → range t ≡ some e
        → Published t (e ∷ es)
    updated :
        {s t : Store} {es : List (Entry Stored)} (f : Entry Stored) (current : StoredTopology)
        (c : Catalog) (a : Attempt) (e : Entry Stored)
        → Published s es
        → IsAmong f es
        → get_reply (some f) ≡ ok (some current)
        → prepare_update current c ≡ ok a
        → txn a.expected (some a.catalog) s ≡ some t
        → range t ≡ some e
        → Published t (e ∷ es)

  abbrev pub last_of : List (Entry Stored) → Option (Entry Stored)
  last_of [] = none
  last_of (e ∷ es) = some e

  -- A valid catalog of the entry, with a history from it to `last`.
  abbrev pub LeadsTo : Catalog → Entry Stored → Type 0
  LeadsTo last e = (c : Catalog) × (e.value ≡ some c) × (validate c ≡ ok tt) × History c last

  abbrev IsOlderThan : ℕ → Entry Stored → Type 0
  IsOlderThan r e = e.mod_revision < r

  -- The last entry holds a catalog to which every entry leads; the others are older.
  abbrev pub IsChain : List (Entry Stored) → Type 0
  IsChain [] = Unit
  IsChain (e ∷ es) =
      (last : Catalog) × (e.value ≡ some last)
      × All (LeadsTo last) (e ∷ es)
      × All (IsOlderThan e.mod_revision) es

  -- The entry with the revision of the last one is the last one.
  newest-is_last :
      (f e : Entry Stored) (es : List (Entry Stored))
      → All (IsOlderThan e.mod_revision) es
      → IsAmong f (e ∷ es)
      → f.mod_revision ≡ e.mod_revision
      → f ≡ e
  newest-is_last f e es h first same = refl
  newest-is_last f e es h (later i) same = absurd (omega (arith, older es h i, same))
    where
      older :
          (xs : List (Entry Stored))
          → All (IsOlderThan e.mod_revision) xs
          → IsAmong f xs
          → f.mod_revision < e.mod_revision
      older [] k i = elim i [ ]
      older (x ∷ xs) k first = k.0
      older (x ∷ xs) k (later i) = older xs k.1 i

  All-newer :
      (r q : ℕ) (es : List (Entry Stored)) → r < q → All (IsOlderThan r) es → All (IsOlderThan q) es
  All-newer r q [] lt h = tt
  All-newer r q (e ∷ es) lt h = (omega (arith, h.0), All-newer r q es lt h.1)

  All-LeadsTo :
      (c d : Catalog) (es : List (Entry Stored))
      → validate_transition c d ≡ ok tt
      → All (LeadsTo c) es
      → All (LeadsTo d) es
  All-LeadsTo c d [] v h = tt
  All-LeadsTo c d (e ∷ es) v ((b, at, valid, run), h) =
      ((b, at, valid, next run v), All-LeadsTo c d es v h)

  abbrev IsPublished : Store → List (Entry Stored) → Type 0
  IsPublished s es = (range s ≡ last_of es) × IsChain es

  written :
      (expected : Option ℕ) (c : Catalog) (s t : Store) (e : Entry Stored)
      → txn expected (some c) s ≡ some t
      → range t ≡ some e
      → (e.value ≡ some c) × IsOlder expected e.mod_revision
  written expected c s t e wrote reads =
      let (r, puts, older) = txn_puts expected (some c) s t wrote in
      let same : record { value = some c; mod_revision = r } ≡ e = cc in
      subst (λ x. (x.value ≡ some c) × IsOlder expected x.mod_revision) same (refl, older)

  IsChain-bootstrapped :
      (s t : Store) (es : List (Entry Stored)) (c : Catalog) (e : Entry Stored)
      → IsPublished s es
      → validate c ≡ ok tt
      → txn none (some c) s ≡ some t
      → range t ≡ some e
      → IsChain (e ∷ es)
  IsChain-bootstrapped s t [] c e h v wrote reads =
      let (holds, older) = written none c s t e wrote reads in
      (c, holds, ((c, holds, v, here), tt), tt)
  IsChain-bootstrapped s t (f ∷ es) c e (at, chain) v wrote reads =
      let gone = txn_compares none (some c) s t wrote in
      let there : revision_of (range s) ≡ some f.mod_revision = ap revision_of at in cc

  IsChain-updated :
      (s t : Store) (es : List (Entry Stored)) (f : Entry Stored) (current : StoredTopology)
      (c : Catalog) (e : Entry Stored)
      → IsPublished s es
      → IsAmong f es
      → IsRead f current
      → validate_transition current.catalog c ≡ ok tt
      → txn (some f.mod_revision) (some c) s ≡ some t
      → range t ≡ some e
      → IsChain (e ∷ es)
  IsChain-updated s t [] f current c e h i read v wrote reads = elim i [ ]
  IsChain-updated s t (g ∷ es) f current c e (at, (last, holds, leads, older)) i read v wrote
        reads =
      let compared = txn_compares (some f.mod_revision) (some c) s t wrote in
      let there : revision_of (range s) ≡ some g.mod_revision = ap revision_of at in
      let revision : f.mod_revision ≡ g.mod_revision = cc in
      let is_last : f ≡ g = newest-is_last f g es older i revision in
      let same : current.catalog ≡ last = cc in
      let (holds', newer) = written (some f.mod_revision) c s t e wrote reads in
      let v' : validate_transition last c ≡ ok tt =
        subst (λ x. validate_transition x c ≡ ok tt) same v in
      let g_newer : g.mod_revision < e.mod_revision = omega (arith, newer, revision) in
      (
        c,
        holds',
        (
          (c, holds', (validate_iff c).1 ((validate_transition_iff last c).0 v').next_valid, here),
          All-LeadsTo last c (g ∷ es) v' leads,
        ),
        (g_newer, All-newer g.mod_revision e.mod_revision es g_newer older),
      )

  -- The store holds what was written last, and the writes form a chain.
  Published-IsPublished : {s : Store} {es : List (Entry Stored)} → Published s es → IsPublished s es
  Published-IsPublished (absent s e) = (e, tt)
  Published-IsPublished (bootstrapped {s} {t} {es} c a e p ready wrote reads) =
      let (v, expects, holds) = prepare_bootstrap_ok c a ready in
      let wrote' : txn none (some c) s ≡ some t = cc in
      (reads, IsChain-bootstrapped s t es c e (Published-IsPublished p) v wrote' reads)
  Published-IsPublished (updated {s} {t} {es} f current c a e p i got ready wrote reads) =
      let (v, expects, holds) = prepare_update_ok current c a ready in
      let read = get_reply-IsRead f current got in
      let wrote' : txn (some f.mod_revision) (some c) s ≡ some t = cc in
      (reads, IsChain-updated s t es f current c e (Published-IsPublished p) i read v wrote' reads)

  -- Whatever proxies bootstrap and update the topology, in whatever order, each from any entry that
  -- it has read before: the key holds the entry that was written last, that entry holds a catalog,
  -- and each entry that was ever written holds a valid catalog from which a history, of catalogs
  -- that `ValidateTransition` accepts one after the other, leads to it.
  pub Published-History :
      {s : Store} {e : Entry Stored} {es : List (Entry Stored)}
      → Published s (e ∷ es)
      → (range s ≡ some e)
        × ((last : Catalog) × (e.value ≡ some last) × All (LeadsTo last) (e ∷ es))
  Published-History p =
      let (at, (last, holds, leads, older)) = Published-IsPublished p in (at, (last, holds, leads))
