-- ===== src/Nest/Sequence/Unique.antt =====
-- Proxies that share the sequence of internal/nest/sequence.go, as interleaved steps.
use hamstergres.Base.{
  ℕ, ◌+◌, ◌<◌, ◌≤◌, ◌≡◌, ◌≢◌, sym, List, [], ◌∷◌, Option, none, some, pos, negsuc, ok, arith, All,
  All-map, All-get_elem?, get_elem?,
}
use hamstergres.Nest.Etcd.{Entry, Etcd, revision_of, IsOlder}
use hamstergres.Nest.Sequence.{Stored, Attempt, prepare, max_id}

-- The last identifier that the key holds; 0 if there is none.
abbrev pub last_id : Option (Entry Stored) → ℕ
last_id none = 0
last_id (some e) = elim e.value [ none ↦ 0 | some v ↦ elim v [ pos n ↦ n | negsuc n ↦ 0 ] ]

abbrev pub NotNewer : Option ℕ → Option ℕ → Type 0
NotNewer none r = Unit
NotNewer (some q) none = ⊥
NotNewer (some q) (some r) = q ≤ r

-- Identifiers handed out, the latest first, fall strictly.
abbrev pub IsDescending : List ℕ → Type 0
IsDescending [] = Unit
IsDescending (x ∷ xs) = All (λ y. y < x) xs × IsDescending xs

-- What `prepare` sends for a key: the next identifier, guarded by the revision that was read.
pub prepare-eq-ok :
    (reply : Option (Entry Stored)) (a : Attempt)
    → prepare reply ≡ ok a
    → (a.id ≡ last_id reply + 1) × (a.expected ≡ revision_of reply) × (last_id reply ≢ max_id)
unfolding prepare
prepare-eq-ok reply a h = ground arith

-- A prepared transaction is not newer than the key, and if its guard holds, it writes the
-- next identifier.
pub record Fits (entry : Option (Entry Stored)) (a : Attempt) : Type 0 where
  pub next : a.expected ≡ revision_of entry → a.id ≡ last_id entry + 1
  pub old : NotNewer a.expected (revision_of entry)
  pub bounded : a.id ≤ max_id

NotNewer-refl : (r : Option ℕ) → NotNewer r r
NotNewer-refl none = tt
NotNewer-refl (some r) = omega arith

stale : (o q : Option ℕ) (r : ℕ) → IsOlder q r → NotNewer o q → o ≡ some r → ⊥
stale none q r older h e = cc
stale (some a) none r older h e = h
stale (some a) (some b) r older h e = ground arith

NotNewer-IsOlder : (o q : Option ℕ) (r : ℕ) → IsOlder q r → NotNewer o q → NotNewer o (some r)
NotNewer-IsOlder none q r older h = tt
NotNewer-IsOlder (some a) none r older h = absurd h
NotNewer-IsOlder (some a) (some b) r older h = omega arith

-- After a put no guard of an older transaction holds.
Fits-put :
    (q : Option (Entry Stored)) (e : Entry Stored) (a : Attempt)
    → IsOlder (revision_of q) e.mod_revision
    → Fits q a
    → Fits (some e) a
Fits-put q e a older f = record {
  next = λ same. absurd (stale a.expected (revision_of q) e.mod_revision older f.old same);
  old = NotNewer-IsOlder a.expected (revision_of q) e.mod_revision older f.old;
  bounded = f.bounded;
}

Fits-prepare :
    (q : Option (Entry Stored)) (a : Attempt) → last_id q ≤ max_id → prepare q ≡ ok a → Fits q a
Fits-prepare q a within h =
    let (next, same, below) = prepare-eq-ok q a h in
    record {
      next = λ _. next;
      old = rw same (NotNewer-refl (revision_of q));
      bounded = ground arith;
    }

module _ (etcd : Etcd Stored) where
  open etcd use {Store, range, txn, txn_compares, txn_puts}

  -- The key, every transaction that some proxy has prepared, and every identifier that some call
  -- of `Next` returned.
  pub record System : Type 0 where
    pub store : Store
    pub prepared : List Attempt
    pub issued : List ℕ

  abbrev pub started : Store → System
  started s = record { store = s; prepared = []; issued = [] }

  -- The transaction that `swap` sends.
  abbrev pub send : Attempt → Store → Option Store
  send a s = txn a.expected (some (pos a.id)) s

  pub data Step : System → System → Type 0 where
    -- a proxy reads the key and prepares its transaction
    read :
        (s : System) (a : Attempt)
        → prepare (range s.store) ≡ ok a
        → Step s (record s { prepared = a ∷ s.prepared })
    -- a prepared transaction, of whatever age, succeeds and its proxy hears of it
    issue :
        (s : System) (i : ℕ) (a : Attempt) (t : Store)
        → get_elem? s.prepared i ≡ some a
        → send a s.store ≡ some t
        → Step s (record s { store = t; issued = a.id ∷ s.issued })
    -- a prepared transaction succeeds and its reply is lost
    lose :
        (s : System) (i : ℕ) (a : Attempt) (t : Store)
        → get_elem? s.prepared i ≡ some a
        → send a s.store ≡ some t
        → Step s (record s { store = t })

  pub data Reach (s : System) : System → Type 0 where
    here : Reach s s
    follow : {t u : System} → Reach s t → Step t u → Reach s u

  abbrev pub last : System → ℕ
  last s = last_id (range s.store)

  pub record IsSound (s : System) : Type 0 where
    pub within : last s ≤ max_id
    pub below : All (λ id. id ≤ last s) s.issued
    pub descending : IsDescending s.issued
    pub fits : All (Fits (range s.store)) s.prepared

  -- What a successful transaction does to the key.
  sent :
      (s : System) (i : ℕ) (a : Attempt) (t : Store)
      → IsSound s
      → get_elem? s.prepared i ≡ some a
      → send a s.store ≡ some t
      → (e : Entry Stored) × (range t ≡ some e)
        × (last_id (some e) ≡ last s + 1)
        × (a.id ≡ last s + 1)
        × (a.id ≤ max_id)
        × IsOlder (revision_of (range s.store)) e.mod_revision
  sent s i a t sound at_i done =
      let f = All-get_elem? (Fits (range s.store)) s.prepared i a sound.fits at_i in
      let same = txn_compares a.expected (some (pos a.id)) s.store t done in
      let (r, put, older) = txn_puts a.expected (some (pos a.id)) s.store t done in
      let next = f.next (sym same) in
      (
        record { value = some (pos a.id); mod_revision = r },
        put,
        next,
        next,
        f.bounded,
        rw same older,
      )

  -- The fields that a put changes.
  put-IsSound :
      (s : System) (e : Entry Stored) (t : Store) (issued : List ℕ)
      → IsSound s
      → range t ≡ some e
      → IsOlder (revision_of (range s.store)) e.mod_revision
      → last_id (some e) ≤ max_id
      → All (λ id. id ≤ last_id (some e)) issued
      → IsDescending issued
      → IsSound (record s { store = t; issued = issued })
  put-IsSound s e t issued sound put older within below descending = record {
    within = rw put within;
    below = rw put below;
    descending = descending;
    fits = rw put (All-map s.prepared (λ a f. Fits-put (range s.store) e a older f) sound.fits);
  }

  Step-IsSound : {s u : System} → IsSound s → Step s u → IsSound u
  Step-IsSound sound (read s a h) = record {
    within = sound.within;
    below = sound.below;
    descending = sound.descending;
    fits = (Fits-prepare (range s.store) a sound.within h, sound.fits);
  }
  Step-IsSound sound (issue s i a t at_i done) =
      let (e, put, last_is, id_is, within, older) = sent s i a t sound at_i done in
      put-IsSound s e t (a.id ∷ s.issued) sound put older (omega arith)
        (omega arith, All-map s.issued (λ id h. omega arith) sound.below)
        (All-map s.issued (λ id h. omega arith) sound.below, sound.descending)
  Step-IsSound sound (lose s i a t at_i done) =
      let (e, put, last_is, id_is, within, older) = sent s i a t sound at_i done in
      put-IsSound s e t s.issued sound put older (omega arith)
        (All-map s.issued (λ id h. omega arith) sound.below) sound.descending

  pub Reach-IsSound : {s u : System} → IsSound s → Reach s u → IsSound u
  Reach-IsSound h here = h
  Reach-IsSound h (follow r st) = Step-IsSound (Reach-IsSound h r) st

  pub started-IsSound : (s : Store) → last_id (range s) ≤ max_id → IsSound (started s)
  started-IsSound s h = record { within = h; below = tt; descending = tt; fits = tt }

  -- From a key that is absent or holds at most the largest `int64`: whatever the interleaving of the proxies, whatever replies are lost and whatever
  -- transactions are sent again, the identifiers that `Next` hands out rise strictly, so that no
  -- identifier is handed out twice, and none passes the largest `int64`.
  pub issued_rise :
      (s : Store) (u : System)
      → last_id (range s) ≤ max_id
      → Reach (started s) u
      → IsDescending u.issued × All (λ id. id ≤ max_id) u.issued
  issued_rise s u h r =
      let sound = Reach-IsSound (started-IsSound s h) r in
      (sound.descending, All-map u.issued (λ id p. omega (arith, sound.within)) sound.below)
