-- ===== src/Nest/Sequence/Fresh.antt =====
-- `SequenceStore.Next` of internal/nest/sequence.go against the interleaved steps.
use hamstergres.Base.{
  ℕ, suc, ◌<◌, ◌≡◌, refl, subst, ap, Bool, true, false, List, [], ◌∷◌, ◌++◌, Option, none, some,
  Result, ok, err, All, get_elem?,
}
use hamstergres.Nest.Etcd.{Entry, Etcd}
use hamstergres.Nest.Sequence.{
  Stored, Attempt, SequenceError, Connection, Reply, prepare, conclude, try_swap,
}
use hamstergres.Nest.Sequence.Unique.{
  System, read, issue, lose, Reach, here, follow, IsDescending, IsSound, Reach-IsSound, send,
}

-- What the proxy that reads `entry` has prepared afterwards.
abbrev pub noted : {etcd : Etcd Stored} → System etcd → Option (Entry Stored) → System etcd
noted {etcd} m entry = elim (prepare entry) [
  | ok a ↦ record m { prepared = a ∷ m.prepared }
  | err e ↦ m
]

-- A connection through which a proxy talks to the server, while other proxies take steps: a reply
-- to a request is the server's, at some moment between the request and the reply.
pub record IsFaithful (etcd : Etcd Stored) (connection : Connection) : Type 1 where
  pub system : connection.World → System etcd
  pub range_replies :
      (w w' : connection.World) (entry : Option (Entry Stored))
      → connection.range w ≡ (some entry, w')
      → (m : System etcd) × Reach etcd (system w) m
        × (entry ≡ etcd.range m.store)
        × Reach etcd (noted m entry) (system w')
  pub range_fails :
      (w w' : connection.World)
      → connection.range w ≡ (none, w')
      → Reach etcd (system w) (system w')
  pub swap_succeeds :
      (a : Attempt) (w w' : connection.World)
      → connection.swap a w ≡ (some true, w')
      → (m : System etcd) × (t : etcd.Store) × Reach etcd (system w) m
        × (send etcd a m.store ≡ some t)
        × Reach etcd (record m { store = t; issued = a.id ∷ m.issued }) (system w')
  pub swap_conflicts :
      (a : Attempt) (w w' : connection.World)
      → connection.swap a w ≡ (some false, w')
      → Reach etcd (system w) (system w')

module _ {etcd : Etcd Stored} where
  pub Reach-trans : {s t u : System etcd} → Reach etcd s t → Reach etcd t u → Reach etcd s u
  Reach-trans r here = r
  Reach-trans r (follow q st) = follow (Reach-trans r q) st

  -- Steps only add to what was issued and to what was prepared.
  Reach-issued : {s u : System etcd} → Reach etcd s u → (xs : List ℕ) × (u.issued ≡ xs ++ s.issued)
  Reach-issued here = ([], refl)
  Reach-issued (follow r (read s a h)) = Reach-issued r
  Reach-issued (follow r (issue s i a t at_i done)) =
      let (xs, e) = Reach-issued r in (a.id ∷ xs, ap (λ l. a.id ∷ l) e)
  Reach-issued (follow r (lose s i a t at_i done)) = Reach-issued r

  Reach-prepared :
      {s u : System etcd} → Reach etcd s u → (xs : List Attempt) × (u.prepared ≡ xs ++ s.prepared)
  Reach-prepared here = ([], refl)
  Reach-prepared (follow r (read s a h)) =
      let (xs, e) = Reach-prepared r in (a ∷ xs, ap (λ l. a ∷ l) e)
  Reach-prepared (follow r (issue s i a t at_i done)) = Reach-prepared r
  Reach-prepared (follow r (lose s i a t at_i done)) = Reach-prepared r

-- The first element of the second list, in the joined list.
get_elem?-append {ℓ} :
    {A : Type ℓ} (xs ys : List A) (a : A) → (i : ℕ) × (get_elem? (xs ++ a ∷ ys) i ≡ some a)
get_elem?-append [] ys a = (0, refl)
get_elem?-append (x ∷ xs) ys a = let (i, e) = get_elem?-append xs ys a in (suc i, e)

get_elem?-append_right {ℓ} :
    {A : Type ℓ} (xs ys : List A) (a : A)
    → (i : ℕ) × (get_elem? ys i ≡ some a)
    → (j : ℕ) × (get_elem? (xs ++ ys) j ≡ some a)
get_elem?-append_right [] ys a h = h
get_elem?-append_right (x ∷ xs) ys a h = let (j, e) = get_elem?-append_right xs ys a h in (suc j, e)

IsDescending-append : (xs ys : List ℕ) (a : ℕ) → IsDescending (xs ++ a ∷ ys) → All (λ y. y < a) ys
IsDescending-append [] ys a h = h.0
IsDescending-append (x ∷ xs) ys a h = IsDescending-append xs ys a h.1

All-append_right {ℓ κ} :
    {A : Type ℓ} (P : A → Type κ) (xs ys : List A) → All P (xs ++ ys) → All P ys
All-append_right P [] ys h = h
All-append_right P (x ∷ xs) ys h = All-append_right P xs ys h.1

-- The identifier is among those issued by now, and greater than all issued before.
abbrev pub IsIssued : {etcd : Etcd Stored} → System etcd → System etcd → ℕ → Type 0
IsIssued before now id =
    (i : ℕ) × (get_elem? now.issued i ≡ some id) × All (λ x. x < id) before.issued

module _ {etcd : Etcd Stored} {connection : Connection} (faithful : IsFaithful etcd connection)
    (start : System etcd) (sound : IsSound etcd start) where
  open connection use {World, range, swap}
  open faithful use {system, range_replies, range_fails, swap_succeeds, swap_conflicts}

  -- A transaction that was prepared before it succeeded issues its identifier.
  issued_by :
      (a : Attempt) (v w : System etcd)
      → Reach etcd start v
      → (i : ℕ) × (get_elem? v.prepared i ≡ some a)
      → (m : System etcd) × (t : etcd.Store) × Reach etcd v m
        × (send etcd a m.store ≡ some t)
        × Reach etcd (record m { store = t; issued = a.id ∷ m.issued }) w
      → IsIssued start w a.id
  issued_by a v w r known (m, t, r₁, done, r₂) =
      let (xs, same) = Reach-prepared r₁ in
      let (i, at_i) = get_elem?-append_right xs v.prepared a known in
      let before = Reach-trans r r₁ in
      let step = issue m i a t (rw same at_i) done in
      let now = Reach-IsSound etcd sound (Reach-trans (follow before step) r₂) in
      let (ys, later) = Reach-issued r₂ in
      let (zs, earlier) = Reach-issued before in
      let (j, at_j) = get_elem?-append ys m.issued a.id in
      let falls : IsDescending (ys ++ a.id ∷ m.issued) = rw later at now.descending in
      let below : All (λ x. x < a.id) (zs ++ start.issued) =
        rw earlier at (IsDescending-append ys m.issued a.id falls) in
      (j, rw later at_j, All-append_right (λ x. x < a.id) zs start.issued below)

  conclude-IsIssued :
      (a : Attempt) (w : World) (reply : Reply Bool) (w₁ w' : World) (id : ℕ)
      → Reach etcd start (system w)
      → (i : ℕ) × (get_elem? (system w).prepared i ≡ some a)
      → swap a w ≡ (reply, w₁)
      → conclude connection a (reply, w₁) ≡ (ok (some id), w')
      → IsIssued start (system w') id
  unfolding conclude
  conclude-IsIssued a w none w₁ w' id r known e h = cc
  conclude-IsIssued a w (some false) w₁ w' id r known e h = cc
  conclude-IsIssued a w (some true) w₁ w' id r known e h =
      let same_id : a.id ≡ id = cc in
      let same_world : w₁ ≡ w' = cc in
      subst (λ x. IsIssued start (system w') x) same_id
        (subst (λ x. IsIssued start (system x) a.id) same_world
          (issued_by a (system w) (system w₁) r known (swap_succeeds a w w₁ e)))

  conclude_retried :
      (a : Attempt) (w : World) (reply : Reply Bool) (w₁ w' : World)
      → Reach etcd start (system w)
      → swap a w ≡ (reply, w₁)
      → conclude connection a (reply, w₁) ≡ (ok none, w')
      → Reach etcd start (system w')
  unfolding conclude
  conclude_retried a w none w₁ w' r e h = cc
  conclude_retried a w (some true) w₁ w' r e h = cc
  conclude_retried a w (some false) w₁ w' r e h =
      let same_world : w₁ ≡ w' = cc in
      subst (λ x. Reach etcd start (system x)) same_world (Reach-trans r (swap_conflicts a w w₁ e))

  -- What a round leaves: an issued identifier, or a world that is reached.
  abbrev pub Leaves : Result SequenceError (Option ℕ) → World → Type 0
  Leaves (err e) w = Unit
  Leaves (ok none) w = Reach etcd start (system w)
  Leaves (ok (some id)) w = IsIssued start (system w) id

  conclude-Leaves :
      (a : Attempt) (w : World) (o : Result SequenceError (Option ℕ)) (w' : World)
      → Reach etcd start (system w)
      → (i : ℕ) × (get_elem? (system w).prepared i ≡ some a)
      → conclude connection a (swap a w) ≡ (o, w')
      → Leaves o w'
  conclude-Leaves a w (err e) w' r known h = tt
  conclude-Leaves a w (ok none) w' r known h =
      conclude_retried a w (swap a w).0 (swap a w).1 w' r refl h
  conclude-Leaves a w (ok (some id)) w' r known h =
      conclude-IsIssued a w (swap a w).0 (swap a w).1 w' id r known refl h

  -- After the read: what was prepared is known to the system.
  pub try_swap-Leaves :
      (entry : Option (Entry Stored)) (p : Result SequenceError Attempt) (w : World)
      (o : Result SequenceError (Option ℕ)) (w' : World)
      → prepare entry ≡ p
      → (m : System etcd) × Reach etcd start m × Reach etcd (noted m entry) (system w)
      → Reach etcd start (system w)
      → try_swap connection p w ≡ (o, w')
      → Leaves o w'
  unfolding try_swap
  try_swap-Leaves entry (err x) w (err e) w' prep noted_m r h = tt
  try_swap-Leaves entry (err x) w (ok o) w' prep noted_m r h = cc
  try_swap-Leaves entry (ok a) w o w' prep (m, r₁, r₂) r h =
      let r₃ : Reach etcd (record m { prepared = a ∷ m.prepared }) (system w) =
        rw (prep, noted) at r₂ in
      let (xs, same) = Reach-prepared r₃ in
      let (i, at_i) = get_elem?-append xs m.prepared a in
      conclude-Leaves a w o w' r (i, rw same at_i) h
