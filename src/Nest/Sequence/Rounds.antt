-- ===== src/Nest/Sequence/Rounds.antt =====
-- The loop of `SequenceStore.Next` of internal/nest/sequence.go.
use hamstergres.Base.{ℕ, zero, suc, ◌≡◌, refl, subst, Option, none, some, Result, ok, err}
use hamstergres.Nest.Etcd.{Entry, Etcd}
use hamstergres.Nest.Sequence.{
  Stored, Attempt, SequenceError, Connection, Reply, prepare, after_range, round, retry, next_loop,
  next,
}
use hamstergres.Nest.Sequence.Unique.{System, IsSound, Reach, here, follow, read}
use hamstergres.Nest.Sequence.Fresh.{
  IsFaithful, IsIssued, Leaves, try_swap-Leaves, Reach-trans, noted,
}

Reach-noted :
    {etcd : Etcd Stored} (m : System etcd) (entry : Option (Entry Stored))
    → entry ≡ etcd.range m.store
    → (p : Result SequenceError Attempt) → prepare entry ≡ p
    → Reach etcd m (noted m entry)
Reach-noted m entry from (ok a) h = rw (h, noted) (follow here (read m a (rw (← from) h)))
Reach-noted m entry from (err e) h = rw (h, noted) here

module _ {etcd : Etcd Stored} {connection : Connection} (faithful : IsFaithful etcd connection)
    (start : System etcd) (sound : IsSound etcd start) where
  open connection use {World, range}
  open faithful use {system, range_replies, range_fails}

  after_range-Leaves :
      (w : World) (reply : Reply (Option (Entry Stored))) (w₁ : World)
      (o : Result SequenceError (Option ℕ)) (w' : World)
      → Reach etcd start (system w)
      → range w ≡ (reply, w₁)
      → after_range connection (reply, w₁) ≡ (o, w')
      → Leaves faithful start sound o w'
  unfolding after_range
  after_range-Leaves w none w₁ (err e) w' r e₁ h = tt
  after_range-Leaves w none w₁ (ok o) w' r e₁ h = cc
  after_range-Leaves w (some entry) w₁ o w' r e₁ h =
      let (m, r₁, from, r₂) = range_replies w w₁ entry e₁ in
      let r₃ = Reach-trans r r₁ in
      try_swap-Leaves faithful start sound entry (prepare entry) w₁ o w' refl (m, r₃, r₂)
        (Reach-trans r₃ (Reach-trans (Reach-noted m entry from (prepare entry) refl) r₂)) h

  -- One more round, before a loop that hands out fresh identifiers.
  retry-IsIssued :
      (again : World → Result SequenceError ℕ × World)
      → ((w w' : World) (id : ℕ)
          → Reach etcd start (system w)
          → again w ≡ (ok id, w')
          → IsIssued start (system w') id)
      → (o : Result SequenceError (Option ℕ)) (w w' : World) (id : ℕ)
      → Leaves faithful start sound o w
      → retry connection again (o, w) ≡ (ok id, w')
      → IsIssued start (system w') id
  unfolding retry
  retry-IsIssued again later (err e) w w' id left h = cc
  retry-IsIssued again later (ok none) w w' id left h = later w w' id left h
  retry-IsIssued again later (ok (some x)) w w' id left h =
      let same_id : x ≡ id = cc in
      let same_world : w ≡ w' = cc in
      subst (λ i. IsIssued start (system w') i) same_id
        (subst (λ v. IsIssued start (system v) x) same_world left)

  next_loop-IsIssued :
      (n : ℕ) (w w' : World) (id : ℕ)
      → Reach etcd start (system w)
      → next_loop connection n w ≡ (ok id, w')
      → IsIssued start (system w') id
  unfolding next_loop round
  next_loop-IsIssued zero w w' id r h = cc
  next_loop-IsIssued (suc n) w w' id r h =
      let left =
        after_range-Leaves w (range w).0 (range w).1 (after_range connection (range w)).0
          (after_range connection (range w)).1 r refl refl in
      retry-IsIssued (next_loop connection n) (next_loop-IsIssued n)
        (after_range connection (range w)).0 (after_range connection (range w)).1 w' id left h

-- On a connection that reaches a server with the laws of `Etcd`, from a sound state of the system,
-- an identifier that `Next` returns has been issued by the time of the return, and is greater than
-- every identifier that any proxy had been issued at the time of the call, whatever the other
-- proxies do meanwhile.
pub next_fresh :
    {etcd : Etcd Stored} {connection : Connection} (faithful : IsFaithful etcd connection)
    (w w' : connection.World) (id : ℕ)
    → IsSound etcd (faithful.system w)
    → next connection w ≡ (ok id, w')
    → IsIssued (faithful.system w) (faithful.system w') id
next_fresh faithful w w' id sound h =
    next_loop-IsIssued faithful (faithful.system w) sound 64 w w' id here h
