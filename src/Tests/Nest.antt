-- ===== src/Tests/Nest.antt =====
-- internal/nest/sequence.go against a server that keeps one key in memory.
use hamstergres.Base.{
  ◌≤◌, ◌≡◌, refl, subst, ap, ◌∙◌, Bool, true, false, [], ◌∷◌, Option, none, some, pos, ok, arith,
  All,
}
use hamstergres.Nest.Maintenance.{range_end_from, prefix_range_end}
use hamstergres.Nest.Maintenance.Prefix.{in_range, has_prefix, prefix_range_end_iff}
use hamstergres.Nest.Etcd.{Entry, Etcd}
use hamstergres.Tests.Memory.{in_memory}
use hamstergres.Nest.Sequence.{
  Stored, Attempt, Connection, Reply, prepare, conclude, try_swap, after_range, round, retry,
  next_loop, next, max_id,
}
use hamstergres.Nest.Sequence.Unique.{
  System, IsDescending, Reach, here, follow, read, issue, send, started, issued_rise,
  started-IsSound,
}
use hamstergres.Nest.Sequence.Fresh.{IsFaithful, IsIssued, noted}
use hamstergres.Nest.Sequence.Rounds.{next_fresh}

abbrev memory : Etcd Stored
memory = in_memory

abbrev answer :
    Attempt → System memory → Option (Option (Entry Stored)) → Reply Bool × System memory
answer a w none = (some false, w)
answer a w (some t) = (some true, record w { store = t; issued = a.id ∷ w.issued })

-- A proxy that is alone.
abbrev alone : Connection
alone = record {
  World = System memory;
  range = λ w. (some w.store, noted w w.store);
  swap = λ a w. answer a w (send memory a w.store);
}

answer_succeeds :
    (a : Attempt) (w w' : System memory) (sent : Option (Option (Entry Stored)))
    → send memory a w.store ≡ sent
    → answer a w sent ≡ (some true, w')
    → (m : System memory) × (t : Option (Entry Stored)) × Reach memory w m
      × (send memory a m.store ≡ some t)
      × Reach memory (record m { store = t; issued = a.id ∷ m.issued }) w'
answer_succeeds a w w' none e h = cc
answer_succeeds a w w' (some t) e h = (
  w,
  t,
  here,
  e,
  subst (λ u. Reach memory (record w { store = t; issued = a.id ∷ w.issued }) u) (ap (λ p. p.1) h)
      here,
)

answer_conflicts :
    (a : Attempt) (w w' : System memory) (sent : Option (Option (Entry Stored)))
    → answer a w sent ≡ (some false, w')
    → Reach memory w w'
answer_conflicts a w w' none h = subst (λ u. Reach memory w u) (ap (λ p. p.1) h) here
answer_conflicts a w w' (some t) h = cc

answer_range :
    (w w' : System memory) (entry : Option (Entry Stored))
    → entry ≡ w.store
    → noted w w.store ≡ w'
    → Reach memory (noted w entry) w'
answer_range w w' entry e h =
    subst (λ u. Reach memory (noted w entry) u) (ap (λ x. noted w x) e ∙ h) here

alone-IsFaithful : IsFaithful memory alone
alone-IsFaithful = record {
  system = λ w. w;
  range_replies = λ w w' entry h. (w, here, cc, answer_range w w' entry (cc) (ap (λ p. p.1) h));
  range_fails = λ w w' h. cc;
  swap_succeeds = λ a w w' h. answer_succeeds a w w' (send memory a w.store) refl h;
  swap_conflicts = λ a w w' h. answer_conflicts a w w' (send memory a w.store) h;
}

abbrev fresh : System memory
fresh = started memory none

abbrev first : Attempt
first = record { expected = none; id = 1 }

abbrev after_first : Option (Entry Stored)
after_first = some (record { value = some (pos 1); mod_revision = 1 })

prepared_first : prepare none ≡ ok first
unfolding prepare
prepared_first = refl

-- One proxy is given the first identifier.
one_issued :
    Reach memory fresh (record { store = after_first; prepared = first ∷ []; issued = 1 ∷ [] })
one_issued =
    follow (follow here (read fresh first prepared_first))
      (issue (record fresh { prepared = first ∷ [] }) 0 first after_first refl refl)

issued_rise_example : IsDescending (1 ∷ []) × All (λ id. id ≤ max_id) (1 ∷ [])
issued_rise_example =
    issued_rise memory none (record { store = after_first; prepared = first ∷ []; issued = 1 ∷ [] })
      (omega arith) one_issued

next_first :
    next alone fresh
    ≡ (ok 1, record { store = after_first; prepared = first ∷ []; issued = 1 ∷ [] })
unfolding next_loop round after_range try_swap conclude retry prepare
next_first = refl

next_fresh_example :
    IsIssued fresh (record { store = after_first; prepared = first ∷ []; issued = 1 ∷ [] }) 1
unfolding alone-IsFaithful
next_fresh_example =
    next_fresh alone-IsFaithful fresh
      (record { store = after_first; prepared = first ∷ []; issued = 1 ∷ [] }) 1
      (started-IsSound memory none (omega arith)) next_first

-- "a\xff" is closed by "b".
end_of_prefix : prefix_range_end (b'a' ∷ 255 ∷ []) ≡ b'b' ∷ []
unfolding prefix_range_end range_end_from
end_of_prefix = refl

prefix_range_end_iff_example :
    in_range (b'a' ∷ 255 ∷ []) (prefix_range_end (b'a' ∷ 255 ∷ [])) (b'a' ∷ 255 ∷ 0 ∷ [])
    ≡ has_prefix (b'a' ∷ 255 ∷ []) (b'a' ∷ 255 ∷ 0 ∷ [])
prefix_range_end_iff_example =
    prefix_range_end_iff (b'a' ∷ 255 ∷ []) (b'a' ∷ 255 ∷ 0 ∷ []) (omega arith, (omega arith, tt))
      (omega arith, (omega arith, (omega arith, tt)))
