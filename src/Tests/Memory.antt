-- ===== src/Tests/Memory.antt =====
-- A server of internal/nest that keeps one key in memory.
use hamstergres.Base.{
  ℕ, ◌+◌, ◌≡◌, refl, Bool, true, false, ◌==◌, if◌then◌else◌, Option, none, some, arith,
}
use hamstergres.Nest.Etcd.{Entry, Etcd, revision_of, IsOlder}

abbrev pub same : Option ℕ → Option ℕ → Bool
same none none = true
same (some a) (some b) = a == b
same _ _ = false

pub same-eq : (a b : Option ℕ) → same a b ≡ true → b ≡ a
same-eq none none h = refl
same-eq (some a) (some b) h = ground arith
same-eq none (some b) h = cc
same-eq (some a) none h = cc

pub eq-same : (a b : Option ℕ) → b ≡ a → same a b ≡ true
eq-same none none h = refl
eq-same (some a) (some b) h = ground arith
eq-same none (some b) h = cc
eq-same (some a) none h = cc

abbrev newer : Option ℕ → ℕ
newer none = 1
newer (some r) = r + 1

pub newer-IsOlder : (r : Option ℕ) → IsOlder r (newer r)
newer-IsOlder none = tt
newer-IsOlder (some r) = omega arith

abbrev commit : {V : Type 0} → Option ℕ → V → Option (Entry V) → Option (Option (Entry V))
commit expected v s =
    if same expected (revision_of s)
    then some (some (record { value = v; mod_revision = newer expected }))
    else none

pub commit_puts :
    {V : Type 0} (expected : Option ℕ) (v : V) (s t : Option (Entry V))
    → commit expected v s ≡ some t
    → (r : ℕ) × (t ≡ some (record { value = v; mod_revision = r })) × IsOlder expected r
commit_puts expected v s t h = (newer expected, ground arith, newer-IsOlder expected)

abbrev pub in_memory : {V : Type 0} → Etcd V
in_memory {V} = record {
  Store = Option (Entry V);
  range = λ s. s;
  txn = commit;
  txn_compares = λ expected v s t h. same-eq expected (revision_of s) (ground arith);
  txn_applies = λ expected v s h. (
    some (record { value = v; mod_revision = newer expected }),
    rw (eq-same expected (revision_of s) h),
  );
  txn_puts = commit_puts;
}
