-- ===== src/Nest/Etcd.antt =====
-- One key of the etcd server that internal/nest talks to. The server is not part of the
-- repository: it is a record of what its documentation says of one key, with the
-- transactions that internal/nest sends.
use hamstergres.Base.{ℕ, ◌<◌, ◌≡◌, Option, none, some}

-- A stored value, and the `mod_revision` of the write that stored it.
pub record Entry (V : Type 0) : Type 0 where
  pub value : V
  pub mod_revision : ℕ

abbrev pub revision_of : {V : Type 0} → Option (Entry V) → Option ℕ
revision_of none = none
revision_of (some e) = some e.mod_revision

-- Each revision is older than `r`.
abbrev pub IsOlder : Option ℕ → ℕ → Type 0
IsOlder none r = Unit
IsOlder (some q) r = q < r

pub record Etcd (V : Type 0) : Type 1 where
  pub Store : Type 0
  -- /v3/kv/range
  pub range : Store → Option (Entry V)
  -- /v3/kv/txn: a put, if the key's revision is the expected one (`none`: if the key is absent);
  -- `none` if the comparison failed
  pub txn : Option ℕ → V → Store → Option Store
  -- a transaction succeeds only if its comparison holds
  pub txn_compares :
      (expected : Option ℕ) (v : V) (s t : Store)
      → txn expected v s ≡ some t
      → revision_of (range s) ≡ expected
  -- a transaction whose comparison holds succeeds
  pub txn_applies :
      (expected : Option ℕ) (v : V) (s : Store)
      → revision_of (range s) ≡ expected
      → (t : Store) × (txn expected v s ≡ some t)
  -- a put is read back, at a revision newer than the one before
  pub txn_puts :
      (expected : Option ℕ) (v : V) (s t : Store)
      → txn expected v s ≡ some t
      → (r : ℕ) × (range t ≡ some (record { value = v; mod_revision = r })) × IsOlder expected r
