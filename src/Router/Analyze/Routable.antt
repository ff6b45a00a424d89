-- ===== src/Router/Analyze/Routable.antt =====
-- What keeps a statement on a sharded table from being routed: the guards of `Prepared.Analyze` of
-- internal/router/router.go, without their loops.
use hamstergres.Base.{
  ◌≡◌, ◌≢◌, ◌⊎◌, inl, inr, String, Bool, true, false, not, ◌||◌, List, [], ◌∷◌, Option, none, some,
  contains, All, arith, Bool-cases, ◌==◌,
}
use hamstergres.Schema.{Registry}
use hamstergres.Router.Bytes.{Bytes}
use hamstergres.Router.Scalar.{FloatText}
use hamstergres.Router.Tree.{ResTarget, InsertStmt, UpdateStmt}
use hamstergres.Router.Predicate.{updates_shard_key}
use hamstergres.Router.Statement.{Prepared}
use hamstergres.Router.Analyze.{is_unroutable, conflicts, changes_key, is_none}

-- No ON CONFLICT in an INSERT.
abbrev pub LacksConflict : Option InsertStmt → Type 0
LacksConflict none = Unit
LacksConflict (some i) = i.on_conflict ≡ false

-- A target of an UPDATE that is no column of the key.
abbrev pub KeepsTarget : List String → Option ResTarget → Type 0
KeepsTarget columns none = Unit
KeepsTarget columns (some t) = (t.indirect ≡ true) ⊎ (contains t.name columns ≡ false)

abbrev pub KeepsKey : List String → Option UpdateStmt → Type 0
KeepsKey columns none = Unit
KeepsKey columns (some u) = All (KeepsTarget columns) u.targets

updates_shard_key-KeepsKey :
    (ts : List (Option ResTarget)) (columns : List String)
    → updates_shard_key ts columns ≡ false
    → All (KeepsTarget columns) ts
unfolding updates_shard_key
updates_shard_key-KeepsKey [] columns h = tt
updates_shard_key-KeepsKey (none ∷ ts) columns h = (tt, updates_shard_key-KeepsKey ts columns h)
updates_shard_key-KeepsKey (some t ∷ ts) columns h = elim (Bool-cases t.indirect) [
  | inl indirect ↦ (inl indirect, updates_shard_key-KeepsKey ts columns (rw indirect at h))
  | inr direct ↦ elim (Bool-cases (contains t.name columns)) [
    | inl changed ↦ cc (rw (direct, changed) at h)
    | inr kept ↦ (inr kept, updates_shard_key-KeepsKey ts columns (rw (direct, kept) at h))
  ]
]

-- What lets a statement on a sharded table be routed: a fleet and a key, one physical relation,
-- no conflict clause and no change of a column of the key.
abbrev pub IsRoutable : List String → Prepared → List String → Type 0
IsRoutable burrows p columns =
    (columns ≢ [])
    × (burrows ≢ [])
    × (p.physical_relations ≡ 1)
    × LacksConflict p.insert
    × KeepsKey columns p.update

is_none-empty : (xs : List String) → is_none xs ≡ false → xs ≢ []
is_none-empty [] h e = cc
is_none-empty (x ∷ xs) h e = cc

conflicts-LacksConflict : (i : Option InsertStmt) → conflicts i ≡ false → LacksConflict i
conflicts-LacksConflict none h = tt
conflicts-LacksConflict (some i) h = h

changes_key-KeepsKey :
    (u : Option UpdateStmt) (columns : List String)
    → changes_key u columns ≡ false
    → KeepsKey columns u
changes_key-KeepsKey none columns h = tt
changes_key-KeepsKey (some u) columns h = updates_shard_key-KeepsKey u.targets columns h

all_false :
    (a b c d e : Bool)
    → (a || b || not c || d || e) ≡ false
    → (a ≡ false) × (b ≡ false) × (c ≡ true) × (d ≡ false) × (e ≡ false)
all_false a b c d e h = ground arith

module _ (float_text : FloatText) (parameters : List (Option Bytes)) (registry : Registry)
    (burrows : List String) where
  pub is_unroutable-IsRoutable :
      (p : Prepared) (columns : List String)
      → is_unroutable float_text parameters registry burrows p columns ≡ false
      → IsRoutable burrows p columns
  unfolding is_unroutable
  is_unroutable-IsRoutable p columns h =
      let (columns_left, burrows_left, one, plain, kept) =
        all_false (is_none columns) (is_none burrows) (p.physical_relations == 1)
          (conflicts p.insert) (changes_key p.update columns) h in
      (
        is_none-empty columns columns_left,
        is_none-empty burrows burrows_left,
        ground arith,
        conflicts-LacksConflict p.insert plain,
        changes_key-KeepsKey p.update columns kept,
      )
