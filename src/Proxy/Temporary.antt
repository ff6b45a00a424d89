-- ===== src/Proxy/Temporary.antt =====
-- The temporary relations that a session of internal/proxy/server.go remembers: `RangeVar` keys,
-- `rememberTemporaryStatement` and what it calls, `applyTemporaryOnCommitDrop`.
use Prim.Native.String.{◌++◌ as ◌++ₛ◌}
use hamstergres.Base.{
  String, str_eq, Bool, true, false, not, ◌&&◌, ◌||◌, List, [], ◌∷◌, Option, none, some, is_present,
  contains, if◌then◌else◌,
}
use hamstergres.Base.GoMap.{GoMap, get, put, delete, keys}
use hamstergres.Router.Statement.{is_text}
use hamstergres.Schema.{contains_dot}

-- map[string]struct{}
abbrev pub Set : Type 0
Set = GoMap Unit

abbrev pub has : String → Set → Bool
has k s = is_present (get k s)

-- A relation of a statement; `persistence` is "t" for a temporary one.
pub record Relation : Type 0 where
  pub schema_name : String
  pub relation : String
  pub persistence : String

pub record ObjectName : Type 0 where
  pub schema_name : String
  pub object : String

pub data OnCommit : Type 0 where
  on_commit_drop on_commit_other : OnCommit

pub data ObjectType : Type 0 where
  object_table object_index object_sequence object_view object_matview object_foreign_table :
      ObjectType
  object_other : ObjectType

pub data DiscardMode : Type 0 where
  discard_all discard_temp discard_other : DiscardMode

-- The statements that the parser returns; `none` is a nil pointer. The items of an object to drop
-- are its names, where `none` is a node that is no String.
pub data Statement : Type 0 where
  create_stmt create_table_as_stmt select_into : Option Relation → OnCommit → Statement
  index_stmt : Option Relation → String → Statement
  rename_stmt : ObjectType → Option Relation → String → Statement
  drop_stmt : ObjectType → List (List (Option String)) → Statement
  discard_stmt : DiscardMode → Statement
  other_stmt : Statement

-- The maps of the session; a nil map is an empty one.
pub record Temporaries : Type 0 where
  pub relations : Set
  pub on_commit_drops : Set
  pub index_parents : GoMap String

abbrev pub no_temporaries : Temporaries
no_temporaries = record { relations = []; on_commit_drops = []; index_parents = [] }

abbrev pub is_unqualified : String → Bool
is_unqualified s = str_eq s "" || is_text s "pg_temp"

abbrev pub temporary_name_keys : ObjectName → List String
temporary_name_keys n =
    if str_eq n.object ""
    then []
    else if is_unqualified n.schema_name
    then n.object ∷ ("pg_temp." ++ₛ n.object) ∷ []
    else (n.schema_name ++ₛ "." ++ₛ n.object) ∷ []

abbrev pub temporary_name_canonical : ObjectName → String
temporary_name_canonical n =
    if is_unqualified n.schema_name
    then "pg_temp." ++ₛ n.object
    else n.schema_name ++ₛ "." ++ₛ n.object

abbrev pub name_of : Relation → ObjectName
name_of r = record { schema_name = r.schema_name; object = r.relation }

abbrev pub relation_set_contains : Set → Relation → Bool
relation_set_contains s r =
    if str_eq r.relation ""
    then false
    else if str_eq r.schema_name ""
    then has r.relation s
    else if is_text r.schema_name "pg_temp"
    then has ("pg_temp." ++ₛ r.relation) s || has r.relation s
    else has (r.schema_name ++ₛ "." ++ₛ r.relation) s

-- `dropTargetsTemporaryRelations` and `renameTargetsRelation`
abbrev pub targets_relation : ObjectType → Bool
targets_relation object_other = false
targets_relation _ = true

abbrev pub strings_of : List (Option String) → List String
strings_of [] = []
strings_of (none ∷ items) = strings_of items
strings_of (some s ∷ items) = s ∷ strings_of items

-- The last part is the name, the one before it the schema.
abbrev pub object_name : List String → Option ObjectName
object_name [] = none
object_name (n ∷ []) = some (record { schema_name = ""; object = n })
object_name (s ∷ n ∷ []) = some (record { schema_name = s; object = n })
object_name (p ∷ s ∷ n ∷ parts) = object_name (s ∷ n ∷ parts)

abbrev pub drop_object_names : List (List (Option String)) → List ObjectName
drop_object_names [] = []
drop_object_names (o ∷ os) = elim (object_name (strings_of o)) [
  | none ↦ drop_object_names os
  | some n ↦ n ∷ drop_object_names os
]

abbrev pub put_all {ℓ} : {V : Type ℓ} → List String → V → GoMap V → GoMap V
put_all [] v m = m
put_all (k ∷ ks) v m = put_all ks v (put k v m)

abbrev pub delete_all {ℓ} : {V : Type ℓ} → List String → GoMap V → GoMap V
delete_all [] m = m
delete_all (k ∷ ks) m = delete_all ks (delete k m)

abbrev pub is_drop : OnCommit → Bool
is_drop on_commit_drop = true
is_drop on_commit_other = false

unfoldable pub remember_temporary_relation : Bool → Relation → OnCommit → Temporaries → Temporaries
remember_temporary_relation transaction r c t =
    if str_eq r.relation "" || is_drop c && not transaction then t else record t {
      relations = put_all (temporary_name_keys (name_of r)) tt t.relations;
      on_commit_drops =
          if is_drop c
          then put_all (temporary_name_keys (name_of r)) tt t.on_commit_drops
          else t.on_commit_drops;
    }

abbrev pub index_name : Relation → String → ObjectName
index_name r name = record {
  schema_name = if is_text r.schema_name "pg_temp" then "pg_temp" else "";
  object = name;
}

unfoldable pub remember_temporary_index : Relation → String → Temporaries → Temporaries
remember_temporary_index r name t =
    let names = temporary_name_keys (index_name r name) in
    record t {
      relations = put_all names tt t.relations;
      index_parents = put_all names (temporary_name_canonical (name_of r)) t.index_parents;
    }

-- The parent that the last of the keys has, "" if none has one.
abbrev pub parent_of : List String → GoMap String → String → String
parent_of [] m acc = acc
parent_of (k ∷ ks) m acc = elim (get k m) [ none ↦ parent_of ks m acc | some p ↦ parent_of ks m p ]

abbrev pub has_any : List String → Set → Bool
has_any [] s = false
has_any (k ∷ ks) s = has k s || has_any ks s

abbrev pub reparent : String → String → GoMap String → GoMap String
reparent old new [] = []
reparent old new ((k, p) ∷ m) = (k, if str_eq p old then new else p) ∷ reparent old new m

-- The relation is known; `indexParent` is found before its entry goes.
abbrev pub rename_known : Relation → String → Temporaries → Temporaries
rename_known r new_name t =
    let old_keys = temporary_name_keys (name_of r) in
    let renamed = record r { relation = new_name } in
    let new_keys = temporary_name_keys (name_of renamed) in
    let parent = parent_of old_keys t.index_parents "" in
    let left = delete_all old_keys t.relations in
    let parents = delete_all old_keys t.index_parents in
    let drop_it = has_any old_keys t.on_commit_drops in
    let drops = delete_all old_keys t.on_commit_drops in
    if not (str_eq parent "")
    then record t {
      relations = put_all new_keys tt left;
      index_parents = put_all new_keys parent parents;
    }
    else record t {
      relations = put_all new_keys tt left;
      on_commit_drops = if drop_it then put_all new_keys tt drops else drops;
      index_parents =
          reparent (temporary_name_canonical (name_of r))
            (temporary_name_canonical (name_of renamed)) parents;
    }

unfoldable pub rename_temporary_relation :
    ObjectType → Relation → String → Temporaries → Temporaries
rename_temporary_relation o r new_name t =
    if str_eq new_name "" || not (targets_relation o) || not (relation_set_contains t.relations r)
    then t
    else rename_known r new_name t

abbrev pub forget_key : String → Temporaries → Temporaries
forget_key k t = record t {
  relations = delete k t.relations;
  index_parents = delete k t.index_parents;
}

-- The indexes of the relations to which `parents` applies go with them.
abbrev pub forget_children : (String → Bool) → GoMap String → Temporaries → Temporaries
forget_children parents [] t = t
forget_children parents ((k, p) ∷ m) t =
    forget_children parents m (if parents p then forget_key k t else t)

unfoldable pub forget_temporary_name : ObjectName → Bool → Temporaries → Temporaries
forget_temporary_name n cascade t =
    let names = temporary_name_keys n in
    let left : Temporaries = record {
      relations = delete_all names t.relations;
      on_commit_drops = delete_all names t.on_commit_drops;
      index_parents = delete_all names t.index_parents;
    } in
    if cascade
    then forget_children (str_eq (temporary_name_canonical n)) left.index_parents left
    else left

abbrev pub forget_all : List ObjectName → Bool → Temporaries → Temporaries
forget_all [] cascade t = t
forget_all (n ∷ ns) cascade t = forget_all ns cascade (forget_temporary_name n cascade t)

abbrev pub is_index : ObjectType → Bool
is_index object_index = true
is_index _ = false

abbrev pub remember_created : Bool → Option Relation → OnCommit → Temporaries → Temporaries
remember_created transaction none c t = t
remember_created transaction (some r) c t =
    if str_eq r.persistence "t" then remember_temporary_relation transaction r c t else t

unfoldable pub remember_temporary_statement : Bool → Statement → Temporaries → Temporaries
remember_temporary_statement transaction (create_stmt r c) t = remember_created transaction r c t
remember_temporary_statement transaction (create_table_as_stmt r c) t =
    remember_created transaction r c t
remember_temporary_statement transaction (select_into r c) t = remember_created transaction r c t
remember_temporary_statement transaction (index_stmt none name) t = t
remember_temporary_statement transaction (index_stmt (some r) name) t =
    if relation_set_contains t.relations r && not (str_eq name "")
    then remember_temporary_index r name t
    else t
remember_temporary_statement transaction (rename_stmt o none name) t = t
remember_temporary_statement transaction (rename_stmt o (some r) name) t =
    rename_temporary_relation o r name t
remember_temporary_statement transaction (drop_stmt o objects) t =
    if targets_relation o then forget_all (drop_object_names objects) (not (is_index o)) t else t
remember_temporary_statement transaction (discard_stmt discard_other) t = t
remember_temporary_statement transaction (discard_stmt _) t = no_temporaries
remember_temporary_statement transaction other_stmt t = t

-- The canonical name of a key.
unfoldable pub parent_key : String → String
unfolding contains_dot
parent_key k = if contains_dot k then k else "pg_temp." ++ₛ k

abbrev pub drop_keys : List String → Temporaries → Temporaries
drop_keys [] t = t
drop_keys (k ∷ ks) t = drop_keys ks (forget_key k t)

abbrev pub parent_keys : List String → List String
parent_keys [] = []
parent_keys (k ∷ ks) = parent_key k ∷ parent_keys ks

unfoldable pub apply_on_commit_drop : Temporaries → Temporaries
apply_on_commit_drop t =
    let dropped = keys t.on_commit_drops in
    let left = record (drop_keys dropped t) { on_commit_drops = [] } in
    forget_children (λ p. contains p (parent_keys dropped)) left.index_parents left
