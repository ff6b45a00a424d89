-- ===== src/Backend/RuntimeParams.antt =====
-- The settings that a frontend session has on a pooled connection: `applyRuntimeParams` of
-- internal/backend/backend.go with what it calls. `key` is the name of the connection
-- (preparedConnectionKey).
pub mod Loops
pub mod Requests
pub mod Tracked
pub mod Settled
pub mod Isolated
use hamstergres.Base.{
  ℕ, ◌≡◌, String, str_eq, Bool, true, false, List, [], ◌∷◌, Option, none, some, if◌then◌else◌,
  is_present,
}
use hamstergres.Base.GoMap.{GoMap, get, put, delete, keys}
use hamstergres.Base.Sort.{sort}

-- A connection to a PostgreSQL server, which is not part of the repository: what the documentation
-- says of current_setting and set_config. A text may have another spelling of the same value, such
-- as the case of a keyword; a statement fails with an error that the caller gets.
-- A name is plain that is spelled as the documentation spells it, of a parameter whose setting
-- another plain one leaves alone: `timezone`, which is `TimeZone` too, is not plain, nor is
-- session_authorization, which changes role. A text is whole that gives a value by itself, as those
-- do that PostgreSQL shows: `ISO` for DateStyle, which keeps the order of the date, is not whole.
pub record Postgres : Type 1 where
  pub Conn : Type 0
  pub Value : Type 0
  pub meaning : String → String → Value
  pub setting : Conn → String → Value
  pub IsPlain : String → Type 0
  pub IsWhole : String → String → Type 0
  -- SELECT current_setting($1)
  pub current_setting : String → Conn → Option String × Conn
  -- SELECT set_config($1, $2, false)
  pub set_config : String → String → Conn → Bool × Conn
  pub reads :
      (name v : String) (c : Conn)
      → IsPlain name
      → (current_setting name c).0 ≡ some v
      → (meaning name v ≡ setting c name) × IsWhole name v
  pub keeps : (name k : String) (c : Conn) → setting ((current_setting name c).1) k ≡ setting c k
  pub sets :
      (name v : String) (c : Conn)
      → IsPlain name
      → IsWhole name v
      → (set_config name v c).0 ≡ true
      → setting ((set_config name v c).1) name ≡ meaning name v
  pub spares :
      (name v k : String) (c : Conn)
      → IsPlain name
      → IsPlain k
      → str_eq name k ≡ false
      → setting ((set_config name v c).1) k ≡ setting c k

pub record ParamState : Type 0 where
  pub baseline : GoMap String
  pub current : GoMap String

abbrev pub no_params : ParamState
no_params = record { baseline = []; current = [] }

abbrev pub state_or_new : Option ParamState → ParamState
state_or_new none = no_params
state_or_new (some s) = s

pub data ParamError : Type 0 where
  inspect_failed : String → ParamError
  apply_failed : String → ParamError

abbrev pub with_baseline : String → String → ParamState → ParamState
with_baseline name value s =
    if is_present (get name s.baseline)
    then s
    else record { baseline = put name value s.baseline; current = put name value s.current }

unfoldable pub remember_baseline : String → String → String → GoMap ParamState → GoMap ParamState
unfolding get put
remember_baseline key name value params =
    put key (with_baseline name value (state_or_new (get key params))) params

abbrev pub with_current : String → String → ParamState → ParamState
with_current name value s = record s { current = put name value s.current }

unfoldable pub remember_param : String → String → String → GoMap ParamState → GoMap ParamState
unfolding get put
remember_param key name value params =
    put key (with_current name value (state_or_new (get key params))) params

unfoldable pub forget_params : String → GoMap ParamState → GoMap ParamState
unfolding delete
forget_params key params = delete key params

-- The names without a baseline.
unfoldable pub missing_from : GoMap String → GoMap String → List String
missing_from baseline [] = []
missing_from baseline ((name, value) ∷ desired) =
    let rest = missing_from baseline desired in
    if is_present (get name baseline) then rest else name ∷ rest

-- m[k] = v for each entry of another map
unfoldable pub overlay : GoMap String → GoMap String → GoMap String
unfolding put
overlay [] m = m
overlay ((k, v) ∷ entries) m = overlay entries (put k v m)

abbrev pub or_empty : Option String → String
or_empty none = ""
or_empty (some v) = v

-- The loop of changedRuntimeParams over the effective settings.
unfoldable pub changed_from : GoMap String → GoMap String → GoMap String → GoMap String
unfolding get put
changed_from current [] changed = changed
changed_from current ((name, value) ∷ effective) changed =
    changed_from current effective
      (if str_eq (or_empty (get name current)) value then changed else put name value changed)

unfoldable pub changed_params : ParamState → GoMap String → GoMap String
unfolding overlay changed_from
changed_params s desired = changed_from s.current (overlay desired (overlay s.baseline [])) []

module _ (pg : Postgres) where
  -- The map of the manager and the connection.
  pub record World : Type 0 where
    pub params : GoMap ParamState
    pub conn : pg.Conn

  abbrev pub or_failed :
      ParamError
      → World
      → (String → Option ParamError × World)
      → Option String
      → Option ParamError × World
  or_failed e w next none = (some e, w)
  or_failed e w next (some value) = next value

  -- The loop of ensureRuntimeParamBaselines over the sorted names.
  unfoldable pub read_baselines : String → List String → World → Option ParamError × World
  unfolding remember_baseline
  read_baselines key [] w = (none, w)
  read_baselines key (name ∷ names) w =
      let (answer, conn) = pg.current_setting name w.conn in
      or_failed (inspect_failed name) (record w { conn = conn })
        (λ value.
          read_baselines key names
            (record { params = remember_baseline key name value w.params; conn = conn }))
        answer

  -- The loop of applyRuntimeParams over the sorted names.
  unfoldable pub apply_changed :
      String → GoMap String → List String → World → Option ParamError × World
  unfolding remember_param get
  apply_changed key changed [] w = (none, w)
  apply_changed key changed (name ∷ names) w =
      let value = or_empty (get name changed) in
      let (done, conn) = pg.set_config name value w.conn in
      let rest =
        apply_changed key changed names
          (record { params = remember_param key name value w.params; conn = conn }) in
      if done then rest else (some (apply_failed name), record w { conn = conn })

  -- On an error the connection is closed and forgotten.
  abbrev pub or_discard :
      String
      → (World → Option ParamError × World)
      → Option ParamError × World
      → Option ParamError × World
  or_discard key next (none, w) = next w
  or_discard key next (some e, w) = (some e, record w { params = forget_params key w.params })

  abbrev pub done_applying : World → Option ParamError × World
  done_applying w = (none, w)

  unfoldable pub ensure_baselines : String → GoMap String → World → Option ParamError × World
  unfolding read_baselines missing_from get sort
  ensure_baselines key desired w =
      read_baselines key (sort (missing_from (state_or_new (get key w.params)).baseline desired)) w

  unfoldable pub apply_runtime_params : String → GoMap String → World → Option ParamError × World
  unfolding ensure_baselines apply_changed changed_params get sort forget_params
  apply_runtime_params key desired w =
      or_discard key
        (λ v.
          let changed = changed_params (state_or_new (get key v.params)) desired in
          or_discard key done_applying (apply_changed key changed (sort (keys changed)) v))
        (ensure_baselines key desired w)
