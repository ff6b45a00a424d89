-- ===== src/Backend/RuntimeParams/Isolated.antt =====
-- A session gets its own settings on a pooled connection, and the defaults of the server for the
-- others, whatever sessions had the connection before: applyRuntimeParams of
-- internal/backend/backend.go.
use hamstergres.Base.{
  ◌≡◌, refl, sym, ◌∙◌, subst, String, str_eq, eq_iff, eq_refl, Bool, true, false, ◌||◌, List, [],
  ◌∷◌, contains, Distinct, Option, none, some, if◌then◌else◌, is_present, Bool-cases, if-cases, inl,
  inr, arith, All,
}
use hamstergres.Base.GoMap.{GoMap, get, keys, get-delete}
use hamstergres.Base.Sort.{sort}
use hamstergres.Backend.RuntimeParams.{
  Postgres, ParamState, state_or_new, ParamError, inspect_failed, apply_failed, with_baseline,
  remember_baseline, remember_param, forget_params, changed_params, missing_from, or_empty, World,
  or_failed, read_baselines, apply_changed, ensure_baselines, apply_runtime_params, or_discard,
}
use hamstergres.Backend.RuntimeParams.Settled.{wanted, settled}
use hamstergres.Backend.RuntimeParams.Tracked.{
  Tracks, with_baseline-Tracks, new_current, remembered, remembered_param,
}
use hamstergres.Backend.RuntimeParams.Requests.{IsRequest, get-IsRequest, asked_plain}
use hamstergres.Backend.RuntimeParams.Loops.{
  is_missing, changed_covered, missing_asked, changed_params_of,
}

either {ℓ} :
    {A : Type ℓ} {m x y : A} (a b : Bool)
    → (a ≡ true → x ≡ m)
    → (a ≡ false → x ≡ y)
    → (if b then m else x) ≡ (if a || b then m else y)
either true true same spared = refl
either true false same spared = same refl
either false true same spared = refl
either false false same spared = spared refl

module _ (pg : Postgres) (default : String → pg.Value) where
  abbrev W : Type 0
  W = World pg

  abbrev pub state_at : String → W → ParamState
  state_at key w = state_or_new (get key w.params)

  abbrev pub Tracked : String → W → Type 0
  Tracked key w = Tracks pg default (state_at key w) w.conn

  -- Each name with a baseline keeps one.
  abbrev KeepsBaselines : String → W → W → Type 0
  KeepsBaselines key w w' =
      (n : String)
      → is_present (get n (state_at key w).baseline) ≡ true
      → is_present (get n (state_at key w').baseline) ≡ true

  or_failed-cases :
      (P : Option ParamError × W → Type 0) (e : ParamError) (w : W)
      (next : String → Option ParamError × W) (answer : Option String)
      → (answer ≡ none → P (some e, w))
      → ((v : String) → answer ≡ some v → P (next v))
      → P (or_failed pg e w next answer)
  or_failed-cases P e w next none failed read = failed refl
  or_failed-cases P e w next (some v) failed read = read v refl

  -- What ensureRuntimeParamBaselines leaves, if no statement fails: the settings as they are, each of
  -- the names with a baseline.
  abbrev IsRead : String → List String → W → Option ParamError × W → Type 0
  IsRead key names w r =
      r.0 ≡ none
      → Tracked key (r.1)
        × KeepsBaselines key w (r.1)
        × ((n : String)
            → contains n names ≡ true
            → is_present (get n (state_at key (r.1)).baseline) ≡ true)

  read_baselines-IsRead :
      (key : String) (names : List String) (w : W)
      → Tracked key w
      → ((n : String) → contains n names ≡ true → pg.IsPlain n)
      → IsRead key names w (read_baselines pg key names w)
  unfolding read_baselines
  read_baselines-IsRead key [] w tracked plain = λ returned. (tracked, (λ n h. h), λ n h. cc)
  read_baselines-IsRead key (name ∷ names) w tracked plain =
      or_failed-cases (IsRead key (name ∷ names) w) _ _ _ ((pg.current_setting name w.conn).0)
        (λ failed returned. cc)
        (λ value read.
          let conn = (pg.current_setting name w.conn).1 in
          let w' : W = record { params = remember_baseline key name value w.params; conn = conn } in
          let name_plain = plain name (ground (arith, eq_refl name)) in
          let (meant, whole) = pg.reads name value w.conn name_plain read in
          let (tracks, present, more) =
            with_baseline-Tracks pg default name value (state_at key w) w.conn conn tracked
              name_plain whole meant (λ k. pg.keeps name k w.conn) in
          let same = sym (remembered key name value w.params) in
          let rest =
            read_baselines-IsRead key names w' (subst (λ s. Tracks pg default s conn) same tracks)
              (λ n h. plain n (ground arith)) in
          λ returned.
            let (tracked', kept, covered) = rest returned in
            (
              tracked',
              (λ n h. kept n (subst (λ s. is_present (get n s.baseline) ≡ true) same (more n h))),
              λ n h. elim (Bool-cases (str_eq name n)) [
                | inl is_name ↦ kept n (
                    subst (λ s. is_present (get n s.baseline) ≡ true) same
                      (subst
                        (λ k.
                          is_present (get k (with_baseline name value (state_at key w)).baseline)
                          ≡ true)
                        ((eq_iff name n).0 is_name) present))
                | inr other ↦ covered n (ground arith)
              ],
            ))

  -- What the second loop of applyRuntimeParams leaves, if no statement fails: the settings of the
  -- names are what the map says, and the others as they were.
  abbrev IsApplied : String → GoMap String → List String → W → Option ParamError × W → Type 0
  IsApplied key changed names w r =
      r.0 ≡ none
      → Tracked key (r.1)
        × ((n : String)
            → pg.IsPlain n
            → pg.setting r.1.conn n ≡ (
                if contains n names
                then pg.meaning n (or_empty (get n changed))
                else pg.setting w.conn n))

  apply_changed-IsApplied :
      (key : String) (changed : GoMap String) (names : List String) (w : W)
      → Tracked key w
      → ((n : String)
          → contains n names ≡ true
          → is_present (get n (state_at key w).baseline) ≡ true)
      → ((n : String) → contains n names ≡ true → pg.IsWhole n (or_empty (get n changed)))
      → IsApplied key changed names w (apply_changed pg key changed names w)
  unfolding apply_changed
  apply_changed-IsApplied key changed [] w tracked covered whole =
      λ returned. (tracked, λ n plain. refl)
  apply_changed-IsApplied key changed (name ∷ names) w tracked covered whole =
      if-cases (IsApplied key changed (name ∷ names) w)
        ((pg.set_config name (or_empty (get name changed)) w.conn).0)
        (λ done.
          let value = or_empty (get name changed) in
          let conn = (pg.set_config name value w.conn).1 in
          let w' : W = record { params = remember_param key name value w.params; conn = conn } in
          let same = sym (remembered_param key name value w.params) in
          let here : contains name (name ∷ names) ≡ true = ground (arith, eq_refl name) in
          let name_plain = tracked.is_plain name (covered name here) in
          let set = pg.sets name value w.conn name_plain (whole name here) done in
          let tracks =
            new_current pg default name value (state_at key w) w.conn conn tracked
              (covered name here) set
              (λ k plain differs. pg.spares name value k w.conn name_plain plain differs) in
          let rest =
            apply_changed-IsApplied key changed names w'
              (subst (λ s. Tracks pg default s conn) same tracks)
              (λ n h.
                subst (λ s. is_present (get n s.baseline) ≡ true) same (covered n (ground arith)))
              (λ n h. whole n (ground arith)) in
          λ returned.
            let (tracked', settings) = rest returned in
            (
              tracked',
              λ n plain.
                  settings n plain
                  ∙ either (str_eq name n) (contains n names)
                      (λ is_name.
                        subst (λ k. pg.setting conn k ≡ pg.meaning k (or_empty (get k changed)))
                          ((eq_iff name n).0 is_name) set)
                      (λ differs. pg.spares name value n w.conn name_plain plain differs),
            ))
        (λ failed returned. cc)

  -- The statement that an error names has failed.
  abbrev pub IsFailure : ParamError → Type 0
  IsFailure (inspect_failed name) = (c : pg.Conn) × ((pg.current_setting name c).0 ≡ none)
  IsFailure (apply_failed name) =
      (v : String) × (c : pg.Conn) × ((pg.set_config name v c).0 ≡ false)

  abbrev IsHonest : Option ParamError × W → Type 0
  IsHonest (none, w) = Unit
  IsHonest (some e, w) = IsFailure e

  read_baselines-IsHonest :
      (key : String) (names : List String) (w : W) → IsHonest (read_baselines pg key names w)
  unfolding read_baselines
  read_baselines-IsHonest key [] w = tt
  read_baselines-IsHonest key (name ∷ names) w =
      or_failed-cases IsHonest _ _ _ ((pg.current_setting name w.conn).0)
        (λ failed. (w.conn, failed)) (λ value read. read_baselines-IsHonest key names _)

  apply_changed-IsHonest :
      (key : String) (changed : GoMap String) (names : List String) (w : W)
      → IsHonest (apply_changed pg key changed names w)
  unfolding apply_changed
  apply_changed-IsHonest key changed [] w = tt
  apply_changed-IsHonest key changed (name ∷ names) w =
      if-cases IsHonest ((pg.set_config name (or_empty (get name changed)) w.conn).0)
        (λ done. apply_changed-IsHonest key changed names _)
        (λ failed. (or_empty (get name changed), w.conn, failed))

  -- What applyRuntimeParams does to a connection, by what it returns.
  abbrev pub IsIsolated : String → GoMap String → Option ParamError × W → Type 0
  IsIsolated key desired (none, w) =
      Tracked key w
      × ((n : String) → pg.IsPlain n → pg.setting w.conn n ≡ wanted pg default n (get n desired))
  IsIsolated key desired (some e, w) = IsFailure e × (get key w.params ≡ none)

  or_discard-cases :
      (P : Option ParamError × W → Type 0) (key : String) (next : W → Option ParamError × W)
      (r : Option ParamError × W)
      → IsHonest r
      → (r.0 ≡ none → P (next (r.1)))
      → ((e : ParamError) (w : W)
          → IsFailure e
          → P (some e, record w { params = forget_params key w.params }))
      → P (or_discard pg key next r)
  or_discard-cases P key next (none, w) honest continued failed = continued refl
  or_discard-cases P key next (some e, w) honest continued failed = failed e w honest

  discarded :
      (key : String) (desired : GoMap String) (e : ParamError) (w : W)
      → IsFailure e
      → IsIsolated key desired (some e, record w { params = forget_params key w.params })
  unfolding forget_params
  discarded key desired e w failure = (failure, rw (get-delete key key w.params, eq_refl key))

  -- A session asks for settings under different names, each the documented spelling of a parameter
  -- that no other such setting affects, with texts that give a value by themselves. On a connection
  -- of which the manager knows the settings, applyRuntimeParams either returns no error, and each
  -- setting of such a name is what the session asks for, or the default of the server where the
  -- session asks for nothing, whatever sessions of this kind set before, and the manager knows the
  -- settings again; or it returns an error that names a statement that failed, and the connection
  -- is forgotten.
  pub apply_runtime_params-IsIsolated :
      (key : String) (desired : GoMap String) (w : W)
      → Tracked key w
      → Distinct (keys desired)
      → All (IsRequest pg) desired
      → IsIsolated key desired (apply_runtime_params pg key desired w)
  unfolding apply_runtime_params ensure_baselines
  apply_runtime_params-IsIsolated key desired w tracked distinct requests =
      let s = state_at key w in
      let names = sort (missing_from s.baseline desired) in
      let read = read_baselines pg key names w in
      or_discard-cases (IsIsolated key desired) key _ read (read_baselines-IsHonest key names w)
        (λ returned.
          let (tracked', kept, covered) =
            read_baselines-IsRead key names w tracked
              (λ n h. asked_plain pg n desired requests (missing_asked n s.baseline desired h))
              returned in
          let v : W = read.1 in
          let s' = state_at key v in
          let changed = changed_params s' desired in
          let all_covered : (n : String)
              → is_present (get n desired) ≡ true
              → is_present (get n s'.baseline) ≡ true =
            λ n asked. elim (Bool-cases (is_present (get n s.baseline))) [
              | inl known ↦ kept n known
              | inr new ↦ covered n (is_missing n s.baseline desired asked new)
            ] in
          or_discard-cases (IsIsolated key desired) key _
            (apply_changed pg key changed (sort (keys changed)) v)
            (apply_changed-IsHonest key changed (sort (keys changed)) v)
            (λ applied.
              let (tracked'', settings) =
                apply_changed-IsApplied key changed (sort (keys changed)) v tracked'
                  (λ n h. changed_covered n s' desired tracked'.differ distinct (all_covered n) h)
                  (λ n h.
                    changed_params_of (pg.IsWhole n) n s' desired tracked'.differ distinct
                      (λ v asked. (get-IsRequest pg n v desired requests asked).1)
                      (tracked'.is_whole n) h)
                  applied in
              (
                tracked'',
                λ n plain.
                    settings n plain
                    ∙ settled pg default n s' desired v.conn tracked' plain distinct
                        (all_covered n),
              ))
            (discarded key desired))
        (discarded key desired)
