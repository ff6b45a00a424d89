-- ===== src/Backend/RuntimeParams/Tracked.antt =====
-- What the manager of internal/backend/backend.go knows of the settings of a connection, and the
-- steps of `applyRuntimeParams` that keep it true.
use hamstergres.Base.{
  ◌≡◌, refl, sym, ◌∙◌, String, str_eq, eq_iff, eq_refl, true, false, Distinct, Option, none, some,
  is_present, Bool-cases, if-cases, inl, inr, arith, ◌⊎◌, subst,
}
use hamstergres.Base.GoMap.{GoMap, get, put, keys, get-empty, get-put}
use hamstergres.Base.GoMap.Keys.{Distinct-put}
use hamstergres.Backend.RuntimeParams.{
  Postgres, ParamState, no_params, state_or_new, with_baseline, with_current, remember_baseline,
  remember_param,
}

no_value : (o : Option String) → is_present o ≡ false → o ≡ none
no_value none missing = refl
no_value (some v) missing = cc

absent_differs :
    (name n : String) (m : GoMap String)
    → is_present (get name m) ≡ true
    → get n m ≡ none
    → str_eq name n ≡ false
absent_differs name n m present missing = elim (Bool-cases (str_eq name n)) [
  | inl same ↦ let key : name ≡ n = (eq_iff name n).0 same in cc (present, missing, key)
  | inr differs ↦ differs
]

pub remembered :
    (key name value : String) (params : GoMap ParamState)
    → state_or_new (get key (remember_baseline key name value params))
      ≡ with_baseline name value (state_or_new (get key params))
unfolding remember_baseline
remembered key name value params =
    rw (
      get-put key key (with_baseline name value (state_or_new (get key params))) params,
      eq_refl key,
    )

pub remembered_param :
    (key name value : String) (params : GoMap ParamState)
    → state_or_new (get key (remember_param key name value params))
      ≡ with_current name value (state_or_new (get key params))
unfolding remember_param
remembered_param key name value params =
    rw (
      get-put key key (with_current name value (state_or_new (get key params))) params,
      eq_refl key,
    )

module _ (pg : Postgres) (default : String → pg.Value) where
  -- What the manager knows of a connection is so: `current` is what the settings are, `baseline`
  -- what they were before the first session set them, and the others are as they were then. The
  -- names are plain and the baselines whole.
  pub record Tracks (s : ParamState) (c : pg.Conn) : Type 0 where
    pub differ : Distinct (keys s.baseline)
    pub together :
        (n : String) → is_present (get n s.baseline) ≡ true → is_present (get n s.current) ≡ true
    pub is_plain : (n : String) → is_present (get n s.baseline) ≡ true → pg.IsPlain n
    pub is_whole : (n v : String) → get n s.baseline ≡ some v → pg.IsWhole n v
    pub is_current :
        (n v : String) → pg.IsPlain n → get n s.current ≡ some v → pg.setting c n ≡ pg.meaning n v
    pub is_default : (n v : String) → get n s.baseline ≡ some v → default n ≡ pg.meaning n v
    pub untouched :
        (n : String) → pg.IsPlain n → get n s.baseline ≡ none → pg.setting c n ≡ default n

  -- A new connection, with every setting at its default.
  pub fresh-Tracks :
      (c : pg.Conn) → ((n : String) → pg.setting c n ≡ default n) → Tracks no_params c
  fresh-Tracks c fresh = record {
    differ = tt;
    together = λ n h. cc (h, get-empty {V = String} n);
    is_plain = λ n h. cc (h, get-empty {V = String} n);
    is_whole = λ n v h. cc (h, get-empty {V = String} n);
    is_current = λ n v plain h. cc (h, get-empty {V = String} n);
    is_default = λ n v h. cc (h, get-empty {V = String} n);
    untouched = λ n plain h. fresh n;
  }

  recorded :
      (name value n v : String) (m : GoMap String)
      → get n (put name value m) ≡ some v
      → ((str_eq name n ≡ true) × (name ≡ n) × (value ≡ v))
        ⊎ ((str_eq name n ≡ false) × (get n m ≡ some v))
  recorded name value n v m h = elim (Bool-cases (str_eq name n)) [
    | inl same ↦
        let found : get n (put name value m) ≡ some value = rw (get-put name n value m, same) in
        inl (same, (eq_iff name n).0 same, cc (h, found))
    | inr differs ↦
        let found : get n (put name value m) ≡ get n m = rw (get-put name n value m, differs) in
        inr (differs, sym found ∙ h)
  ]

  -- To read a setting that has no baseline gives it one.
  new_baseline :
      (name value : String) (s : ParamState) (c c' : pg.Conn)
      → Tracks s c
      → pg.IsPlain name
      → pg.IsWhole name value
      → get name s.baseline ≡ none
      → pg.meaning name value ≡ pg.setting c name
      → ((k : String) → pg.setting c' k ≡ pg.setting c k)
      → Tracks
          (record { baseline = put name value s.baseline; current = put name value s.current })
          c'
  new_baseline name value s c c' tracks plain_name whole missing read kept = record {
    differ = Distinct-put name value s.baseline tracks.differ;
    together = λ n h.
        ground (
          arith,
          get-put name n value s.baseline,
          get-put name n value s.current,
          tracks.together n,
        );
    is_plain = λ n h. elim (Bool-cases (str_eq name n)) [
      | inl same ↦ subst pg.IsPlain ((eq_iff name n).0 same) plain_name
      | inr differs ↦ tracks.is_plain n (ground (arith, get-put name n value s.baseline))
    ];
    is_whole = λ n v h. elim (recorded name value n v s.baseline h) [
      | inl (_, same, value≡) ↦
          subst (pg.IsWhole n) value≡ (subst (λ k. pg.IsWhole k value) same whole)
      | inr (_, old) ↦ tracks.is_whole n v old
    ];
    is_current = λ n v plain h. elim (recorded name value n v s.current h) [
      | inl (_, same, value≡) ↦ cc (kept n, read, same, value≡)
      | inr (_, old) ↦ kept n ∙ tracks.is_current n v plain old
    ];
    is_default = λ n v h. elim (recorded name value n v s.baseline h) [
      | inl (_, same, value≡) ↦ cc (tracks.untouched name plain_name missing, read, same, value≡)
      | inr (_, old) ↦ tracks.is_default n v old
    ];
    untouched = λ n plain h.
        kept n ∙ tracks.untouched n plain (ground (arith, get-put name n value s.baseline));
  }

  -- To set a setting that has a baseline makes it current.
  pub new_current :
      (name value : String) (s : ParamState) (c c' : pg.Conn)
      → Tracks s c
      → is_present (get name s.baseline) ≡ true
      → pg.setting c' name ≡ pg.meaning name value
      → ((k : String) → pg.IsPlain k → str_eq name k ≡ false → pg.setting c' k ≡ pg.setting c k)
      → Tracks (with_current name value s) c'
  new_current name value s c c' tracks present set spared = record {
    differ = tracks.differ;
    together = λ n h. ground (arith, get-put name n value s.current, tracks.together n);
    is_plain = tracks.is_plain;
    is_whole = tracks.is_whole;
    is_current = λ n v plain h. elim (recorded name value n v s.current h) [
      | inl (_, same, value≡) ↦ cc (set, same, value≡)
      | inr (differs, old) ↦ spared n plain differs ∙ tracks.is_current n v plain old
    ];
    is_default = tracks.is_default;
    untouched = λ n plain h.
        let differs : str_eq name n ≡ false = absent_differs name n s.baseline present h in
        spared n plain differs ∙ tracks.untouched n plain h;
  }

  -- To read a setting changes none.
  moved :
      (s : ParamState) (c c' : pg.Conn)
      → Tracks s c
      → ((k : String) → pg.setting c' k ≡ pg.setting c k)
      → Tracks s c'
  moved s c c' tracks kept = record {
    differ = tracks.differ;
    together = tracks.together;
    is_plain = tracks.is_plain;
    is_whole = tracks.is_whole;
    is_current = λ n v plain h. kept n ∙ tracks.is_current n v plain h;
    is_default = tracks.is_default;
    untouched = λ n plain h. kept n ∙ tracks.untouched n plain h;
  }

  -- A step of the loop of ensureRuntimeParamBaselines.
  pub with_baseline-Tracks :
      (name value : String) (s : ParamState) (c c' : pg.Conn)
      → Tracks s c
      → pg.IsPlain name
      → pg.IsWhole name value
      → pg.meaning name value ≡ pg.setting c name
      → ((k : String) → pg.setting c' k ≡ pg.setting c k)
      → Tracks (with_baseline name value s) c'
        × (is_present (get name (with_baseline name value s).baseline) ≡ true)
        × ((n : String)
            → is_present (get n s.baseline) ≡ true
            → is_present (get n (with_baseline name value s).baseline) ≡ true)
  with_baseline-Tracks name value s c c' tracks plain whole read kept =
      if-cases
        (λ (t : ParamState).
          Tracks t c'
          × (is_present (get name t.baseline) ≡ true)
          × ((n : String)
              → is_present (get n s.baseline) ≡ true
              → is_present (get n t.baseline) ≡ true))
        (is_present (get name s.baseline)) (λ found. (moved s c c' tracks kept, found, λ n h. h))
        (λ missing. (
          new_baseline name value s c c' tracks plain whole (no_value (get name s.baseline) missing)
              read kept,
          rw (get-put name name value s.baseline, eq_refl name),
          λ n h. ground (arith, get-put name n value s.baseline),
        ))
