-- ===== src/Proxy/Session/Settings.antt =====
-- The settings that a session of internal/proxy/server.go replays on another connection.
use hamstergres.Base.{
  ◌≡◌, refl, String, str_eq, eq_iff, Bool, true, false, List, [], ◌∷◌, ◌++◌, map, none, some,
  is_present, contains, Distinct, IsFresh, IsFresh-mono, find_by, arith, if◌then◌else◌, if-cases,
}
use hamstergres.Proxy.Session.{
  SessionSetting, Session, SessionStatePolicy, other_settings, commit_session_state,
}

abbrev pub setting_name : SessionSetting → String
setting_name x = x.name

find-other_settings :
    (n k : String) (xs : List SessionSetting)
    → find_by setting_name k (other_settings n xs)
      ≡ (if str_eq n k then none else find_by setting_name k xs)
find-other_settings n k [] = ground arith
find-other_settings n k (x ∷ xs) =
    ground (arith, find-other_settings n k xs, eq_iff x.name n, eq_iff x.name k, eq_iff n k)

find-append :
    (k : String) (xs : List SessionSetting) (y : SessionSetting)
    → find_by setting_name k (xs ++ y ∷ []) ≡ (
        if is_present (find_by setting_name k xs)
        then find_by setting_name k xs
        else if str_eq y.name k
        then some y
        else none)
find-append k [] y = refl
find-append k (x ∷ xs) y = ground (arith, find-append k xs y)

contains-other_settings :
    (n k : String) (xs : List SessionSetting)
    → contains k (map setting_name (other_settings n xs)) ≡ true
    → contains k (map setting_name xs) ≡ true
contains-other_settings n k [] h = cc
contains-other_settings n k (x ∷ xs) h = ground (arith, contains-other_settings n k xs)

contains-other_settings_same :
    (n : String) (xs : List SessionSetting)
    → contains n (map setting_name (other_settings n xs)) ≡ false
contains-other_settings_same n [] = refl
contains-other_settings_same n (x ∷ xs) = ground (arith, contains-other_settings_same n xs)

-- A new name at the end of fresh names.
IsFresh-append :
    (seen : List String) (n : String) (xs : List SessionSetting) (y : SessionSetting)
    → contains y.name seen ≡ false
    → contains y.name (map setting_name xs) ≡ false
    → IsFresh seen (map setting_name xs)
    → IsFresh seen (map setting_name (xs ++ y ∷ []))
IsFresh-append seen n [] y new other h = (new, tt)
IsFresh-append seen n (x ∷ xs) y new other h = (
  h.0,
  IsFresh-append (x.name ∷ seen) n xs y (ground (arith, eq_iff x.name y.name)) (ground arith) h.1,
)

IsFresh-other_settings :
    (seen : List String) (n : String) (xs : List SessionSetting)
    → IsFresh seen (map setting_name xs)
    → IsFresh seen (map setting_name (other_settings n xs))
IsFresh-other_settings seen n [] h = tt
IsFresh-other_settings seen n (x ∷ xs) h =
    if-cases (λ ys. IsFresh seen (map setting_name ys)) (str_eq x.name n)
      (λ e.
        IsFresh-other_settings seen n xs
          (IsFresh-mono (x.name ∷ seen) seen (map setting_name xs) (λ k p. ground arith) h.1))
      (λ e. (h.0, IsFresh-other_settings (x.name ∷ seen) n xs h.1))

-- The settings are a map from the names of parameters to statements, without repeated names. After
-- a statement, a reset of all leaves none; a SET leaves its own statement for its parameter and
-- the others as they were; any other statement leaves all of them.
pub commit_session_state_lookup :
    (p : SessionStatePolicy) (s : Session)
    → Distinct (map setting_name s.settings)
    → Distinct (map setting_name (commit_session_state p s).settings)
      × ((k : String)
          → find_by setting_name k (commit_session_state p s).settings ≡ (
              if p.reset_all
              then none
              else if str_eq p.replay_name ""
              then find_by setting_name k s.settings
              else if str_eq p.replay_name k
              then some (record { name = p.replay_name; sql = p.replay_sql })
              else find_by setting_name k s.settings))
unfolding commit_session_state
commit_session_state_lookup p s h = (
  if-cases AreDistinct p.reset_all (λ r. tt)
      (λ r. if-cases AreDistinct (str_eq p.replay_name "") (λ e. h) (λ e. fresh)),
  λ k. find k p.reset_all (str_eq p.replay_name ""),
)
  where
    AreDistinct : Session → Type 0
    AreDistinct t = Distinct (map setting_name t.settings)

    new : SessionSetting
    new = record { name = p.replay_name; sql = p.replay_sql }

    fresh : Distinct (map setting_name (other_settings p.replay_name s.settings ++ new ∷ []))
    fresh =
        IsFresh-append [] p.replay_name (other_settings p.replay_name s.settings) new refl
          (contains-other_settings_same p.replay_name s.settings)
          (IsFresh-other_settings [] p.replay_name s.settings h)

    cleared : Session
    cleared = record s { settings = []; affinity = s.destroy; discard_prepared = false }

    changed : Session
    changed = record s { settings = other_settings p.replay_name s.settings ++ new ∷ [] }

    last :
        (k : String)
        → find_by setting_name k (other_settings p.replay_name s.settings ++ new ∷ [])
          ≡ (if str_eq p.replay_name k then some new else find_by setting_name k s.settings)
    last k = ground (
      arith,
      find-append k (other_settings p.replay_name s.settings) new,
      find-other_settings p.replay_name k s.settings,
    )

    find :
        (k : String) (reset empty : Bool)
        → find_by setting_name k (if reset then cleared else if empty then s else changed).settings
          ≡ (if reset
              then none
              else if empty
              then find_by setting_name k s.settings
              else if str_eq p.replay_name k
              then some new
              else find_by setting_name k s.settings)
    find k true empty = refl
    find k false true = refl
    find k false false = last k
