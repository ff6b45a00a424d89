-- ===== src/Backend/RuntimeParams/Loops.antt =====
-- The maps that `changedRuntimeParams` of internal/backend/backend.go builds.
use hamstergres.Base.{
  ◌≡◌, refl, sym, ◌∙◌, String, str_eq, eq_iff, true, false, not, ◌&&◌, List, [], ◌∷◌, contains,
  IsFresh, Distinct, contains-IsFresh, Option, none, some, if◌then◌else◌, is_present, Bool-cases,
  subst, inl, inr, arith,
}
use hamstergres.Base.GoMap.{GoMap, get, put, keys, get-empty, get-put}
use hamstergres.Base.GoMap.Keys.{is_present-get, Distinct-put}
use hamstergres.Base.Sort.{sort, contains-sort}
use hamstergres.Backend.RuntimeParams.{
  overlay, changed_from, changed_params, missing_from, or_empty, ParamState,
}

abbrev pub or_else : Option String → Option String → Option String
or_else none o = o
or_else (some v) o = some v

or_else-none : (o : Option String) → or_else o none ≡ o
or_else-none none = refl
or_else-none (some v) = refl

-- A value that differs from the one at hand.
abbrev pub changes_to : String → Option String → Option String
changes_to current none = none
changes_to current (some v) = if str_eq current v then none else some v

absent :
    (seen : List String) (k n : String) (m : GoMap String)
    → IsFresh seen (k ∷ keys m)
    → str_eq k n ≡ true
    → is_present (get n m) ≡ false
absent seen k n m fresh same =
    ground (arith, is_present-get n m, contains-IsFresh (k ∷ seen) (keys m) n fresh.1, eq_iff k n)

pub get-overlay :
    (seen : List String) (m acc : GoMap String) (n : String)
    → IsFresh seen (keys m)
    → get n (overlay m acc) ≡ or_else (get n m) (get n acc)
unfolding overlay get
get-overlay seen [] acc n fresh = refl
get-overlay seen ((k, v) ∷ m) acc n fresh = ground (
  arith,
  get-overlay (k ∷ seen) m (put k v acc) n fresh.1,
  get-put k n v acc,
  absent seen k n m fresh,
)

pub Distinct-overlay :
    (m acc : GoMap String) → Distinct (keys acc) → Distinct (keys (overlay m acc))
unfolding overlay
Distinct-overlay [] acc differ = differ
Distinct-overlay ((k, v) ∷ m) acc differ =
    Distinct-overlay m (put k v acc) (Distinct-put k v acc differ)

pub get-changed_from :
    (seen : List String) (current m acc : GoMap String) (n : String)
    → IsFresh seen (keys m)
    → get n (changed_from current m acc)
      ≡ or_else (changes_to (or_empty (get n current)) (get n m)) (get n acc)
unfolding changed_from get
get-changed_from seen current [] acc n fresh = refl
get-changed_from seen current ((k, v) ∷ m) acc n fresh = elim (Bool-cases (str_eq k n)) [
  | inl same ↦
      let key : k ≡ n = (eq_iff k n).0 same in
      let at : get k current ≡ get n current = rw key in
      let acc' = if str_eq (or_empty (get k current)) v then acc else put k v acc in
      ground (
        arith,
        get-changed_from (k ∷ seen) current m acc' n fresh.1,
        get-put k n v acc,
        absent seen k n m fresh same,
        at,
      )
  | inr differs ↦
      let acc' = if str_eq (or_empty (get k current)) v then acc else put k v acc in
      ground (arith, get-changed_from (k ∷ seen) current m acc' n fresh.1, get-put k n v acc)
]

-- What changedRuntimeParams finds for a name.
pub get-changed_params :
    (s : ParamState) (desired : GoMap String) (n : String)
    → Distinct (keys s.baseline)
    → Distinct (keys desired)
    → get n (changed_params s desired)
      ≡ changes_to (or_empty (get n s.current)) (or_else (get n desired) (get n s.baseline))
unfolding changed_params
get-changed_params s desired n differ distinct =
    get-changed_from [] s.current (overlay desired (overlay s.baseline [])) [] n
      (Distinct-overlay desired (overlay s.baseline []) (Distinct-overlay s.baseline [] tt))
    ∙ (rw (
      get-overlay [] desired (overlay s.baseline []) n distinct,
      get-overlay [] s.baseline [] n differ,
      get-empty {V = String} n,
      or_else-none (get n s.baseline),
      or_else-none
          (changes_to (or_empty (get n s.current)) (or_else (get n desired) (get n s.baseline))),
    ))

pub contains-missing_from :
    (baseline desired : GoMap String) (n : String)
    → contains n (missing_from baseline desired)
      ≡ (is_present (get n desired) && not (is_present (get n baseline)))
unfolding missing_from get
contains-missing_from baseline [] n = refl
contains-missing_from baseline ((k, v) ∷ desired) n =
    ground (arith, contains-missing_from baseline desired n, eq_iff k n)

-- A name that is asked for and has no baseline is among those to be read.
pub is_missing :
    (n : String) (baseline desired : GoMap String)
    → is_present (get n desired) ≡ true
    → is_present (get n baseline) ≡ false
    → contains n (sort (missing_from baseline desired)) ≡ true
is_missing n baseline desired asked new = rw (
  contains-sort n (missing_from baseline desired),
  contains-missing_from baseline desired n,
  asked,
  new,
)

changes_some :
    (current : String) (d b : Option String)
    → is_present (changes_to current (or_else d b)) ≡ true
    → (is_present d ≡ true → is_present b ≡ true)
    → is_present b ≡ true
changes_some current d (some b) changed covered = refl
changes_some current none none changed covered = cc
changes_some current (some d) none changed covered = covered refl

-- What is to be read is asked for.
pub missing_asked :
    (n : String) (baseline desired : GoMap String)
    → contains n (sort (missing_from baseline desired)) ≡ true
    → is_present (get n desired) ≡ true
missing_asked n baseline desired held = ground (
  arith,
  contains-sort n (missing_from baseline desired),
  contains-missing_from baseline desired n,
)

changes_of :
    (P : String → Type 0) (current : String) (d b : Option String)
    → is_present (changes_to current (or_else d b)) ≡ true
    → ((v : String) → d ≡ some v → P v)
    → ((v : String) → b ≡ some v → P v)
    → P (or_empty (changes_to current (or_else d b)))
changes_of P current none none changed asked initial = cc
changes_of P current none (some v) changed asked initial = elim (Bool-cases (str_eq current v)) [
  | inl same ↦ cc (rw same at changed)
  | inr differs ↦ rw differs (initial v refl)
]
changes_of P current (some v) b changed asked initial = elim (Bool-cases (str_eq current v)) [
  | inl same ↦ cc (rw same at changed)
  | inr differs ↦ rw differs (asked v refl)
]

-- What is to be set is set to what is asked for or to the baseline.
pub changed_params_of :
    (P : String → Type 0) (n : String) (s : ParamState) (desired : GoMap String)
    → Distinct (keys s.baseline)
    → Distinct (keys desired)
    → ((v : String) → get n desired ≡ some v → P v)
    → ((v : String) → get n s.baseline ≡ some v → P v)
    → contains n (sort (keys (changed_params s desired))) ≡ true
    → P (or_empty (get n (changed_params s desired)))
changed_params_of P n s desired differ distinct asked initial held =
    let found = get-changed_params s desired n differ distinct in
    let changed : is_present (get n (changed_params s desired)) ≡ true =
      (rw (
        is_present-get n (changed_params s desired),
        sym (contains-sort n (keys (changed_params s desired))),
      ))
      ∙ held in
    subst (λ o. P (or_empty o)) (sym found)
      (changes_of P (or_empty (get n s.current)) (get n desired) (get n s.baseline)
        (subst (λ o. is_present o ≡ true) found changed) asked initial)

-- A name that is to be set has a baseline, if the names that are asked for have one.
pub changed_covered :
    (n : String) (s : ParamState) (desired : GoMap String)
    → Distinct (keys s.baseline)
    → Distinct (keys desired)
    → (is_present (get n desired) ≡ true → is_present (get n s.baseline) ≡ true)
    → contains n (sort (keys (changed_params s desired))) ≡ true
    → is_present (get n s.baseline) ≡ true
changed_covered n s desired differ distinct covered held =
    let changed : is_present (get n (changed_params s desired)) ≡ true =
      (rw (
        is_present-get n (changed_params s desired),
        sym (contains-sort n (keys (changed_params s desired))),
      ))
      ∙ held in
    changes_some (or_empty (get n s.current)) (get n desired) (get n s.baseline)
      (subst (λ o. is_present o ≡ true) (get-changed_params s desired n differ distinct) changed)
      covered
