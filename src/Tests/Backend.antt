-- ===== src/Tests/Backend.antt =====
-- internal/backend/backend.go: a session on a server kept in memory.
use hamstergres.Base.{
  ◌≡◌, refl, sym, ◌∙◌, String, str_eq, eq_refl, Bool, true, false, ◌&&◌, [], ◌∷◌, some,
  if◌then◌else◌, Bool-cases, inl, inr, if-cases, subst, Option,
}
use hamstergres.Base.GoMap.{GoMap, get, put, get-put}
use hamstergres.Backend.RuntimeParams.{Postgres, World, apply_runtime_params, or_empty}
use hamstergres.Backend.RuntimeParams.Tracked.{fresh-Tracks}
use hamstergres.Backend.RuntimeParams.Isolated.{IsIsolated, apply_runtime_params-IsIsolated}

-- The server's spelling of a name.
unfoldable folded : String → String
folded name =
    if str_eq name "timezone"
    then "TimeZone"
    else if str_eq name "datestyle"
    then "DateStyle"
    else name

-- A style of dates without their order.
unfoldable is_partial : String → String → Bool
is_partial name v = str_eq name "DateStyle" && str_eq v "ISO"

-- The order of dates is kept by such a style.
unfoldable with_order : String → String
with_order old =
    if str_eq old "ISO, DMY" then old else if str_eq old "SQL, DMY" then "ISO, DMY" else "ISO, MDY"

abbrev shown : String → String → String
shown name v = if is_partial name v then "ISO, MDY" else v

abbrev setting_of : GoMap String → String → String
setting_of c name = shown (folded name) (or_empty (get (folded name) c))

abbrev assigned : String → String → String → String
assigned name v old = if is_partial name v then with_order old else v

default_whole : (name : String) → is_partial name "ISO, MDY" ≡ false
unfolding is_partial
default_whole name = elim (Bool-cases (str_eq name "DateStyle")) [
  | inl style ↦ rw style
  | inr other ↦ rw other
]

shown_whole : (name v : String) → is_partial name (shown name v) ≡ false
shown_whole name v =
    if-cases (λ x. is_partial name x ≡ false) (is_partial name v) (λ partial. default_whole name)
      (λ whole. whole)

setting-put :
    (name k v : String) (c : GoMap String)
    → folded k ≡ k
    → setting_of (put name v c) k ≡ shown k (if str_eq name k then v else or_empty (get k c))
setting-put name k v c plain = elim (Bool-cases (str_eq name k)) [
  | inl same ↦ rw (plain, get-put name k v c, same)
  | inr differs ↦ rw (plain, get-put name k v c, differs)
]

sets_whole :
    (name v : String) (c : GoMap String)
    → folded name ≡ name
    → is_partial name v ≡ false
    → setting_of (put (folded name) (assigned (folded name) v (setting_of c name)) c) name ≡ v
sets_whole name v c plain whole =
    setting-put (folded name) name (assigned (folded name) v (setting_of c name)) c plain
    ∙ rw (plain, eq_refl name, whole, whole)

spares_plain :
    (name v k : String) (c : GoMap String)
    → folded name ≡ name
    → folded k ≡ k
    → str_eq name k ≡ false
    → setting_of (put (folded name) v c) k ≡ setting_of c k
spares_plain name v k c plain k_plain differs =
    setting-put (folded name) k v c k_plain ∙ rw (plain, k_plain, differs)

reads_shown :
    (name v : String) (c : GoMap String)
    → folded name ≡ name
    → ◌≡◌ {A = Option String} (some (setting_of c name)) (some v)
    → (v ≡ setting_of c name) × (is_partial name v ≡ false)
reads_shown name v c plain h =
    let value : setting_of c name ≡ v = cc in
    (
      sym value,
      subst (λ x. is_partial name x ≡ false) value
          (subst (λ k. is_partial name (shown k (or_empty (get k c))) ≡ false) (sym plain)
            (shown_whole name (or_empty (get name c)))),
    )

abbrev memory : Postgres
memory = record {
  Conn = GoMap String;
  Value = String;
  meaning = λ name v. v;
  setting = setting_of;
  IsPlain = λ name. folded name ≡ name;
  IsWhole = λ name v. is_partial name v ≡ false;
  current_setting = λ name c. (some (setting_of c name), c);
  set_config =
      λ name v c. (true, put (folded name) (assigned (folded name) v (setting_of c name)) c);
  reads = reads_shown;
  keeps = λ name k c. refl;
  sets = λ name v c plain whole h. sets_whole name v c plain whole;
  spares = λ name v k c plain k_plain differs.
      spares_plain name (assigned (folded name) v (setting_of c name)) k c plain k_plain differs;
}

abbrev defaults : GoMap String
defaults = ("TimeZone", "UTC") ∷ ("DateStyle", "ISO, MDY") ∷ []

abbrev opened_world : World memory
opened_world = record { params = []; conn = defaults }

abbrev asked_for : GoMap String
asked_for = ("TimeZone", "Europe/Berlin") ∷ ("DateStyle", "SQL, DMY") ∷ []

apply_runtime_params-IsIsolated_example :
    IsIsolated memory
      (setting_of defaults)
      "burrow-a"
      asked_for
      (apply_runtime_params memory "burrow-a" asked_for opened_world)
unfolding get folded is_partial
apply_runtime_params-IsIsolated_example =
    apply_runtime_params-IsIsolated memory (setting_of defaults) "burrow-a" asked_for opened_world
      (fresh-Tracks memory (setting_of defaults) defaults (λ n. refl)) (refl, (refl, tt))
      ((refl, refl), ((refl, refl), tt))
