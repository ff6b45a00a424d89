-- ===== src/Backend/RuntimeParams/Settled.antt =====
-- The settings that `changedRuntimeParams` of internal/backend/backend.go finds to be set, set to
-- what it finds, are those that a session wants.
use hamstergres.Base.{
  ◌≡◌, refl, sym, ◌∙◌, ap, String, str_eq, eq_iff, true, contains, Distinct, Option, none, some,
  if◌then◌else◌, is_present, Bool-cases, inl, inr,
}
use hamstergres.Base.GoMap.{GoMap, get, keys}
use hamstergres.Base.GoMap.Keys.{is_present-get}
use hamstergres.Base.Sort.{sort, contains-sort}
use hamstergres.Backend.RuntimeParams.{Postgres, ParamState, changed_params, or_empty}
use hamstergres.Backend.RuntimeParams.Tracked.{Tracks}
use hamstergres.Backend.RuntimeParams.Loops.{or_else, changes_to, get-changed_params}

module _ (pg : Postgres) (default : String → pg.Value) where
  abbrev pub wanted : String → Option String → pg.Value
  wanted n none = default n
  wanted n (some v) = pg.meaning n v

  -- A name is set to its value, or has it.
  overwritten :
      (n k v : String) (c : pg.Conn)
      → pg.setting c n ≡ pg.meaning n k
      → (if is_present (changes_to k (some v))
          then pg.meaning n (or_empty (changes_to k (some v)))
          else pg.setting c n)
        ≡ pg.meaning n v
  overwritten n k v c current = elim (Bool-cases (str_eq k v)) [
    | inl same ↦ (rw same) ∙ current ∙ ap (pg.meaning n) ((eq_iff k v).0 same)
    | inr differs ↦ rw differs
  ]

  settled_at :
      (n : String) (d b k : Option String) (c : pg.Conn)
      → ((v : String) → k ≡ some v → pg.setting c n ≡ pg.meaning n v)
      → ((v : String) → b ≡ some v → default n ≡ pg.meaning n v)
      → (b ≡ none → pg.setting c n ≡ default n)
      → (is_present b ≡ true → is_present k ≡ true)
      → (is_present d ≡ true → is_present b ≡ true)
      → (if is_present (changes_to (or_empty k) (or_else d b))
          then pg.meaning n (or_empty (changes_to (or_empty k) (or_else d b)))
          else pg.setting c n)
        ≡ wanted n d
  settled_at n none none k c current initial untouched together covered = untouched refl
  settled_at n none (some b) none c current initial untouched together covered = cc (together refl)
  settled_at n none (some b) (some k) c current initial untouched together covered =
      overwritten n k b c (current k refl) ∙ sym (initial b refl)
  settled_at n (some d) none k c current initial untouched together covered = cc (covered refl)
  settled_at n (some d) (some b) none c current initial untouched together covered =
      cc (together refl)
  settled_at n (some d) (some b) (some k) c current initial untouched together covered =
      overwritten n k d c (current k refl)

  -- The names that are set, and what they are set to, are those of the effective settings that
  -- differ from the current ones.
  pub settled :
      (n : String) (s : ParamState) (desired : GoMap String) (c : pg.Conn)
      → Tracks pg default s c
      → pg.IsPlain n
      → Distinct (keys desired)
      → (is_present (get n desired) ≡ true → is_present (get n s.baseline) ≡ true)
      → (if contains n (sort (keys (changed_params s desired)))
          then pg.meaning n (or_empty (get n (changed_params s desired)))
          else pg.setting c n)
        ≡ wanted n (get n desired)
  settled n s desired c tracks plain distinct covered =
      (rw (
        contains-sort n (keys (changed_params s desired)),
        sym (is_present-get n (changed_params s desired)),
        get-changed_params s desired n tracks.differ distinct,
      ))
      ∙ settled_at n (get n desired) (get n s.baseline) (get n s.current) c
          (λ v. tracks.is_current n v plain) (tracks.is_default n) (tracks.untouched n plain)
          (tracks.together n) covered
