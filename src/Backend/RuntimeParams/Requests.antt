-- ===== src/Backend/RuntimeParams/Requests.antt =====
-- The settings that a session asks internal/backend/backend.go for.
use hamstergres.Base.{
  ◌≡◌, refl, subst, String, str_eq, eq_iff, true, [], ◌∷◌, All, Option, none, some, is_present,
  Bool-cases, inl, inr,
}
use hamstergres.Base.GoMap.{GoMap, get}
use hamstergres.Backend.RuntimeParams.{Postgres}

module _ (pg : Postgres) where
  -- A plain name, and a text for it that is whole.
  abbrev pub IsRequest : String × String → Type 0
  IsRequest entry = pg.IsPlain entry.0 × pg.IsWhole entry.0 entry.1

  pub get-IsRequest :
      (n v : String) (desired : GoMap String)
      → All IsRequest desired
      → get n desired ≡ some v
      → IsRequest (n, v)
  unfolding get
  get-IsRequest n v [] requests h = cc
  get-IsRequest n v ((k, w) ∷ desired) requests h = elim (Bool-cases (str_eq k n)) [
    | inl same ↦
        let value : w ≡ v = cc (rw same at h) in
        subst (λ x. IsRequest (n, x)) value
          (subst (λ x. IsRequest (x, w)) ((eq_iff k n).0 same) requests.0)
    | inr differs ↦ get-IsRequest n v desired requests.1 (rw differs at h)
  ]

  pub asked_plain :
      (n : String) (desired : GoMap String)
      → All IsRequest desired
      → is_present (get n desired) ≡ true
      → pg.IsPlain n
  asked_plain n desired requests held = by_value (get n desired) refl held
    where
      by_value : (o : Option String) → get n desired ≡ o → is_present o ≡ true → pg.IsPlain n
      by_value none e present = cc
      by_value (some v) e present = (get-IsRequest n v desired requests e).0
