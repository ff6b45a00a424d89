-- ===== src/Statistics/Labels.antt =====
-- The bounded cache of statement labels of internal/statistics/statistics.go: a map, and a ring of
-- its keys in the order in which they came.
pub mod Ring
pub mod Bounded
use hamstergres.Base.{
  ℕ, zero, suc, ◌+◌, ◌%◌, String, List, [], ◌∷◌, ◌++◌, length, get_elem?, Option, none, some, ltb,
  if◌then◌else◌,
}
use hamstergres.Base.GoMap.{GoMap, get, put, delete}

abbrev pub max_summary_labels : ℕ
max_summary_labels = 100

pub record Labels : Type 0 where
  pub labels : GoMap String
  pub label_order : List String
  pub label_next : ℕ

abbrev pub no_labels : Labels
no_labels = record { labels = []; label_order = []; label_next = 0 }

-- order[i] = sql, for an index within the slice
unfoldable pub set_at : ℕ → String → List String → List String
set_at i sql [] = []
set_at zero sql (x ∷ xs) = sql ∷ xs
set_at (suc i) sql (x ∷ xs) = x ∷ set_at i sql xs

-- The entry at labelNext gives way to the new one; an index past the end is a panic (`none`).
abbrev pub replace_oldest : String → String → Labels → Option String → Option (String × Labels)
replace_oldest sql label c none = none
replace_oldest sql label c (some oldest) = some (
  label,
  record {
    labels = put sql label (delete oldest c.labels);
    label_order = set_at c.label_next sql c.label_order;
    label_next = (c.label_next + 1) % max_summary_labels;
  },
)

-- `Normalize`, which rewrites the text by regular expressions, is any function.
module _ (normalize : String → String) where
  abbrev pub new_label : String → Labels → Option (String × Labels)
  new_label sql c =
      if ltb (length c.labels) max_summary_labels
      then some (
        normalize sql,
        record c {
          labels = put sql (normalize sql) c.labels;
          label_order = c.label_order ++ sql ∷ [];
        },
      )
      else replace_oldest sql (normalize sql) c (get_elem? c.label_order c.label_next)

  abbrev pub label_or_new : String → Labels → Option String → Option (String × Labels)
  label_or_new sql c (some label) = some (label, c)
  label_or_new sql c none = new_label sql c

  unfoldable pub summary_label : String → Labels → Option (String × Labels)
  unfolding get put delete set_at
  summary_label sql c = label_or_new sql c (get sql c.labels)
