-- ===== src/Executor/Dml/Insert.antt =====
-- INSERT leaves its row in every index when it returns.
use quipudb.Prelude.{
  ℕ, String, ◌≡◌, ◌∙◌, Bool, true, false, not, ◌&&◌, some, List, [], ◌∷◌, ◌++◌, get_elem?, all,
  str_eq, eq_iff, Bool-cases, Option-cases, inl, inr, arith,
}
use quipudb.Planner.Metadata.{IndexMetadata}
use quipudb.Executor.Storage.{Storage, IsIndexing}
use quipudb.Executor.Dml.{
  Written, returned, raised, Adding, added, broken, opens, add_entries, finish_insert,
  insert_with_indexes,
}

-- The name is that of no index of the list.
abbrev pub is_other : String → List IndexMetadata → Bool
is_other name indexes = all (λ i. not (str_eq name i.name)) indexes

-- The names of a table's indexes differ.
abbrev pub are_distinct : List IndexMetadata → Bool
are_distinct [] = true
are_distinct (i ∷ indexes) = is_other i.name indexes && are_distinct indexes

unlike : (a b : String) → not (str_eq a b) ≡ true → str_eq b a ≡ false
unlike a b h = ground (arith, eq_iff a b, eq_iff b a)

module _ {D V R : Type 0} {s : Storage D V R} {table : String} (laws : IsIndexing s table) where
  -- Every index has the entry of the row, under the value of its column.
  abbrev pub IsIndexed : List V → R → List IndexMetadata → D → Type 0
  IsIndexed values rid [] d = Unit {0}
  IsIndexed values rid (i ∷ indexes) d =
      ((key : V) × (get_elem? values i.column ≡ some key)
        × (laws.has_entry i.name key rid d ≡ true))
      × IsIndexed values rid indexes d

  abbrev Keeps : String → V → R → D → Adding D V → Type 0
  Keeps name key rid start (added d) =
      laws.has_entry name key rid start ≡ true → laws.has_entry name key rid d ≡ true
  Keeps name key rid start (broken e attempted d) = Unit {0}

  after-Keeps :
      (name : String) (key : V) (rid : R) (a b : D) (r : Adding D V)
      → laws.has_entry name key rid b ≡ laws.has_entry name key rid a
      → Keeps name key rid b r
      → Keeps name key rid a r
  after-Keeps name key rid a b (added d) e f = λ h. f (e ∙ h)
  after-Keeps name key rid a b (broken x attempted d) e f = tt

  add_entries-Keeps :
      (values : List V) (rid : R) (indexes : List IndexMetadata) (attempted : List (String × V))
      (d : D) (name : String) (key : V)
      → is_other name indexes ≡ true
      → Keeps name key rid d (add_entries s table values rid indexes attempted d)
  unfolding add_entries
  add_entries-Keeps values rid [] attempted d name key o = λ h. h
  add_entries-Keeps values rid (i ∷ indexes) attempted d name key o =
      elim (Option-cases (get_elem? values i.column)) [
        | inl e ↦ rw (e, add_entries) tt
        | inr (own, e) ↦ elim (Bool-cases (s.insert_entry table i.name own rid d).1) [
          | inl h ↦
              rw (e, h, add_entries)
                (after-Keeps name key rid d (s.insert_entry table i.name own rid d).0 _
                  (laws.entry_kept i.name name own key rid rid d
                    (unlike name i.name (ground arith)))
                  (add_entries-Keeps values rid indexes (attempted ++ (i.name, own) ∷ [])
                    (s.insert_entry table i.name own rid d).0 name key (ground arith)))
          | inr h ↦ rw (e, h, add_entries) tt
        ]
      ]

  -- What a loop that ends has done, for the indexes of the list.
  abbrev Completes : List V → R → List IndexMetadata → Adding D V → Type 0
  Completes values rid indexes (added d) = IsIndexed values rid indexes d
  Completes values rid indexes (broken e attempted d) = Unit {0}

  first-Completes :
      (values : List V) (rid : R) (i : IndexMetadata) (indexes : List IndexMetadata) (key : V)
      (d : D) (r : Adding D V)
      → get_elem? values i.column ≡ some key
      → laws.has_entry i.name key rid d ≡ true
      → Keeps i.name key rid d r
      → Completes values rid indexes r
      → Completes values rid (i ∷ indexes) r
  first-Completes values rid i indexes key d (added x) e h f c = ((key, e, f h), c)
  first-Completes values rid i indexes key d (broken x a y) e h f c = tt

  add_entries-Completes :
      (values : List V) (rid : R) (indexes : List IndexMetadata) (attempted : List (String × V))
      (d : D)
      → are_distinct indexes ≡ true
      → Completes values rid indexes (add_entries s table values rid indexes attempted d)
  unfolding add_entries
  add_entries-Completes values rid [] attempted d u = tt
  add_entries-Completes values rid (i ∷ indexes) attempted d u =
      elim (Option-cases (get_elem? values i.column)) [
        | inl e ↦ rw (e, add_entries) tt
        | inr (key, e) ↦ elim (Bool-cases (s.insert_entry table i.name key rid d).1) [
          | inl h ↦
              rw (e, h, add_entries)
                (first-Completes values rid i indexes key (s.insert_entry table i.name key rid d).0
                  _ e (laws.entry_added i.name key rid d h)
                  (add_entries-Keeps values rid indexes (attempted ++ (i.name, key) ∷ [])
                    (s.insert_entry table i.name key rid d).0 i.name key (ground arith))
                  (add_entries-Completes values rid indexes (attempted ++ (i.name, key) ∷ [])
                    (s.insert_entry table i.name key rid d).0 (ground arith)))
          | inr h ↦ rw (e, h, add_entries) tt
        ]
      ]

  -- What an INSERT leaves when it returns.
  abbrev pub IsComplete : List V → List IndexMetadata → Written D R → Type 0
  IsComplete values indexes (returned rid d) = IsIndexed values rid indexes d
  IsComplete values indexes (raised e d) = Unit {0}

  finish_insert-IsComplete :
      (values : List V) (key_column : ℕ) (rid : R) (indexes : List IndexMetadata) (r : Adding D V)
      → Completes values rid indexes r
      → IsComplete values indexes (finish_insert s table values key_column rid r)
  unfolding finish_insert
  finish_insert-IsComplete values key_column rid indexes (added d) c = c
  finish_insert-IsComplete values key_column rid indexes (broken x a d) c = tt

  -- If an INSERT into a table with differently named indexes returns, every index has an entry for
  -- the identifier that it returns, under the value of the index's column.
  pub insert_with_indexes-IsComplete :
      (values : List V) (key_column : ℕ) (indexes : List IndexMetadata) (d : D)
      → are_distinct indexes ≡ true
      → IsComplete values indexes (insert_with_indexes s table values key_column indexes d)
  unfolding insert_with_indexes
  insert_with_indexes-IsComplete values key_column indexes d u =
      elim (Bool-cases (opens s table indexes d)) [
        | inr h ↦ rw (h, insert_with_indexes) tt
        | inl h ↦ elim (Option-cases (s.insert_row table values d).1) [
          | inl e ↦ rw (h, e, insert_with_indexes) tt
          | inr (rid, e) ↦
              rw (h, e, insert_with_indexes)
                (finish_insert-IsComplete values key_column rid indexes _
                  (add_entries-Completes values rid indexes [] (s.insert_row table values d).0 u))
        ]
      ]
