-- ===== src/Connector/Pegasus/Shown.antt =====
-- internal/connector/pegasusdb.go: what an item shows of a row.
use sroiaaa.Base.{
  ℕ, suc, ◌+◌, ◌≤◌, ◌<◌, Option, none, some, List, [], ◌∷◌, ◌++◌, ◌≡◌, sym, subst, arith,
  if◌then◌else◌, if-cases, ltb, length, take, length-take, drop, take-drop,
}
use sroiaaa.Base.Text.{Text, lookup, put, text_eq, byte_len}
use sroiaaa.Base.Text.Laws.{text_eq_iff, text_eq-apart, lookup-put, lookup-put_other}
use sroiaaa.Connector.Evidence.{EvidenceItem}
use sroiaaa.Connector.Pegasus.{Database, cell_value, row_fields, row_item, pegasus_max_cell_bytes}

-- The bytes that evidence shows of a cell: none of NULL, all of at most 4096, else the first 4096 and an
-- ellipsis.
pub data IsShownCell : Option (List ℕ) → List ℕ → Type 0 where
  of_null : IsShownCell none []
  of_short : (bytes : List ℕ) → length bytes ≤ 4096 → IsShownCell (some bytes) bytes
  of_long :
      (bytes kept rest : List ℕ)
      → bytes ≡ kept ++ rest
      → length kept ≡ 4096
      → 4096 < length bytes
      → IsShownCell (some bytes) (kept ++ 226 ∷ 128 ∷ 166 ∷ [])

-- The last cell under a name, if there is one; `found` is the one of the columns before.
abbrev pub last_cell :
    Text → List Text → List (Option (List ℕ)) → Option (Option (List ℕ)) → Option (Option (List ℕ))
last_cell name [] cells found = found
last_cell name (column ∷ columns) [] found = found
last_cell name (column ∷ columns) (cell ∷ cells) found =
    last_cell name columns cells (if text_eq column name then some cell else found)

-- The bytes of a row in the evidence.
abbrev pub shown_size : List Text → List (Option (List ℕ)) → ℕ
shown_size [] cells = 0
shown_size (column ∷ columns) [] = 0
shown_size (column ∷ columns) (cell ∷ cells) =
    byte_len column + length (cell_value cell) + shown_size columns cells

length-take_full : (n : ℕ) (bytes : List ℕ) → n < length bytes → length (take n bytes) ≡ n
length-take_full n bytes h = (let e = length-take n bytes in omega (arith, e, h))

cell_value-IsShownCell : (cell : Option (List ℕ)) → IsShownCell cell (cell_value cell)
unfolding cell_value
cell_value-IsShownCell none = of_null
cell_value-IsShownCell (some bytes) =
    if-cases (IsShownCell (some bytes)) (ltb pegasus_max_cell_bytes (length bytes))
      (λ long.
        of_long bytes (take 4096 bytes) (drop 4096 bytes) (take-drop 4096 bytes)
          (length-take_full 4096 bytes (ground (arith, long))) (ground (arith, long)))
      (λ short. of_short bytes (ground (arith, short)))

module _ (as_text : List ℕ → Text) where
  -- The field of a name: none without such a column, else what is shown of the column's last cell.
  pub data IsField : Option Text → Option (Option (List ℕ)) → Type 0 where
    no_field : IsField none none
    of_cell :
        (cell : Option (List ℕ)) (bytes : List ℕ)
        → IsShownCell cell bytes
        → IsField (some (as_text bytes)) (some cell)

  row_fields-IsField :
      (name : Text) (columns : List Text) (cells : List (Option (List ℕ)))
      (fields : List (Text × Text)) (bytes : ℕ) (found : Option (Option (List ℕ)))
      → IsField (lookup name fields) found
      → IsField
          (lookup name (row_fields as_text columns cells fields bytes).0)
          (last_cell name columns cells found)
  unfolding row_fields
  row_fields-IsField name [] cells fields bytes found h = h
  row_fields-IsField name (column ∷ columns) [] fields bytes found h = h
  row_fields-IsField name (column ∷ columns) (cell ∷ cells) fields bytes found h =
      row_fields-IsField name columns cells _ _ _ (
        if-cases (IsField (lookup name (put column shown fields))) (text_eq column name)
          (λ same.
            subst (λ o. IsField o (some cell))
              (sym (
                subst (λ k. lookup name (put k shown fields) ≡ some shown)
                  (sym ((text_eq_iff column name).0 same)) (lookup-put name shown fields)))
              (of_cell cell (cell_value cell) (cell_value-IsShownCell cell)))
          (λ other.
            subst (λ o. IsField o found)
              (sym (lookup-put_other name column shown fields (λ e. text_eq-apart other (sym e))))
              h))
    where
      shown : Text
      shown = as_text (cell_value cell)

  pub row_fields-size :
      (columns : List Text) (cells : List (Option (List ℕ))) (fields : List (Text × Text))
      (bytes : ℕ)
      → (row_fields as_text columns cells fields bytes).1 ≡ bytes + shown_size columns cells
  unfolding row_fields
  row_fields-size [] cells fields bytes = omega arith
  row_fields-size (column ∷ columns) [] fields bytes = omega arith
  row_fields-size (column ∷ columns) (cell ∷ cells) fields bytes = omega (
    arith,
    row_fields-size columns cells (put column (as_text (cell_value cell)) fields)
        (bytes + byte_len column + length (cell_value cell)),
  )

module _ {W : Type 0} (db : Database W) (columns : List Text) where
  -- The items of rows, in their order: each has the number of its row, and of each column the last cell.
  pub data AreShown : ℕ → List (List (Option (List ℕ))) → List EvidenceItem → Type 0 where
    no_row : (n : ℕ) → AreShown n [] []
    one_row :
        (n : ℕ) (cells : List (Option (List ℕ))) (fields : List (Text × Text))
        (rows : List (List (Option (List ℕ)))) (items : List EvidenceItem)
        → ((name : Text)
            → IsField db.as_text (lookup name fields) (last_cell name columns cells none))
        → AreShown (suc n) rows items
        → AreShown n (cells ∷ rows) (row_item (db.itoa n) fields ∷ items)

  pub row_fields-AreShown :
      (n bytes : ℕ) (cells : List (Option (List ℕ))) (rows : List (List (Option (List ℕ))))
      (items : List EvidenceItem)
      → AreShown (suc n) rows items
      → AreShown n
          (cells ∷ rows)
          (row_item (db.itoa n) (row_fields db.as_text columns cells [] bytes).0 ∷ items)
  unfolding lookup
  row_fields-AreShown n bytes cells rows items h =
      one_row n cells (row_fields db.as_text columns cells [] bytes).0 rows items
        (λ name. row_fields-IsField db.as_text name columns cells [] bytes none no_field) h

  -- The bytes of rows in the evidence.
  abbrev pub shown_sizes : List (List (Option (List ℕ))) → ℕ
  shown_sizes [] = 0
  shown_sizes (cells ∷ rows) = shown_size columns cells + shown_sizes rows
