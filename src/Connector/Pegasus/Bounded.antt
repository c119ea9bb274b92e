-- ===== src/Connector/Pegasus/Bounded.antt =====
-- internal/connector/pegasusdb.go: what reaches the database, and how much comes back.
use mathlib.Core.List.{map}
use sroiaaa.Base.{
  suc, ap, ok-injective, ◌≢◌, ◌⊎◌, inl, sym, ◌∙◌, append-nil, append_assoc, ℕ, ◌+◌, ◌≤◌, Bool, true,
  false, not, ◌||◌, Option, none, some, List, [], ◌∷◌, ◌++◌, ◌≡◌, inr, refl, subst, arith, Result,
  ok, err, if-cases, leb, length, length-append,
}
use sroiaaa.Base.Int.{ℤ, pos, negsuc, above, to_nat}
use sroiaaa.Base.Text.{Text, UnicodeTables}
use sroiaaa.Broker.Types.{pegasus_db, RouteStep}
use sroiaaa.Broker.Sql.{QueryFault, validate_query}
use sroiaaa.Connector.{source_eq}
use sroiaaa.Connector.Attempt.Laws.{
  Gave, map-Holds, known-Ensures, found-Ensures, Holds, Ensures, done-Ensures, bind-Ensures,
  skip-Ensures, lifted-Ensures, Guarded, fail_if-Guarded,
}
use sroiaaa.Connector.Evidence.{
  ConnectorError, EvidenceItem, Evidence, wrong_source, unsupported_action, invalid_query,
}
use sroiaaa.Connector.Pegasus.Shown.{
  AreShown, no_row, shown_sizes, row_fields-AreShown, row_fields-size,
}
use sroiaaa.Connector.Pegasus.{
  PegasusConnector, Rows, count_query, asked, RowsEnd, finished, timed_out, broken, Database,
  row_fields, row_item, scan_end, first_rows, scan_rows, run_query, is_query, is_err,
  pegasus_execute,
}

module _ {W : Type 0} (db : Database W) (columns : List Text) (max_rows max_bytes : ℕ)
    (end : RowsEnd) where
  -- What a scan made of the rows after some items: it adds items that show the first of the rows, in their
  -- order, at most as many items as the limit; unless the items are marked as cut these are all rows, and
  -- if they are marked, there are as many items as the limit and a row is left, or the items have
  -- reached the limit of bytes.
  pub record Scanned (before : List EvidenceItem) (bytes : ℕ)
      (rows : List (Option (List (Option (List ℕ))))) (r : List EvidenceItem × Bool) : Type 0 where
    pub kept : List (List (Option (List ℕ)))
    pub left : List (Option (List (Option (List ℕ))))
    pub added : List EvidenceItem
    pub split : rows ≡ map some kept ++ left
    pub items : r.0 ≡ before ++ added
    pub shown : AreShown db columns (length before) kept added
    pub few : length r.0 ≤ max_rows
    pub whole : r.1 ≡ false → (left ≡ []) × (end ≡ finished)
    pub cut :
        r.1 ≡ true
        → ((length r.0 ≡ max_rows) × (left ≢ []))
          ⊎ (max_bytes ≤ bytes + shown_sizes db columns kept)

  end-Scanned :
      (items : List EvidenceItem) (bytes : ℕ)
      → length items ≤ max_rows
      → Holds (Scanned items bytes []) (scan_end end items)
  end-Scanned items bytes h = by_end end refl
    where
      by_end : (e : RowsEnd) → end ≡ e → Holds (Scanned items bytes []) (scan_end e items)
      by_end finished same = record {
        kept = [];
        left = [];
        added = [];
        split = refl;
        items = sym (append-nil items);
        shown = no_row (length items);
        few = h;
        whole = λ _. (refl, same);
        cut = λ c. absurd (cc);
      }
      by_end timed_out same = tt
      by_end broken same = tt

  full-Scanned :
      (items : List EvidenceItem) (bytes : ℕ) (row : Option (List (Option (List ℕ))))
      (rows : List (Option (List (Option (List ℕ)))))
      → length items ≤ max_rows
      → leb max_rows (length items) ≡ true
      → Scanned items bytes (row ∷ rows) (items, true)
  full-Scanned items bytes row rows h full = record {
    kept = [];
    left = row ∷ rows;
    added = [];
    split = refl;
    items = sym (append-nil items);
    shown = no_row (length items);
    few = h;
    whole = λ c. absurd (cc);
    cut = λ _. inl (ground (arith, h, full), λ e. absurd (cc));
  }

  -- A row before them.
  more-Scanned :
      (items : List EvidenceItem) (bytes : ℕ) (cells : List (Option (List ℕ)))
      (rows : List (Option (List (Option (List ℕ))))) (r : List EvidenceItem × Bool)
      → Scanned
          (items
            ++ row_item (db.itoa (length items)) (row_fields db.as_text columns cells [] bytes).0
              ∷ [])
          (row_fields db.as_text columns cells [] bytes).1
          rows
          r
      → Scanned items bytes (some cells ∷ rows) r
  more-Scanned items bytes cells rows r s =
      let fields = (row_fields db.as_text columns cells [] bytes).0 in
      let item = row_item (db.itoa (length items)) fields in
      let size = row_fields-size db.as_text columns cells [] bytes in
      let longer : length (items ++ item ∷ []) ≡ suc (length items) =
        length-append items (item ∷ []) ∙ omega arith in
      record {
        kept = cells ∷ s.kept;
        left = s.left;
        added = item ∷ s.added;
        split = ap (λ rest. some cells ∷ rest) s.split;
        items = s.items ∙ append_assoc items (item ∷ []) s.added;
        shown =
            row_fields-AreShown db columns (length items) bytes cells s.kept s.added
              (subst (λ n. AreShown db columns n s.kept s.added) longer s.shown);
        few = s.few;
        whole = s.whole;
        cut =
            λ c. elim (s.cut c) [ inl full ↦ inl full | inr big ↦ inr (omega (arith, size, big)) ];
      }

  -- The row that reaches the limit of bytes is the last one.
  last-Scanned :
      (items : List EvidenceItem) (bytes : ℕ) (rows : List (Option (List (Option (List ℕ)))))
      → length items ≤ max_rows
      → leb max_bytes bytes ≡ true
      → Scanned items bytes rows (items, true)
  last-Scanned items bytes rows h big = record {
    kept = [];
    left = rows;
    added = [];
    split = refl;
    items = sym (append-nil items);
    shown = no_row (length items);
    few = h;
    whole = λ c. absurd (cc);
    cut = λ _. inr (ground (arith, big));
  }

  -- A scan that succeeds after some items adds to them items that show the first of its rows in their order:
  -- of each column the last cell, nothing of NULL and at most 4096 bytes and an ellipsis of another. The
  -- items are at most the limit. Unless they are marked as cut, the rows are all shown and their
  -- iteration has finished; if they are marked, then the limit of rows is reached with a row left, or the
  -- limit of bytes is.
  pub scan_rows-Scanned :
      (items : List EvidenceItem) (bytes : ℕ) (rows : List (Option (List (Option (List ℕ)))))
      → length items ≤ max_rows
      → Holds
          (Scanned items bytes rows)
          (scan_rows db columns max_rows max_bytes end items bytes rows)
  unfolding scan_rows
  scan_rows-Scanned items bytes [] h = end-Scanned items bytes h
  scan_rows-Scanned items bytes (none ∷ rows) h =
      if-cases (Holds (Scanned items bytes (none ∷ rows))) (leb max_rows (length items))
        (λ full. full-Scanned items bytes none rows h full) (λ _. tt)
  scan_rows-Scanned items bytes (some cells ∷ rows) h =
      let r = row_fields db.as_text columns cells [] bytes in
      let item = row_item (db.itoa (length items)) r.0 in
      let one_more = length-append items (item ∷ []) in
      if-cases (Holds (Scanned items bytes (some cells ∷ rows))) (leb max_rows (length items))
        (λ full. full-Scanned items bytes (some cells) rows h full)
        (λ fits.
          let within : length (items ++ item ∷ []) ≤ max_rows = ground (arith, fits, one_more) in
          if-cases (Holds (Scanned items bytes (some cells ∷ rows))) (leb max_bytes r.1)
            (λ big.
              more-Scanned items bytes cells rows _
                (last-Scanned (items ++ item ∷ []) r.1 rows within big))
            (λ _.
              map-Holds _ _ _ (more-Scanned items bytes cells rows)
                (scan_rows-Scanned (items ++ item ∷ []) r.1 rows within)))

-- An evidence that says how much of the result it holds: its items show rows that the database gave to the query
-- of the step, its total is what the database gave to the count of that query, and it is marked as
-- truncated exactly if the items were cut or that count is above theirs.
pub record IsBounded {W : Type 0} (db : Database W) (c : PegasusConnector) (step : RouteStep)
    (e : Evidence) : Type 0 where
  pub answer : Rows
  pub columns : List Text
  pub cut : Bool
  pub answered : (w : W) × (v : W) × (db.query step.query w ≡ (some answer, v))
  pub named : answer.columns ≡ some columns
  pub scanned :
      Scanned db columns
        (first_rows step.limit c.max_rows)
        c.max_bytes
        answer.end
        []
        0
        answer.rows
        (e.items, cut)
  pub total :
      (w : W) × (v : W) × (db.count (count_query step.query) w ≡ (some e.total_available, v))
  pub truncated : e.truncated ≡ (cut || above e.total_available (length e.items))
  pub counted : e.item_count ≡ length e.items
  pub few : length e.items ≤ c.max_rows
  pub as_asked : above step.limit 0 ≡ true → length e.items ≤ to_nat step.limit

first_rows-few : (limit : ℤ) (max : ℕ) → first_rows limit max ≤ max
first_rows-few (pos n) max = ground arith
first_rows-few (negsuc n) max = omega arith

first_rows-asked :
    (limit : ℤ) (max : ℕ) → above limit 0 ≡ true → first_rows limit max ≤ to_nat limit
first_rows-asked (pos n) max h = ground arith
first_rows-asked (negsuc n) max h = absurd (cc)

asked-gives :
    {W A : Type 0} (db : Database W) (act : W → Option A × W) (fault : ConnectorError) (a : A)
    → Gave (asked db act fault) a
    → (w : W) × (v : W) × (act w ≡ (some a, v))
asked-gives {W = W} {A = A} db act fault a (w, v, e) = (w, v, go (act w) e)
  where
    go : (r : Option A × W) → asked db (λ x. r) fault w ≡ (ok a, v) → r ≡ (some a, v)
    go (some b, u) h = λ i. (some (ok-injective (ap (λ p. p.0) h) i), (h i).1)
    go (none, u) h = absurd (clash (ap (λ p. p.0) h))
      where
        clash : err fault ≢ ok a
        clash k = cc

module _ {W : Type 0} (db : Database W) (c : PegasusConnector) (step : RouteStep) where
  run_query-IsBounded :
      Ensures (IsBounded db c step) (run_query db c step (first_rows step.limit c.max_rows))
  unfolding run_query
  run_query-IsBounded = skip-Ensures _ _ _ (λ _. skip-Ensures _ _ _ (λ _.
      known-Ensures _ _ _ (λ answer answered. found-Ensures _ _ _ _ (λ columns named.
        bind-Ensures
          (Scanned db columns (first_rows step.limit c.max_rows) c.max_bytes answer.end [] 0
            answer.rows)
          _ _ _
          (lifted-Ensures _ _ (
            scan_rows-Scanned db columns (first_rows step.limit c.max_rows) c.max_bytes answer.end
              [] 0 answer.rows (omega arith)))
          (λ scanned s. known-Ensures _ _ _ (λ total given. done-Ensures _ _ (record {
            answer = answer;
            columns = columns;
            cut = scanned.1;
            answered = asked-gives db _ _ answer answered;
            named = named;
            scanned = s;
            total = asked-gives db _ _ total given;
            truncated = refl;
            counted = refl;
            few = (let f = first_rows-few step.limit c.max_rows in omega (arith, f, s.few));
            as_asked =
                λ h. (let f = first_rows-asked step.limit c.max_rows h in omega (arith, f, s.few));
          })))))))

  accepted : (r : Result QueryFault (Unit {0})) → is_err r ≡ false → r ≡ ok tt
  accepted (ok u) h = refl
  accepted (err e) h = absurd (cc)

  -- Whatever the database answers: either nothing was sent to it and the execution failed, or the guard
  -- accepted the query of the step; and then the items of the evidence, if there is one, show the first of
  -- the rows that the database gave to that query, as many as the configuration and the step allow; its
  -- total is what the database gave to the count of that query; and it is marked as truncated exactly if
  -- the scan was cut or that total is above its count of items.
  pub pegasus_execute-Guarded :
      (tables : UnicodeTables) (w : W)
      → Guarded
          (validate_query tables step.query ≡ ok tt)
          (IsBounded db c step)
          w
          (pegasus_execute db tables c step w)
  unfolding pegasus_execute
  pegasus_execute-Guarded tables w =
      fail_if-Guarded (IsBounded db c step) (not (source_eq step.source pegasus_db)) wrong_source _
        w
        (λ _.
          fail_if-Guarded (IsBounded db c step) (not (is_query step.action)) unsupported_action _ w
            (λ _.
              fail_if-Guarded (IsBounded db c step) (is_err (validate_query tables step.query))
                invalid_query _ w
                (λ h. inr (accepted (validate_query tables step.query) h, run_query-IsBounded w))))
