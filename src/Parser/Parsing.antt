-- ===== src/Parser/Parsing.antt =====
-- pkg/telemetry/parser.go: what a CSV file is parsed to.
use elastic_gpu_telemetry_pi.Common.{
  ℕ, suc, ◌≡◌, ◌≢◌, ◌<◌, refl, sym, ap, ◌∙◌, ◌⊎◌, inl, inr, true, false, Option, none, some, List,
  [], ◌∷◌, map, arith, Text, Map, lookup, insert, lookup-insert, text_eq, text_eq_iff, is_empty,
  length, get_elem?, get_elem?_of_lt, ◌==◌, Result, ok, err, ◌>>=◌, All, Bool-cases,
}
use elastic_gpu_telemetry_pi.Domain.{Gpu, TelemetryRecord, empty}
use elastic_gpu_telemetry_pi.Parser.{
  ParseError, index_panic, uuid_is_empty, column_total, col_uuid, trim, trimmed, cell,
  parse_columns, parse_row, parse_rows, parse,
}

abbrev text_of : Option Text → Text
text_of none = empty
text_of (some s) = trim s

-- The UUID of a row.
unfoldable pub uuid_of : List Text → Text
uuid_of row = text_of (get_elem? row col_uuid)

-- A row with all columns and a UUID.
abbrev pub IsGood : List Text → Type 0
IsGood row = (length row ≡ column_total) × (is_empty (uuid_of row) ≡ false)

-- Each record's GPU is known, under its own UUID.
abbrev pub IsKnown : Map Gpu → Text → Type 0
IsKnown gpus uuid = (g : Gpu) × (lookup uuid gpus ≡ some g) × (g.uuid ≡ uuid)

insert-IsKnown :
    (g : Gpu) (gpus : Map Gpu) (uuid : Text)
    → (IsKnown gpus uuid) ⊎ (g.uuid ≡ uuid)
    → IsKnown (insert g.uuid g gpus) uuid
insert-IsKnown g gpus uuid h = elim (Bool-cases (text_eq g.uuid uuid)) [
  | inl e ↦ (g, ground (arith, lookup-insert g.uuid uuid g gpus), (text_eq_iff g.uuid uuid).0 e)
  | inr e ↦ elim h [
    | inl (x, at, same) ↦ (x, ground (arith, lookup-insert g.uuid uuid g gpus), same)
    | inr same ↦ absurd (ground (arith, text_eq_iff g.uuid uuid))
  ]
]

pub record Parses (rows : List (List Text)) (gpus : Map Gpu) (r : List TelemetryRecord × Map Gpu)
    : Type 0 where
  pub records : map (λ t. t.gpu_uuid) r.0 ≡ map uuid_of rows
  pub known : All (λ t. IsKnown r.1 t.gpu_uuid) r.0
  pub kept : (uuid : Text) → IsKnown gpus uuid → IsKnown r.1 uuid

module _ {E : Type 0} where
  cell_of_lt : (row : List Text) (i : ℕ) → i < length row → (s : Text) × (cell {E = E} row i ≡ ok s)
  cell_of_lt row i h = let (s, e) = get_elem?_of_lt row i h in (trim s, ap trimmed e)

  cell-uuid :
      (row : List Text) → length row ≡ column_total → cell {E = E} row col_uuid ≡ ok (uuid_of row)
  unfolding uuid_of
  cell-uuid row h =
      let (s, e) = get_elem?_of_lt row 4 (omega arith) in
      ap trimmed e ∙ ap (λ o. ok (text_of o)) (sym e)

  bind_ok :
      {A B : Type 0} (m : Result (ParseError E) A) (f : A → Result (ParseError E) B) (a : A)
      → m ≡ ok a
      → (m >>= f) ≡ f a
  bind_ok m f a e = ap (λ r. r >>= f) e

  parse_columns_ok :
      (uuid : Text) (row : List Text)
      → length row ≡ column_total
      → (r : TelemetryRecord × Gpu) × (parse_columns {E = E} uuid row ≡ ok r)
        × (r.0.gpu_uuid ≡ uuid)
        × (r.1.uuid ≡ uuid)
  unfolding parse_columns
  parse_columns_ok uuid row full =
      let (gpu_id, e2) = cell_of_lt row 2 (omega arith) in
      let (device, e3) = cell_of_lt row 3 (omega arith) in
      let (model, e5) = cell_of_lt row 5 (omega arith) in
      let (hostname, e6) = cell_of_lt row 6 (omega arith) in
      let (metric_name, e1) = cell_of_lt row 1 (omega arith) in
      let (value, e10) = cell_of_lt row 10 (omega arith) in
      let (container, e7) = cell_of_lt row 7 (omega arith) in
      let (pod, e8) = cell_of_lt row 8 (omega arith) in
      let (namespace, e9) = cell_of_lt row 9 (omega arith) in
      (
        _,
        bind_ok _ _ _ e2
            ∙ bind_ok _ _ _ e3
            ∙ bind_ok _ _ _ e5
            ∙ bind_ok _ _ _ e6
            ∙ bind_ok _ _ _ e1
            ∙ bind_ok _ _ _ e10
            ∙ bind_ok _ _ _ e7
            ∙ bind_ok _ _ _ e8
            ∙ bind_ok _ _ _ e9,
        refl,
        refl,
      )

  parse_row-IsGood :
      (n : ℕ) (row : List Text)
      → IsGood row
      → (r : TelemetryRecord × Gpu) × (parse_row {E = E} n row ≡ ok r)
        × (r.0.gpu_uuid ≡ uuid_of row)
        × (r.1.uuid ≡ uuid_of row)
  unfolding parse_row
  parse_row-IsGood n row (full, named) =
      let (r, e, u, g) = parse_columns_ok (uuid_of row) row full in
      (r, bind_ok _ _ _ (cell-uuid row full) ∙ rw named e, u, g)

  parse_rows-Parses :
      (n : ℕ) (rows : List (List Text)) (gpus : Map Gpu)
      → All IsGood rows
      → (r : List TelemetryRecord × Map Gpu) × (parse_rows {E = E} n (map ok rows) gpus ≡ ok r)
        × Parses rows gpus r
  unfolding parse_rows
  parse_rows-Parses n [] gpus good =
      (([], gpus), refl, record { records = refl; known = tt; kept = λ uuid k. k })
  parse_rows-Parses n (row ∷ rows) gpus (good, rest) =
      let ((t, g), e, u, v) = parse_row-IsGood n row good in
      let (r, e', p) = parse_rows-Parses (suc n) rows (insert g.uuid g gpus) rest in
      let full : (length row == column_total) ≡ true = ground (arith, good.0) in
      (
        (t ∷ r.0, r.1),
        rw full (bind_ok _ _ _ e ∙ bind_ok _ _ _ e'),
        record {
          records =
              ap (λ x. x ∷ map (λ t'. t'.gpu_uuid) r.0) u ∙ ap (λ l. uuid_of row ∷ l) p.records;
          known = (p.kept t.gpu_uuid (insert-IsKnown g gpus t.gpu_uuid (inr (v ∙ sym u))), p.known);
          kept = λ uuid k. p.kept uuid (insert-IsKnown g gpus uuid (inl k));
        },
      )

  -- A file with a header of twelve columns, in which every row has twelve columns and a UUID that is
  -- not empty once trimmed, is parsed: there is one record for each row, in the order of the rows and
  -- with its UUID, and the GPU of each record is among the GPUs, under its own UUID.
  pub parse-Parses :
      (header : List Text) (rows : List (List Text))
      → length header ≡ column_total
      → All IsGood rows
      → (r : List TelemetryRecord × Map Gpu) × (parse {E = E} (ok header) (map ok rows) ≡ ok r)
        × Parses rows [] r
  unfolding parse
  parse-Parses header rows full good =
      let (r, e, p) = parse_rows-Parses 1 rows [] good in
      let full' : (length header == column_total) ≡ true = ground arith in (r, rw full' e, p)

  parse_row-no_uuid :
      (n : ℕ) (row : List Text)
      → length row ≡ column_total
      → is_empty (uuid_of row) ≡ true
      → parse_row {E = E} n row ≡ err (uuid_is_empty n)
  unfolding parse_row
  parse_row-no_uuid n row full unnamed = bind_ok _ _ _ (cell-uuid row full) ∙ rw unnamed refl

  err_of_bind :
      {A B : Type 0} (m : Result (ParseError E) A) (f : A → B)
      → (m >>= (λ a. ok (f a))) ≡ err index_panic
      → m ≡ err index_panic
  err_of_bind (ok a) f e = cc
  err_of_bind (err x) f e = cc

  abbrev after_row :
      ℕ
      → List (Result E (List Text))
      → Map Gpu
      → TelemetryRecord × Gpu
      → Result (ParseError E) (List TelemetryRecord × Map Gpu)
  after_row n rows gpus r =
      parse_rows (suc n) rows (insert r.1.uuid r.1 gpus) >>= (λ t. ok (r.0 ∷ t.0, t.1))

  parse_rows-full :
      (n : ℕ) (row : List Text) (rows : List (Result E (List Text))) (gpus : Map Gpu)
      → (length row == column_total) ≡ true
      → parse_rows n (ok row ∷ rows) gpus ≡ (parse_row n row >>= after_row n rows gpus)
  unfolding parse_rows
  parse_rows-full n row rows gpus full = rw full refl

  parse_rows_in_range :
      (n : ℕ) (rows : List (Result E (List Text))) (gpus : Map Gpu)
      → parse_rows n rows gpus ≢ err index_panic
  unfolding parse_rows
  parse_rows_in_range n [] gpus e = cc
  parse_rows_in_range n (err x ∷ rows) gpus e = cc
  parse_rows_in_range n (ok row ∷ rows) gpus e = elim (Bool-cases (length row == column_total)) [
    | inr short ↦ ground arith
    | inl full ↦ elim (Bool-cases (is_empty (uuid_of row))) [
      | inl unnamed ↦ let failed = parse_row-no_uuid n row (ground arith) unnamed in ground arith
      | inr named ↦
          let (r, run, u, g) = parse_row-IsGood n row (ground arith, named) in
          parse_rows_in_range (suc n) rows (insert r.1.uuid r.1 gpus) (
            err_of_bind (parse_rows (suc n) rows (insert r.1.uuid r.1 gpus)) (λ t. (r.0 ∷ t.0, t.1))
              (sym (bind_ok _ (after_row n rows gpus) r run)
                ∙ sym (parse_rows-full n row rows gpus full)
                ∙ e))
    ]
  ]

  -- Whatever the reader gives, `Parse` does not panic: no index into a row is out of range.
  pub parse_in_range :
      (header : Result E (List Text)) (rows : List (Result E (List Text)))
      → parse header rows ≢ err index_panic
  unfolding parse
  parse_in_range (err x) rows e = cc
  parse_in_range (ok header) rows e = ground (arith, parse_rows_in_range 1 rows [])
