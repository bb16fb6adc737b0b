-- ===== src/Api/Responses.antt =====
-- pkg/api/handlers.go over the in-memory store: what a request is answered.
use elastic_gpu_telemetry_pi.Common.{
  false, ◌≡◌, ◌≢◌, refl, ap, ◌∙◌, Option, none, some, List, [], ◌∷◌, arith, Text, lookup, is_empty,
  Result, ok, err, ◌>>=◌, codes, ◌++◌,
}
use elastic_gpu_telemetry_pi.Common.Sorting.{SortSlice}
use elastic_gpu_telemetry_pi.Domain.{
  Time, Gpu, TelemetryRecord, TelemetryQuery, validate, is_reversed, empty,
}
use elastic_gpu_telemetry_pi.Memory.{Store, StoreError, get_gpu, found_gpu}
use elastic_gpu_telemetry_pi.Memory.Invariant.{IsConsistent}
use elastic_gpu_telemetry_pi.Memory.Queries.{Answers, get_telemetry_by_gpu-Answers}
use elastic_gpu_telemetry_pi.Storage.{Repository, memory_repository}
use elastic_gpu_telemetry_pi.Api.{
  Surroundings, TimeRangeError, in_order, parse_bound, invalid_start_time, invalid_end_time,
  parse_time_range, get_telemetry, telemetry_body, respond_not_found, answer_uuid, answer_range,
  answer_gpu, answer_records,
}
use elastic_gpu_telemetry_pi.Api.Validation.{validate_gpu_uuid}

is_reversed_of_accepted :
    (x y : Result TimeRangeError (Option Time)) (start end : Option Time)
    → (x >>= (λ s. y >>= (λ e. in_order s e))) ≡ ok (start, end)
    → is_reversed start end ≡ false
is_reversed_of_accepted (ok s) (ok e) start end h = ground arith
is_reversed_of_accepted (ok s) (err e) start end h = cc
is_reversed_of_accepted (err e) y start end h = cc

-- A time range that is accepted makes a valid query of every GPU that has a name.
pub parse_time_range-validate :
    (parse : Text → Result Text Time) (start_text end_text uuid : Text) (start end : Option Time)
    → parse_time_range parse start_text end_text ≡ ok (start, end)
    → uuid ≢ empty
    → validate (record { gpu_uuid = uuid; start_time = start; end_time = end }) ≡ none
unfolding parse_time_range validate
parse_time_range-validate parse start_text end_text uuid start end h named = ground (
  arith,
  is_reversed_of_accepted (parse_bound parse invalid_start_time start_text)
      (parse_bound parse invalid_end_time end_text) start end h,
  nonempty uuid named,
)
  where
    nonempty : (s : Text) → s ≢ empty → is_empty s ≡ false
    nonempty [] n = absurd (n refl)
    nonempty (c ∷ s) n = refl

pub named_of_validate : (uuid : Text) → validate_gpu_uuid uuid ≡ none → uuid ≢ empty
unfolding validate_gpu_uuid
named_of_validate uuid h e = ground arith

pub get_gpu_found :
    (uuid : Text) (s : Store) (found : Option Gpu)
    → uuid ≢ empty
    → lookup uuid s.gpus ≡ found
    → get_gpu uuid s ≡ ok (found_gpu found)
unfolding get_gpu
get_gpu_found [] s found n e = absurd (n refl)
get_gpu_found (c ∷ uuid) s found n e = ap (λ o. ok (found_gpu o)) e

module _ (slice : SortSlice) (keys : Store → List Text) (around : Surroundings StoreError)
    (s : Store) (uuid start_text end_text : Text) (start end : Option Time)
    (consistent : IsConsistent s) (valid : validate_gpu_uuid uuid ≡ none)
    (range : parse_time_range around.parse_time start_text end_text ≡ ok (start, end)) where
  abbrev repository : Repository Store StoreError
  repository = memory_repository slice keys

  -- A valid request for a GPU that was saved is answered with the copies of exactly the records that
  -- the query matches, sorted by time, whatever the store's history.
  pub get_telemetry-Answers :
      (gpu : Gpu)
      → lookup uuid s.gpus ≡ some gpu
      → (records : List TelemetryRecord) × (get_telemetry repository around uuid start_text end_text
            s
          ≡ telemetry_body repository around uuid start end records)
        × Answers (record { gpu_uuid = uuid; start_time = start; end_time = end }) s records
  unfolding get_telemetry memory_repository
  get_telemetry-Answers gpu saved =
      let q : TelemetryQuery = record { gpu_uuid = uuid; start_time = start; end_time = end } in
      let (records, run, answers) =
        get_telemetry_by_gpu-Answers slice q s consistent (named_of_validate uuid valid) in
      (
        records,
        ap (answer_uuid repository around uuid start_text end_text s) valid
            ∙ ap (answer_range repository around uuid s) range
            ∙ ap (answer_gpu repository around uuid start end s)
                (get_gpu_found uuid s (some gpu) (named_of_validate uuid valid) saved)
            ∙ ap (answer_records repository around uuid start end) run,
        answers,
      )

  -- A valid request for a GPU that was not saved is answered with status 404.
  pub get_telemetry_not_found :
      lookup uuid s.gpus ≡ none
      → (message : Text) × (get_telemetry repository around uuid start_text end_text s
          ≡ respond_not_found around.now (codes "GPU_NOT_FOUND") message)
  unfolding get_telemetry memory_repository
  get_telemetry_not_found unsaved = (
    codes "GPU with UUID '" ++ uuid ++ codes "' not found",
    ap (answer_uuid repository around uuid start_text end_text s) valid
        ∙ ap (answer_range repository around uuid s) range
        ∙ ap (answer_gpu repository around uuid start end s)
            (get_gpu_found uuid s none (named_of_validate uuid valid) unsaved),
  )
