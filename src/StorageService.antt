-- ===== src/StorageService.antt =====
-- cmd/storage-service/main.go: the handlers of the storage service over any repository. What gin does is
-- given: the request's parameters, and the result of `ShouldBindJSON`. A response is a status and what
-- `c.JSON` is given.
use elastic_gpu_telemetry_pi.Common.{
  ℕ, Option, none, some, List, Text, is_empty, Result, ok, err, if◌then◌else◌,
}
use elastic_gpu_telemetry_pi.Domain.{Time, Gpu, TelemetryRecord}
use elastic_gpu_telemetry_pi.Storage.{Repository}

pub data StorageReply (E : Type 0) : Type 0 where
  bad_request : Text → StorageReply E
  invalid_start invalid_end : Text → StorageReply E
  failed : E → StorageReply E
  gpu_list : List Gpu → StorageReply E
  one_gpu : Gpu → StorageReply E
  gpu_not_found telemetry_saved : StorageReply E
  gpu_saved : Text → StorageReply E
  record_list : List TelemetryRecord → StorageReply E

unfoldable pub reply_status : {E : Type 0} → StorageReply E → ℕ
reply_status (bad_request e) = 400
reply_status (invalid_start e) = 400
reply_status (invalid_end e) = 400
reply_status (failed e) = 500
reply_status (gpu_list l) = 200
reply_status (one_gpu g) = 200
reply_status gpu_not_found = 404
reply_status telemetry_saved = 201
reply_status (gpu_saved uuid) = 201
reply_status (record_list l) = 200

-- A request, as the router hands it to its handler. A query parameter that is not given is empty.
pub data StorageRequest : Type 0 where
  list_request : StorageRequest
  get_request : Text → StorageRequest
  save_gpu_request : Result Text Gpu → StorageRequest
  save_telemetry_request : Result Text TelemetryRecord → StorageRequest
  telemetry_request : Text → Text → Text → StorageRequest

-- A bound of the time range; an empty text gives none. `parse_time` is `time.Parse` with RFC 3339.
abbrev pub bound_of : (Text → Result Text Time) → Text → Result Text (Option Time)
bound_of parse_time text =
    if is_empty text then ok none else elim (parse_time text) [ err e ↦ err e | ok t ↦ ok (some t) ]

module _ {S E : Type 0} (repository : Repository S E) where
  unfoldable pub answer_list : S → StorageReply E
  answer_list s = elim (repository.lists_gpus s) [ err e ↦ failed e | ok gpus ↦ gpu_list gpus ]

  abbrev pub found_reply : Option Gpu → StorageReply E
  found_reply none = gpu_not_found
  found_reply (some gpu) = one_gpu gpu

  unfoldable pub answer_get : Text → S → StorageReply E
  answer_get uuid s = elim (repository.gets_gpu uuid s) [
    | err e ↦ failed e
    | ok gpu ↦ found_reply gpu
  ]

  abbrev pub saved_reply : StorageReply E → S × Option E → S × StorageReply E
  saved_reply saved (s, none) = (s, saved)
  saved_reply saved (s, some e) = (s, failed e)

  unfoldable pub answer_save_gpu : Result Text Gpu → S → S × StorageReply E
  answer_save_gpu (err e) s = (s, bad_request e)
  answer_save_gpu (ok gpu) s = saved_reply (gpu_saved gpu.uuid) (repository.saves_gpu gpu s)

  unfoldable pub answer_save_telemetry : Result Text TelemetryRecord → S → S × StorageReply E
  answer_save_telemetry (err e) s = (s, bad_request e)
  answer_save_telemetry (ok r) s = saved_reply telemetry_saved (repository.saves_telemetry r s)

  abbrev pub found_records : Result E (List TelemetryRecord) → StorageReply E
  found_records (err e) = failed e
  found_records (ok records) = record_list records

  abbrev pub answer_end : Text → S → Option Time → Result Text (Option Time) → StorageReply E
  answer_end uuid s start (err e) = invalid_end e
  answer_end uuid s start (ok end) = found_records (repository.gets_telemetry uuid start end s)

  abbrev pub answer_start :
      Text → S → Result Text (Option Time) → Result Text (Option Time) → StorageReply E
  answer_start uuid s (err e) end = invalid_start e
  answer_start uuid s (ok start) end = answer_end uuid s start end

  unfoldable pub answer_telemetry :
      (Text → Result Text Time) → Text → Text → Text → S → StorageReply E
  answer_telemetry parse_time uuid start end s =
      answer_start uuid s (bound_of parse_time start) (bound_of parse_time end)

  -- The route table.
  unfoldable pub handle : (Text → Result Text Time) → StorageRequest → S → S × StorageReply E
  handle parse_time list_request s = (s, answer_list s)
  handle parse_time (get_request uuid) s = (s, answer_get uuid s)
  handle parse_time (save_gpu_request body) s = answer_save_gpu body s
  handle parse_time (save_telemetry_request body) s = answer_save_telemetry body s
  handle parse_time (telemetry_request uuid start end) s =
      (s, answer_telemetry parse_time uuid start end s)
