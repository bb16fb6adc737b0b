-- ===== src/Parser/Tests.antt =====
-- Runs of the CSV parser at concrete inputs.
use elastic_gpu_telemetry_pi.Common.{
  ◌≡◌, refl, List, [], ◌∷◌, map, Text, Map, codes, trim_space, ok, All,
}
use elastic_gpu_telemetry_pi.Domain.{Gpu, TelemetryRecord, empty}
use elastic_gpu_telemetry_pi.Parser.{trim, without_quote, parse}
use elastic_gpu_telemetry_pi.Parser.Parsing.{IsGood, Parses, uuid_of, parse-Parses}

abbrev row : Text → List Text
row uuid =
    codes "t"
    ∷ codes "DCGM_FI_DEV_GPU_UTIL"
    ∷ codes "0"
    ∷ codes "nvidia0"
    ∷ uuid
    ∷ codes "H100"
    ∷ codes "host"
    ∷ empty
    ∷ empty
    ∷ empty
    ∷ codes "97"
    ∷ empty
    ∷ []

abbrev quoted : Text
quoted = 32 ∷ 34 ∷ 71 ∷ 49 ∷ 34 ∷ []

trim_run : trim quoted ≡ codes "G1"
unfolding trim trim_space without_quote
trim_run = refl

abbrev rows : List (List Text)
rows = row quoted ∷ row (codes "G2") ∷ []

good : All IsGood rows
unfolding uuid_of trim trim_space without_quote
good = ((refl, refl), ((refl, refl), tt))

parse-Parses_example :
    (r : List TelemetryRecord × Map Gpu) × (parse {E = Text} (ok (row empty)) (map ok rows) ≡ ok r)
    × Parses rows [] r
parse-Parses_example = parse-Parses (row empty) rows refl good
