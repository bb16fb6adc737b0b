-- ===== src/Common/Spaces.antt =====
-- `strings.TrimSpace` of Go, on the bytes of UTF-8.
use Prim.Native.Nat.{ℕ, zero, suc}
use mathlib.Core.Option.{Option, none, some}
use mathlib.Core.List.{List, [], ◌∷◌, ◌++◌, map}
use elastic_gpu_telemetry_pi.Common.Tests.{◌==◌, if◌then◌else◌}
use elastic_gpu_telemetry_pi.Common.Lists.{length}
use elastic_gpu_telemetry_pi.Common.Strings.{Text}

-- The encodings of the runes that `unicode.IsSpace` accepts.
abbrev spaces : List Text
spaces =
    (9 ∷ [])
    ∷ (10 ∷ [])
    ∷ (11 ∷ [])
    ∷ (12 ∷ [])
    ∷ (13 ∷ [])
    ∷ (32 ∷ [])
    ∷ (194 ∷ 133 ∷ [])
    ∷ (194 ∷ 160 ∷ [])
    ∷ (225 ∷ 154 ∷ 128 ∷ [])
    ∷ (226 ∷ 128 ∷ 168 ∷ [])
    ∷ (226 ∷ 128 ∷ 169 ∷ [])
    ∷ (226 ∷ 128 ∷ 175 ∷ [])
    ∷ (226 ∷ 129 ∷ 159 ∷ [])
    ∷ (227 ∷ 128 ∷ 128 ∷ [])
    ∷ map (λ b. 226 ∷ 128 ∷ b ∷ [])
        (128 ∷ 129 ∷ 130 ∷ 131 ∷ 132 ∷ 133 ∷ 134 ∷ 135 ∷ 136 ∷ 137 ∷ 138 ∷ [])

unfoldable pub strip_prefix : Text → Text → Option Text
strip_prefix [] s = some s
strip_prefix (p ∷ ps) [] = none
strip_prefix (p ∷ ps) (c ∷ s) = let rest = strip_prefix ps s in if p == c then rest else none

strip_any : List Text → Text → Option Text
unfolding strip_prefix
strip_any [] s = none
strip_any (p ∷ ps) s =
    let rest = strip_any ps s in elim (strip_prefix p s) [ some t ↦ some t | none ↦ rest ]

-- Each round takes at least one byte off, so the length is enough fuel.
strip_all : List Text → ℕ → Text → Text
unfolding strip_any
strip_all ps zero s = s
strip_all ps (suc n) s = elim (strip_any ps s) [ some t ↦ strip_all ps n t | none ↦ s ]

abbrev reversed : Text → Text
reversed [] = []
reversed (c ∷ s) = reversed s ++ c ∷ []

unfoldable pub trim_space : Text → Text
unfolding strip_all
trim_space s =
    let left = strip_all spaces (length s) s in
    reversed (strip_all (map reversed spaces) (length left) (reversed left))
