-- ===== src/Api/Validation.antt =====
-- pkg/api/validation.go: which GPU UUIDs a request may name.
use elastic_gpu_telemetry_pi.Common.{
  ℕ, zero, suc, Bool, true, false, not, ◌&&◌, ◌||◌, ◌≡◌, ◌↔◌, ◌≤◌, refl, Option, none, some, [],
  ◌∷◌, arith, Text, codes, is_empty, ltb, leb, ◌==◌, length, strip_prefix, trim_space,
  if◌then◌else◌,
}

pub data UuidError : Type 0 where
  missing no_prefix bad_length bad_characters : UuidError

abbrev is_hex : ℕ → Bool
is_hex c = leb 97 c && leb c 102 || leb 65 c && leb c 70 || leb 48 c && leb c 57

-- `[a-fA-F0-9]{n}` and what follows.
unfoldable pub hex_then : ℕ → (Text → Bool) → Text → Bool
hex_then zero rest s = rest s
hex_then (suc n) rest [] = false
hex_then (suc n) rest (c ∷ s) = let more = hex_then n rest s in is_hex c && more

-- A given byte and what follows.
abbrev byte_then : ℕ → (Text → Bool) → Text → Bool
byte_then b rest [] = false
byte_then b rest (c ∷ s) = c == b && rest s

-- `gpuUUIDPattern`; 71, 80, 85 and 45 are `G`, `P`, `U` and `-`.
unfoldable pub gpu_uuid_pattern : Text → Bool
gpu_uuid_pattern = byte_then 71 (
    byte_then 80 (
      byte_then 85 (
        byte_then 45 (
          hex_then 8 (
            byte_then 45 (
              hex_then 4 (
                byte_then 45 (
                  hex_then 4
                    (byte_then 45 (hex_then 4 (byte_then 45 (hex_then 12 is_empty))))))))))))

-- `strings.ContainsAny` with the characters `'`, `"`, `;`, `\`, `<` and `>`.
abbrev is_dangerous : ℕ → Bool
is_dangerous c = c == 39 || c == 34 || c == 59 || c == 92 || c == 60 || c == 62

unfoldable pub contains_dangerous : Text → Bool
contains_dangerous [] = false
contains_dangerous (c ∷ s) = let rest = contains_dangerous s in is_dangerous c || rest

unfoldable pub has_prefix : Text → Bool
has_prefix s = elim (strip_prefix (codes "GPU-") s) [ some rest ↦ true | none ↦ false ]

-- `validateGPUUUID` of a text that is trimmed already.
unfoldable pub validate_trimmed : Text → Option UuidError
validate_trimmed s =
    if is_empty s
    then some missing
    else if not (has_prefix s)
    then some no_prefix
    else if ltb (length s) 10 || ltb 100 (length s)
    then some bad_length
    else if not (gpu_uuid_pattern s)
    then (if contains_dangerous s then some bad_characters else none)
    else none

-- `validateGPUUUID`; `none` is a nil error.
unfoldable pub validate_gpu_uuid : Text → Option UuidError
validate_gpu_uuid s = if is_empty s then some missing else validate_trimmed (trim_space s)

byte_then_safe :
    (b : ℕ) (rest : Text → Bool)
    → is_dangerous b ≡ false
    → ((s : Text) → rest s ≡ true → contains_dangerous s ≡ false)
    → (s : Text) → byte_then b rest s ≡ true
    → contains_dangerous s ≡ false
unfolding contains_dangerous
byte_then_safe b rest safe h [] e = refl
byte_then_safe b rest safe h (c ∷ s) e = ground (arith, h s)

hex_then_safe :
    (n : ℕ) (rest : Text → Bool)
    → ((s : Text) → rest s ≡ true → contains_dangerous s ≡ false)
    → (s : Text) → hex_then n rest s ≡ true
    → contains_dangerous s ≡ false
unfolding hex_then contains_dangerous
hex_then_safe zero rest h s e = h s e
hex_then_safe (suc n) rest h [] e = refl
hex_then_safe (suc n) rest h (c ∷ s) e = ground (arith, hex_then_safe n rest h s)

is_empty_safe : (s : Text) → is_empty s ≡ true → contains_dangerous s ≡ false
unfolding contains_dangerous
is_empty_safe [] e = refl
is_empty_safe (c ∷ s) e = cc

dash_then_safe :
    (n : ℕ) (rest : Text → Bool)
    → ((s : Text) → rest s ≡ true → contains_dangerous s ≡ false)
    → (s : Text) → byte_then 45 (hex_then n rest) s ≡ true
    → contains_dangerous s ≡ false
dash_then_safe n rest h = byte_then_safe 45 (hex_then n rest) refl (hex_then_safe n rest h)

gpu_uuid_pattern_safe : (s : Text) → gpu_uuid_pattern s ≡ true → contains_dangerous s ≡ false
unfolding gpu_uuid_pattern
gpu_uuid_pattern_safe = byte_then_safe 71 _ refl (
    byte_then_safe 80 _ refl (
      byte_then_safe 85 _ refl (
        dash_then_safe 8 _ (
          dash_then_safe 4 _
            (dash_then_safe 4 _ (dash_then_safe 4 _ (dash_then_safe 12 _ is_empty_safe)))))))

length-is_empty : (s : Text) → is_empty s ≡ true → length s ≡ 0
length-is_empty [] e = refl
length-is_empty (c ∷ s) e = cc

validate_trimmed_iff :
    (t : Text)
    → (validate_trimmed t ≡ none) ↔ (
        (has_prefix t ≡ true) × (10 ≤ length t) × (length t ≤ 100) × (contains_dangerous t ≡ false))
unfolding validate_trimmed
validate_trimmed_iff t = ground (arith, gpu_uuid_pattern_safe t, length-is_empty t)

-- A text is accepted exactly if, once trimmed, it starts with "GPU-", has 10 to 100 bytes and has no
-- quote, semicolon, backslash or angle bracket: the regular expression decides nothing.
pub validate_gpu_uuid_iff :
    (s : Text)
    → let t : Text = trim_space s in
      (validate_gpu_uuid s ≡ none) ↔ (
        (is_empty s ≡ false)
        × (has_prefix t ≡ true)
        × (10 ≤ length t)
        × (length t ≤ 100)
        × (contains_dangerous t ≡ false))
unfolding validate_gpu_uuid
validate_gpu_uuid_iff s = ground (arith, validate_trimmed_iff (trim_space s))
