-- ===== src/Consumers/Handles.antt =====
-- The handles of src/modules/consumer/consumer.service.ts: cleaning, checking and making them. What
-- the filter of bad words says is a parameter.
use noba_server.Common.Base.{
  ℕ, zero, suc, ◌==◌, ltb, Bool, true, false, not, ◌&&◌, ◌||◌, Option, none, some, [], ◌∷◌, ◌++◌,
  if◌then◌else◌,
}
use noba_server.Common.Text.{Text, is_between, is_one_of, keep, prefix, length}
use noba_server.Common.Exception.{service, semantic_validation}
use noba_server.Common.Action.{Result, ok, err}

-- `[a-zA-Z0-9ñáéíóúü]`
unfoldable pub is_alphanumeric : ℕ → Bool
is_alphanumeric c =
    is_between 97 122 c
    || is_between 65 90 c
    || is_between 48 57 c
    || is_one_of (241 ∷ 225 ∷ 233 ∷ 237 ∷ 243 ∷ 250 ∷ 252 ∷ []) c

-- `[a-zA-Z0-9ñáéíóúü-]`
abbrev pub is_supported : ℕ → Bool
is_supported c = is_alphanumeric c || c == 45

unfoldable pub all : (ℕ → Bool) → Text → Bool
all p [] = true
all p (c ∷ s) = p c && all p s

-- `^[a-zA-Z0-9ñáéíóúü][a-zA-Z0-9ñáéíóúü-]{2,22}$`
abbrev pub matches : Text → Bool
matches [] = false
matches (c ∷ s) =
    is_alphanumeric c && all is_supported s && not (ltb (length s) 2) && not (ltb 22 (length s))

unfoldable pub analyse_handle : (has_bad_word : Text → Bool) → Text → Result (Unit {0})
analyse_handle has_bad_word handle =
    if ltb (length handle) 3 || ltb 22 (length handle)
    then err (service semantic_validation)
    else if not (matches handle)
    then err (service semantic_validation)
    else if has_bad_word handle
    then err (service semantic_validation)
    else ok tt

-- `while (result.length < 3) result += "-"`, with fuel.
unfoldable pub pad : ℕ → Text → Option Text
pad zero s = none
pad (suc fuel) s =
    let padded = pad fuel (s ++ 45 ∷ []) in if ltb (length s) 3 then padded else some s

-- "user-"
abbrev pub default_handle : Text
default_handle = 117 ∷ 115 ∷ 101 ∷ 114 ∷ 45 ∷ []

abbrev pub or_default : Text → Text
or_default [] = default_handle
or_default (c ∷ s) = c ∷ s

abbrev pub shortened : Option Text → Option Text
shortened none = none
shortened (some s) = some (prefix 16 s)

unfoldable pub remove_all_unsupported_handle_characters : (fuel : ℕ) → Text → Option Text
remove_all_unsupported_handle_characters fuel text =
    shortened (pad fuel (or_default (keep is_supported text)))

-- `name.replaceAll(".", "").substring(0, n)`
abbrev pub part : ℕ → Text → Text
part n name = prefix n (keep (λ c. not (c == 46)) name)

-- With fuel for four rounds of the loop that pads.
unfoldable pub generate_default_handle : (first_name last_name random : Text) → Option Text
generate_default_handle first_name last_name random =
    remove_all_unsupported_handle_characters 4
      (part 10 first_name ++ 45 ∷ (part 2 last_name ++ random))
