-- ===== src/Common/Text.antt =====
-- Texts as JavaScript has them, sequences of code units, and the functions of
-- src/core/utils/Utils.ts on them.
use noba_server.Common.Base.{
  ℕ, zero, suc, ◌==◌, leb, Bool, true, false, not, ◌&&◌, ◌||◌, List, [], ◌∷◌, if◌then◌else◌,
}
use noba_server.Common.Exception.{not_implemented_error}
use noba_server.Common.Action.{Result, ok, err}

abbrev pub Text : Type 0
Text = List ℕ

abbrev pub is_between : (low high c : ℕ) → Bool
is_between low high c = leb low c && leb c high

-- Whether a code unit is one of a list.
unfoldable pub is_one_of : List ℕ → ℕ → Bool
is_one_of [] c = false
is_one_of (d ∷ l) c = c == d || is_one_of l c

-- The code units that a test accepts, in their order.
unfoldable pub keep : (ℕ → Bool) → Text → Text
keep p [] = []
keep p (c ∷ s) = let rest = keep p s in if p c then c ∷ rest else rest

-- `s.substring(0, n)`
unfoldable pub prefix : ℕ → Text → Text
prefix zero s = []
prefix (suc n) [] = []
prefix (suc n) (c ∷ s) = c ∷ prefix n s

unfoldable pub length : Text → ℕ
length [] = 0
length (c ∷ s) = suc (length s)

-- `s === t`
unfoldable pub text_eq : Text → Text → Bool
text_eq [] [] = true
text_eq [] (d ∷ t) = false
text_eq (c ∷ s) [] = false
text_eq (c ∷ s) (d ∷ t) = c == d && text_eq s t

-- `Utils.isEmail`: an empty text is an error.
abbrev pub is_email : Text → Result Bool
is_email [] = err not_implemented_error
is_email (c ∷ s) = ok (is_one_of (c ∷ s) 64)

-- `\s`
abbrev pub is_space : ℕ → Bool
is_space c =
    is_between 9 13 c
    || is_between 8192 8202 c
    || is_one_of (32 ∷ 160 ∷ 5760 ∷ 8232 ∷ 8233 ∷ 8239 ∷ 8287 ∷ 12288 ∷ 65279 ∷ []) c

abbrev pub strip_spaces : Text → Text
strip_spaces s = keep (λ c. not (is_space c)) s

abbrev pub strip_non_phone_chars : Text → Text
strip_non_phone_chars s = keep (λ c. is_between 48 57 c || c == 43) s

abbrev trim_start : Text → Text
trim_start [] = []
trim_start (c ∷ s) = let rest = trim_start s in if is_space c then rest else c ∷ s

abbrev is_blank : Text → Bool
is_blank [] = true
is_blank (c ∷ s) = is_space c && is_blank s

abbrev trim_end : Text → Text
trim_end [] = []
trim_end (c ∷ s) = let rest = trim_end s in if is_blank (c ∷ s) then [] else c ∷ rest

-- `s.trim()`
unfoldable pub trim : Text → Text
trim s = trim_end (trim_start s)
