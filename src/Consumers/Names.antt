-- ===== src/Consumers/Names.antt =====
-- What a generated handle looks like, and which of them the check of handles accepts.
use noba_server.Common.Base.{
  ◌≡◌, refl, ℕ, ◌≤◌, ◌==◌, Bool, Bool-cases, true, false, ◌||◌, some, [], ◌∷◌, inl, inr,
  if◌then◌else◌, ◌++◌, arith,
}
use noba_server.Common.Text.{Text, keep, prefix, length, is_one_of}
use noba_server.Common.Exception.{service, semantic_validation}
use noba_server.Common.Action.{ok, err}
use noba_server.Consumers.Handles.{
  all, is_supported, is_alphanumeric, or_default, part, remove_all_unsupported_handle_characters,
  generate_default_handle, analyse_handle,
}
use noba_server.Consumers.Characters.{
  all-or_default, pad_lem, length-prefix_le, length-prefix_ge, all-prefix,
}

-- `handle[0] === "-"`
abbrev pub starts_with_dash : Text → Bool
starts_with_dash [] = false
starts_with_dash (c ∷ s) = c == 45

not_dash : (c : ℕ) → (c == 45) ≡ true → is_alphanumeric c ≡ false
unfolding is_alphanumeric is_one_of
not_dash c h = let is : c ≡ 45 = ground arith in rw is refl

analyse_lem :
    (has_bad_word : Text → Bool) (h : Text)
    → 3 ≤ length h
    → length h ≤ 16
    → all is_supported h ≡ true
    → analyse_handle has_bad_word h
      ≡ (if starts_with_dash h || has_bad_word h then err (service semantic_validation) else ok tt)
unfolding analyse_handle all length
analyse_lem bad [] m n a = absurd (omega arith)
analyse_lem bad (c ∷ s) m n a = elim (Bool-cases (c == 45)) [
  | inl dash ↦ ground (arith, dash, not_dash c dash)
  | inr other ↦ ground (arith, other)
]

-- A default handle is always generated: the loop that pads it ends. It has 3 to 16 characters, all
-- of them supported, and the check of handles accepts it exactly if it does not start with a dash
-- and has no bad word.
pub generate_default_handle-IsAnalysed :
    (first_name last_name random : Text) (has_bad_word : Text → Bool)
    → (h : Text) × (generate_default_handle first_name last_name random ≡ some h)
      × (3 ≤ length h)
      × (length h ≤ 16)
      × (all is_supported h ≡ true)
      × (analyse_handle has_bad_word h ≡ (
          if starts_with_dash h || has_bad_word h
          then err (service semantic_validation)
          else ok tt))
unfolding generate_default_handle remove_all_unsupported_handle_characters
generate_default_handle-IsAnalysed first_name last_name random bad =
    let text = part 10 first_name ++ 45 ∷ (part 2 last_name ++ random) in
    let start = or_default (keep is_supported text) in
    let (s, padded, long, supported) =
      pad_lem 4 start (omega arith) (omega arith) (all-or_default text) in
    let h = prefix 16 s in
    let least = length-prefix_ge 3 16 s (omega arith) long in
    let most = length-prefix_le 16 s in
    let characters = all-prefix is_supported 16 s supported in
    (h, rw padded refl, least, most, characters, analyse_lem bad h least most characters)
