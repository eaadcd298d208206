-- ===== src/Consumers/Characters.antt =====
-- How filters, paddings and prefixes change a text's length and characters.
use noba_server.Common.Base.{
  ◌≡◌, refl, ℕ, zero, suc, ◌+◌, ◌≤◌, ltb, Bool, Bool-cases, true, some, [], ◌∷◌, ◌++◌, inl, inr,
  arith,
}
use noba_server.Common.Text.{Text, keep, prefix, length, is_one_of}
use noba_server.Consumers.Handles.{all, pad, is_alphanumeric, is_supported, or_default}

all-keep : (p : ℕ → Bool) (s : Text) → all p (keep p s) ≡ true
unfolding all keep
all-keep p [] = refl
all-keep p (c ∷ s) = elim (Bool-cases (p c)) [
  | inl kept ↦ rw (kept, kept) (all-keep p s)
  | inr dropped ↦ rw dropped (all-keep p s)
]

pub all-prefix : (p : ℕ → Bool) (n : ℕ) (s : Text) → all p s ≡ true → all p (prefix n s) ≡ true
unfolding all prefix
all-prefix p zero s h = refl
all-prefix p (suc n) [] h = refl
all-prefix p (suc n) (c ∷ s) h = ground (arith, all-prefix p n s)

pub all-append :
    (p : ℕ → Bool) (s t : Text) → all p s ≡ true → all p t ≡ true → all p (s ++ t) ≡ true
unfolding all
all-append p [] t h k = k
all-append p (c ∷ s) t h k = ground (arith, all-append p s t)

pub length-append : (s t : Text) → length (s ++ t) ≡ length s + length t
unfolding length
length-append [] t = omega arith
length-append (c ∷ s) t = omega (arith, length-append s t)

pub length-prefix_le : (n : ℕ) (s : Text) → length (prefix n s) ≤ n
unfolding length prefix
length-prefix_le zero s = omega arith
length-prefix_le (suc n) [] = omega arith
length-prefix_le (suc n) (c ∷ s) = omega (arith, length-prefix_le n s)

pub length-prefix_ge : (m n : ℕ) (s : Text) → m ≤ n → m ≤ length s → m ≤ length (prefix n s)
unfolding length prefix
length-prefix_ge m zero s h k = omega arith
length-prefix_ge m (suc n) [] h k = omega arith
length-prefix_ge zero (suc n) (c ∷ s) h k = omega arith
length-prefix_ge (suc m) (suc n) (c ∷ s) h k =
    omega (arith, length-prefix_ge m n s (omega arith) (omega arith))

pub all-or_default : (s : Text) → all is_supported (or_default (keep is_supported s)) ≡ true
unfolding all is_one_of is_alphanumeric
all-or_default s = or_default_lem (keep is_supported s) (all-keep is_supported s)
  where
    or_default_lem : (t : Text) → all is_supported t ≡ true → all is_supported (or_default t) ≡ true
    or_default_lem [] h = refl
    or_default_lem (c ∷ t) h = h

one_dash : length (45 ∷ []) ≡ 1
unfolding length
one_dash = refl

dash_supported : all is_supported (45 ∷ []) ≡ true
unfolding all is_one_of is_alphanumeric
dash_supported = refl

-- With fuel for the characters that are missing and one round more, the loop that pads ends, in a
-- text of at least three characters that a test still accepts.
pub pad_lem :
    (fuel : ℕ) (s : Text)
    → 4 ≤ fuel + length s
    → 1 ≤ fuel
    → all is_supported s ≡ true
    → (t : Text) × (pad fuel s ≡ some t) × (3 ≤ length t) × (all is_supported t ≡ true)
unfolding pad
pad_lem zero s h k a = absurd (omega arith)
pad_lem (suc fuel) s h k a = elim (Bool-cases (ltb (length s) 3)) [
  | inr enough ↦ (s, ground arith, ground arith, a)
  | inl short ↦
      let longer : length (s ++ 45 ∷ []) ≡ suc (length s) =
        omega (arith, length-append s (45 ∷ []), one_dash) in
      let (t, e, b, a') =
        pad_lem fuel (s ++ 45 ∷ []) (ground arith) (ground arith)
          (all-append is_supported s (45 ∷ []) a dash_supported) in
      (t, ground (arith, e), b, a')
]
