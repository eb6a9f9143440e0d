-- ===== src/Text/Laws.antt =====
-- Facts about the text operations.
use mathlib.Core.List.{reverse, reverse_aux, reverse-reverse}
use xdp_firewall.Prelude.{◌≡◌, refl, ap, ◌∙◌, true, false, List, [], ◌∷◌, All, arith}
use xdp_firewall.Text.{Text, text_eq, is_whitespace, trim_start, trim, to_ascii_lowercase}

pub text_eq→eq : (s t : Text) → text_eq s t ≡ true → s ≡ t
text_eq→eq [] [] h = refl
text_eq→eq [] (b ∷ t) h = ground arith
text_eq→eq (a ∷ s) [] h = ground arith
text_eq→eq (a ∷ s) (b ∷ t) h = ground (arith, text_eq→eq s t)

pub text_eq_refl : (s : Text) → text_eq s s ≡ true
text_eq_refl [] = refl
text_eq_refl (a ∷ s) = ground (arith, text_eq_refl s)

pub to_ascii_lowercase_idem :
    (s : Text) → to_ascii_lowercase (to_ascii_lowercase s) ≡ to_ascii_lowercase s
to_ascii_lowercase_idem [] = refl
to_ascii_lowercase_idem (c ∷ s) = ground (arith, to_ascii_lowercase_idem s)

reverse_aux-All {ℓ} :
    {A : Type ℓ} (P : A → Type 0) (xs ys : List A) → All P xs → All P ys → All P (reverse_aux xs ys)
reverse_aux-All P [] ys h k = k
reverse_aux-All P (x ∷ xs) ys h k = reverse_aux-All P xs (x ∷ ys) h.1 (h.0, k)

trim_start_none : (s : Text) → All (λ c. is_whitespace c ≡ false) s → trim_start s ≡ s
unfolding trim_start
trim_start_none [] h = refl
trim_start_none (c ∷ s) h = rw (h.0) refl

-- A text without white space is its own trimmed form.
pub trim_none : (s : Text) → All (λ c. is_whitespace c ≡ false) s → trim s ≡ s
unfolding trim
trim_none s h =
    ap (λ t. reverse (trim_start (reverse t))) (trim_start_none s h)
    ∙ ap reverse
        (trim_start_none (reverse s) (reverse_aux-All (λ c. is_whitespace c ≡ false) s [] h tt))
    ∙ reverse-reverse s
