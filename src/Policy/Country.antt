-- ===== src/Policy/Country.antt =====
-- src/intelligence/geo/country.rs: country codes and their two-byte form.
use Prim.Native.Nat.{bit_and, bit_or}
use xdp_firewall.Prelude.{
  ℕ, zero, suc, ◌+◌, ◌-◌, ◌*◌, ◌/◌, ◌%◌, ◌^◌, ◌≤◌, ◌<◌, ◌≡◌, ◌⊎◌, ◌↔◌, refl, Bool, false, true, not,
  ◌&&◌, ◌||◌, [], ◌∷◌, arith, ltb, leb, ◌==◌, if◌then◌else◌, Result, ok, err, invalid_country,
  ◌>>=◌, subst, ap,
}
use xdp_firewall.Text.{Text, trim, len, all_ascii_alphabetic, to_ascii_uppercase, text_eq}
use xdp_firewall.Text.Laws.{text_eq→eq}

unfoldable pub normalize_country : Text → Result Text
normalize_country value =
    let value = trim value in
    if not (len value == 2) || not (all_ascii_alphabetic value)
    then err invalid_country
    else ok (to_ascii_uppercase value)

-- `bytes[0]` and `bytes[1]` of a normalized code; it has two bytes, so the index is in range
abbrev pub two_bytes : Text → ℕ
two_bytes (a ∷ b ∷ s) = bit_or (a * 2 ^ 8 % 2 ^ 16) b
two_bytes _ = 0

unfoldable pub encode_country : Text → Result ℕ
unfolding normalize_country
encode_country value = do value ← normalize_country value; ok (two_bytes value)

-- String::from_utf8 on two bytes: two ASCII characters, or one character of two bytes
abbrev pub from_utf8 : ℕ → ℕ → Result Text
from_utf8 first second =
    if ltb first 0x80 && ltb second 0x80
    then ok (first ∷ second ∷ [])
    else if leb 0xc2 first && leb first 0xdf && leb 0x80 second && leb second 0xbf
    then ok (((first - 0xc0) * 64 + (second - 0x80)) ∷ [])
    else err invalid_country

unfoldable pub decode_country : ℕ → Result Text
unfolding normalize_country
decode_country country = do
  code ← from_utf8 (bit_and (country / 2 ^ 8) 0xff % 2 ^ 8) (bit_and country 0xff % 2 ^ 8)
  normalize_country code

-- The codes that `normalize_country` returns: two uppercase ASCII letters.
abbrev pub IsCountry : Text → Type 0
IsCountry (a ∷ b ∷ []) = (65 ≤ a) × (a ≤ 90) × (65 ≤ b) × (b ≤ 90)
IsCountry _ = ⊥

IsCountry-upper :
    (s : Text) → len s ≡ 2 → all_ascii_alphabetic s ≡ true → IsCountry (to_ascii_uppercase s)
IsCountry-upper [] h k = absurd (omega arith)
IsCountry-upper (a ∷ []) h k = absurd (ground arith)
IsCountry-upper (a ∷ b ∷ []) h k = ground arith
IsCountry-upper (a ∷ b ∷ c ∷ s) h k = absurd (ground arith)

-- A code that normalization returns has two uppercase letters.
pub normalize_country-IsCountry :
    (value : Text) {code : Text} → normalize_country value ≡ ok code → IsCountry code
unfolding normalize_country
normalize_country-IsCountry value {code} h =
    let two : len (trim value) ≡ 2 = ground arith in
    let letters : all_ascii_alphabetic (trim value) ≡ true = ground arith in
    let upper : to_ascii_uppercase (trim value) ≡ code = ground arith in
    subst IsCountry upper (IsCountry-upper (trim value) two letters)

module _ (test : ℕ → Bool) where
  -- the test for the `count` letters before a letter
  letters_pass : (count : ℕ) → Bool
  letters_pass (suc count) = letters_pass count && test count
  letters_pass zero = true

  letter_passes :
      (letter count : ℕ) → letter < count → letters_pass count ≡ true → test letter ≡ true
  unfolding letters_pass
  letter_passes letter (suc count) inside all = ground (arith, letter_passes letter count)
  letter_passes letter zero inside all = absurd (omega arith)

-- whether decoding gives the text back
gives_back : Result Text → Text → Bool
gives_back (ok s) t = text_eq s t
gives_back (err e) t = false

gives_back→eq : (r : Result Text) (t : Text) → gives_back r t ≡ true → r ≡ ok t
unfolding gives_back
gives_back→eq (ok s) t h = ap ok (text_eq→eq s t h)
gives_back→eq (err e) t h = absurd (cc)

letters_round_trip : ℕ → ℕ → Bool
unfolding gives_back decode_country trim
letters_round_trip i j =
    let code = (65 + i) ∷ (65 + j) ∷ [] in gives_back (decode_country (two_bytes code)) code

-- Every pair of letters, checked by evaluation.
letters_table : letters_pass (λ i. letters_pass (letters_round_trip i) 26) 26 ≡ true
unfolding letters_pass letters_round_trip
letters_table = refl

letters_found :
    (i j : ℕ)
    → i < 26
    → j < 26
    → decode_country (two_bytes ((65 + i) ∷ (65 + j) ∷ [])) ≡ ok ((65 + i) ∷ (65 + j) ∷ [])
letters_found i j hi hj =
    let row : letters_pass (letters_round_trip i) 26 ≡ true =
      letter_passes (λ i. letters_pass (letters_round_trip i) 26) i 26 hi letters_table in
    gives_back→eq _ ((65 + i) ∷ (65 + j) ∷ [])
      (unfold letters_round_trip in letter_passes (letters_round_trip i) j 26 hj row)

decode-two_bytes : (code : Text) → IsCountry code → decode_country (two_bytes code) ≡ ok code
decode-two_bytes (a ∷ b ∷ []) h =
    let ea : 65 + (a - 65) ≡ a = omega arith in
    let eb : 65 + (b - 65) ≡ b = omega arith in
    rw (ea, eb) at (letters_found (a - 65) (b - 65) (omega arith) (omega arith))
decode-two_bytes [] h = absurd h
decode-two_bytes (a ∷ []) h = absurd h
decode-two_bytes (a ∷ b ∷ c ∷ s) h = absurd h

-- Decoding the encoded country gives the normalized code.
pub decode-encode_country :
    (value : Text) {code : Text}
    → normalize_country value ≡ ok code
    → (n : ℕ) × (encode_country value ≡ ok n) × (decode_country n ≡ ok code)
unfolding encode_country
decode-encode_country value {code} h =
    (two_bytes code, rw h, decode-two_bytes code (normalize_country-IsCountry value h))

abbrev pub IsLetter : ℕ → Type 0
IsLetter c = ((65 ≤ c) × (c ≤ 90)) ⊎ ((97 ≤ c) × (c ≤ 122))

-- Two ASCII letters, in either case.
abbrev pub IsTwoLetters : Text → Type 0
IsTwoLetters (a ∷ b ∷ []) = IsLetter a × IsLetter b
IsTwoLetters _ = ⊥

IsTwoLetters-tests : (s : Text) → len s ≡ 2 → all_ascii_alphabetic s ≡ true → IsTwoLetters s
IsTwoLetters-tests [] h k = absurd (omega arith)
IsTwoLetters-tests (a ∷ []) h k = absurd (ground arith)
IsTwoLetters-tests (a ∷ b ∷ []) h k = ground arith
IsTwoLetters-tests (a ∷ b ∷ c ∷ s) h k = absurd (ground arith)

tests-IsTwoLetters : (s : Text) → IsTwoLetters s → (len s ≡ 2) × (all_ascii_alphabetic s ≡ true)
tests-IsTwoLetters [] h = absurd h
tests-IsTwoLetters (a ∷ []) h = absurd h
tests-IsTwoLetters (a ∷ b ∷ []) h = ground arith
tests-IsTwoLetters (a ∷ b ∷ c ∷ s) h = absurd h

-- A text encodes exactly if it is two letters but for the white space around them.
pub encode_country_iff :
    (value : Text) → ((n : ℕ) × (encode_country value ≡ ok n)) ↔ IsTwoLetters (trim value)
unfolding encode_country normalize_country
encode_country_iff value = (encodes value, two_letters value)
  where
    encodes : (v : Text) → (n : ℕ) × (encode_country v ≡ ok n) → IsTwoLetters (trim v)
    encodes v (n, e) = IsTwoLetters-tests (trim v) (ground arith) (ground arith)

    two_letters : (v : Text) → IsTwoLetters (trim v) → (n : ℕ) × (encode_country v ≡ ok n)
    two_letters v h =
        let (two, letters) = tests-IsTwoLetters (trim v) h in
        let is_two : (len (trim v) == 2) ≡ true = ground arith in
        (two_bytes (to_ascii_uppercase (trim v)), rw (is_two, letters) refl)
