-- ===== src/Fpd/Numbers.antt =====
-- std::to_string on unsigned numbers, atoi and std::stoi.
use entservices_devicesettin.Prelude.{
  ℕ, zero, suc, ◌+◌, ◌*◌, ◌-◌, ◌/◌, ◌%◌, ◌<◌, ◌≡◌, refl, sym, ap, ◌∙◌, Bool, true, false, ◌&&◌,
  Option, none, some, [], ◌∷◌, ◌++◌, Bytes, leb, ltb, ◌==◌, if◌then◌else◌, arith, Bool-cases,
  ltb→lt, inl, inr,
}

-- The decimal digits, by division; n itself is fuel enough.
digits : ℕ → ℕ → Bytes
digits zero n = []
digits (suc fuel) n =
    let rest = digits fuel (n / 10) in
    if ltb n 10 then (48 + n) ∷ [] else rest ++ ((48 + n % 10) ∷ [])

unfoldable pub to_string : ℕ → Bytes
unfolding digits
to_string n = digits (suc n) n

abbrev is_digit : ℕ → Bool
is_digit c = leb 48 c && leb c 57

-- The digits at the front, after a number that has been read.
read_digits : ℕ → Bytes → ℕ
read_digits acc [] = acc
read_digits acc (c ∷ s) = if is_digit c then read_digits (10 * acc + (c - 48)) s else acc

-- isspace
abbrev is_space : ℕ → Bool
is_space c = if c == 32 then true else leb 9 c && leb c 13

abbrev modulus : ℕ
modulus = 4294967296

-- A sign, and the digits; the result is what the cast to 32 unsigned bits makes of it.
read_signed : Bytes → ℕ
unfolding read_digits
read_signed [] = 0
read_signed (c ∷ s) =
    if c == 45
    then (modulus - read_digits 0 s % modulus) % modulus
    else if c == 43
    then read_digits 0 s % modulus
    else read_digits 0 (c ∷ s) % modulus

unfoldable pub atoi : Bytes → ℕ
unfolding read_signed
atoi [] = 0
atoi (c ∷ s) = if is_space c then atoi s else read_signed (c ∷ s)

abbrev starts_with_digit : Bytes → Bool
starts_with_digit [] = false
starts_with_digit (c ∷ s) = is_digit c

-- The text after a sign; a number beyond the limit throws.
read_within : Bytes → ℕ → Option ℕ
unfolding read_digits
read_within s limit =
    if starts_with_digit s && leb (read_digits 0 s) limit then some (read_digits 0 s) else none

abbrev negated : Option ℕ → Option ℕ
negated none = none
negated (some n) = some ((modulus - n) % modulus)

-- std::stoi, as 32 bits; `none` is an exception.
unfoldable pub stoi : Bytes → Option ℕ
unfolding read_within
stoi [] = none
stoi (c ∷ s) =
    let rest = stoi s in
    if is_space c
    then rest
    else if c == 45
    then negated (read_within s 2147483648)
    else if c == 43
    then read_within s 2147483647
    else read_within (c ∷ s) 2147483647

++-snoc : (xs : Bytes) (c : ℕ) (t : Bytes) → (xs ++ (c ∷ [])) ++ t ≡ xs ++ (c ∷ t)
++-snoc [] c t = refl
++-snoc (x ∷ xs) c t = ap (λ l. x ∷ l) (++-snoc xs c t)

read_digit :
    (acc d : ℕ) (t : Bytes) → d < 10 → read_digits acc ((48 + d) ∷ t) ≡ read_digits (10 * acc + d) t
unfolding read_digits
read_digit acc d t h = ground arith

read_digits-digits :
    (fuel n : ℕ) (t : Bytes) → n < fuel → read_digits 0 (digits fuel n ++ t) ≡ read_digits n t
unfolding digits
read_digits-digits zero n t h = absurd (omega (arith, h))
read_digits-digits (suc fuel) n t h = elim (Bool-cases (ltb n 10)) [
  | inl e ↦ rw e (read_digit 0 n t (ltb→lt n 10 e) ∙ ap (λ m. read_digits m t) (omega arith))
  | inr e ↦ rw e (
      ap (read_digits 0) (++-snoc (digits fuel (n / 10)) (48 + n % 10) t)
      ∙ read_digits-digits fuel (n / 10) ((48 + n % 10) ∷ t) (ground (arith, h, e))
      ∙ read_digit (n / 10) (n % 10) t (omega arith)
      ∙ ap (λ m. read_digits m t) (omega arith))
]

starts-append : (xs ys : Bytes) → starts_with_digit xs ≡ true → starts_with_digit (xs ++ ys) ≡ true
starts-append [] ys h = absurd (cc)
starts-append (x ∷ xs) ys h = h

starts-digits : (fuel n : ℕ) → n < fuel → starts_with_digit (digits fuel n) ≡ true
unfolding digits
starts-digits zero n h = absurd (omega (arith, h))
starts-digits (suc fuel) n h = elim (Bool-cases (ltb n 10)) [
  | inl e ↦ rw e (ground (arith, e))
  | inr e ↦ rw e (
      starts-append (digits fuel (n / 10)) ((48 + n % 10) ∷ [])
        (starts-digits fuel (n / 10) (ground (arith, h, e))))
]

atoi_digits : (s : Bytes) → starts_with_digit s ≡ true → atoi s ≡ read_digits 0 s % modulus
unfolding atoi read_signed
atoi_digits [] h = absurd (cc)
atoi_digits (c ∷ s) h = ground (arith, h)

++-nil : (xs : Bytes) → xs ++ [] ≡ xs
++-nil [] = refl
++-nil (x ∷ xs) = ap (λ l. x ∷ l) (++-nil xs)

read_digits_all : (n : ℕ) → read_digits 0 (digits (suc n) n) ≡ n
unfolding read_digits
read_digits_all n =
    ap (read_digits 0) (sym (++-nil (digits (suc n) n)))
    ∙ read_digits-digits (suc n) n [] (omega arith)

-- A 32-bit number that is written in decimal is read back.
pub atoi-to_string : (n : ℕ) → n < 4294967296 → atoi (to_string n) ≡ n
unfolding to_string
atoi-to_string n h =
    atoi_digits (digits (suc n) n) (starts-digits (suc n) n (omega arith))
    ∙ ap (λ m. m % modulus) (read_digits_all n)
    ∙ omega (arith, h)

stoi_digits :
    (s : Bytes)
    → starts_with_digit s ≡ true
    → read_digits 0 s < 2147483648
    → stoi s ≡ some (read_digits 0 s)
unfolding stoi
stoi_digits [] h l = absurd (cc)
stoi_digits (c ∷ s) h l = ground (arith, h, l)

-- A number of 31 bits that is written in decimal is read back.
pub stoi-to_string : (n : ℕ) → n < 2147483648 → stoi (to_string n) ≡ some n
unfolding to_string
stoi-to_string n h =
    stoi_digits (digits (suc n) n) (starts-digits (suc n) n (omega arith))
      (omega (arith, read_digits_all n, h))
    ∙ ap some (read_digits_all n)
