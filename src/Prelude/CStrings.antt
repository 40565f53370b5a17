-- ===== src/Prelude/CStrings.antt =====
-- C strings as lists of byte values without the closing NUL, and the calls of the C library that
-- the sources make on them.
use Prim.Native.Nat.{ℕ, ◌-◌, ◌+◌, ◌≤◌}
use Prim.Native.Char.{code}
use Prim.Native.String.{String}
use mathlib.Core.Path.{◌≡◌, refl}
use mathlib.Core.Logic.{◌↔◌}
use mathlib.Core.Bool.{Bool, true, false, ◌&&◌, ◌||◌}
use mathlib.Core.List.{List, [], ◌∷◌, ◌++◌}
use native.Mathlib.Omega.{arith}
use entservices_devicesettin.Prelude.Tests.{◌==◌}
use entservices_devicesettin.Prelude.Lists.{length, take, length-append, length-take-le}

abbrev pub Bytes : Type 0
Bytes = List ℕ

abbrev pub codes : String → Bytes
codes String.[] = []
codes (String.◌∷◌ c s) = code c ∷ codes s

-- strcmp(s, t) == 0
unfoldable pub str_eq : Bytes → Bytes → Bool
str_eq [] [] = true
str_eq [] (b ∷ t) = false
str_eq (a ∷ s) [] = false
str_eq (a ∷ s) (b ∷ t) = a == b && str_eq s t

-- strncmp(t, p, strlen(p)) == 0
unfoldable pub has_prefix : Bytes → Bytes → Bool
has_prefix [] t = true
has_prefix (a ∷ p) [] = false
has_prefix (a ∷ p) (b ∷ t) = a == b && has_prefix p t

-- strstr(s, p) != NULL
unfoldable pub strstr : Bytes → Bytes → Bool
unfolding has_prefix
strstr [] p = has_prefix p []
strstr (a ∷ s) p = has_prefix p (a ∷ s) || strstr s p

-- strchr(s, c) != NULL
unfoldable pub strchr : Bytes → ℕ → Bool
strchr [] c = false
strchr (a ∷ s) c = a == c || strchr s c

-- snprintf(s + len, size - len, "%s", t), where s has length len
unfoldable pub append_within : ℕ → Bytes → Bytes → Bytes
append_within size s t = s ++ take (size - length s - 1) t

pub str_eq_iff : (s t : Bytes) → (str_eq s t ≡ true) ↔ (s ≡ t)
unfolding str_eq
str_eq_iff [] [] = (λ h. refl, λ h. refl)
str_eq_iff [] (b ∷ t) = (λ h. cc, λ h. cc)
str_eq_iff (a ∷ s) [] = (λ h. cc, λ h. cc)
str_eq_iff (a ∷ s) (b ∷ t) =
    (λ h. ground (arith, str_eq_iff s t), λ h. ground (arith, str_eq_iff s t))

pub str_eq_self : (s : Bytes) → str_eq s s ≡ true
str_eq_self s = (str_eq_iff s s).1 refl

pub length-append_within-lt :
    (size : ℕ) (s t : Bytes) → length s + 1 ≤ size → length (append_within size s t) + 1 ≤ size
unfolding append_within
length-append_within-lt size s t h =
    omega (
      arith,
      length-append s (take (size - length s - 1) t),
      length-take-le (size - length s - 1) t,
    )
