-- ===== src/Base/Strings.antt =====
-- C strings as lists of their bytes, without the closing NUL, and the calls that the sources make
-- on them: `strcmp`, `strncmp`, indexing, and `snprintf` with "%s/%s" (FORMAT_PATH).
use Prim.Native.Char.{code}
use Prim.Native.Nat.{ℕ, zero, suc, ◌+◌, ◌-◌, ◌≤◌, ◌<◌}
use Prim.Native.String.{String}
use mathlib.Core.Path.{◌≡◌, refl, ap}
use mathlib.Core.Logic.{◌↔◌}
use mathlib.Core.Bool.{Bool, true, false, ◌&&◌}
use mathlib.Core.List.{List, [], ◌∷◌, ◌++◌}
use native.Mathlib.Omega.{arith}
use argusd.Base.Tests.{◌==◌}
use argusd.Base.Lists.{length, take, drop, length-append}

abbrev pub Text : Type 0
Text = List ℕ

-- The bytes of an ASCII literal.
abbrev pub text : String → Text
text String.[] = []
text (String.◌∷◌ c s) = code c ∷ text s

-- `strcmp(a, b) == 0`
unfoldable pub str_eq : Text → Text → Bool
str_eq [] [] = true
str_eq [] (y ∷ b) = false
str_eq (x ∷ a) [] = false
str_eq (x ∷ a) (y ∷ b) = (x == y) && str_eq a b

-- `strncmp(a, b, n) == 0`
unfoldable pub strn_eq : ℕ → Text → Text → Bool
strn_eq zero a b = true
strn_eq (suc n) [] [] = true
strn_eq (suc n) [] (y ∷ b) = false
strn_eq (suc n) (x ∷ a) [] = false
strn_eq (suc n) (x ∷ a) (y ∷ b) = (x == y) && strn_eq n a b

-- `s[i]`, the closing NUL included.
unfoldable pub char_at : Text → ℕ → ℕ
char_at [] i = 0
char_at (x ∷ s) zero = x
char_at (x ∷ s) (suc i) = char_at s i

-- `snprintf(fp, size, "%s/%s", dir, file)` keeps `size - 1` bytes.
unfoldable pub format_path : ℕ → Text → Text → Text
format_path size dir file = take (size - 1) (dir ++ (b'/' ∷ file))

take_all : (n : ℕ) (s : Text) → length s ≤ n → take n s ≡ s
take_all zero [] h = refl
take_all zero (x ∷ s) h = absurd (omega arith)
take_all (suc n) [] h = refl
take_all (suc n) (x ∷ s) h = ap (λ r. x ∷ r) (take_all n s (omega arith))

pub format_path_fits :
    (size : ℕ) (dir file : Text)
    → length dir + length file + 1 < size
    → format_path size dir file ≡ dir ++ (b'/' ∷ file)
unfolding format_path
format_path_fits size dir file h =
    take_all (size - 1) _ (omega (arith, length-append dir (b'/' ∷ file)))

pub str_eq_refl : (a : Text) → str_eq a a ≡ true
unfolding str_eq
str_eq_refl [] = refl
str_eq_refl (x ∷ a) = ground (arith, str_eq_refl a)

pub str_eq→eq : (a b : Text) → str_eq a b ≡ true → a ≡ b
unfolding str_eq
str_eq→eq [] [] h = refl
str_eq→eq [] (y ∷ b) h = cc
str_eq→eq (x ∷ a) [] h = cc
str_eq→eq (x ∷ a) (y ∷ b) h = ground (arith, str_eq→eq a b)

pub str_eq_iff : (a b : Text) → (str_eq a b ≡ true) ↔ (a ≡ b)
str_eq_iff a b = (str_eq→eq a b, λ e. rw e (str_eq_refl b))

-- The comparison up to the length of `a` says that `a` is a prefix.
pub strn_eq-prefix : (a s : Text) → strn_eq (length a) a s ≡ true → s ≡ a ++ drop (length a) s
unfolding strn_eq
strn_eq-prefix [] s h = refl
strn_eq-prefix (x ∷ a) [] h = cc
strn_eq-prefix (x ∷ a) (y ∷ s) h = ground (arith, strn_eq-prefix a s)

pub strn_eq-append : (a s : Text) → strn_eq (length a) a (a ++ s) ≡ true
unfolding strn_eq
strn_eq-append [] s = refl
strn_eq-append (x ∷ a) s = ground (arith, strn_eq-append a s)

pub char_at-append : (a s : Text) → char_at (a ++ s) (length a) ≡ char_at s 0
unfolding char_at
char_at-append [] s = refl
char_at-append (x ∷ a) s = char_at-append a s

pub drop-append : (a s : Text) → drop (length a) (a ++ s) ≡ s
drop-append [] s = refl
drop-append (x ∷ a) s = drop-append a s
