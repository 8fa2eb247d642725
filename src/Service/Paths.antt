-- ===== src/Service/Paths.antt =====
-- The paths of a watcher lead through /proc/[pid]/root, and the log shows them without it.
use argusd.Base.{
  ℕ, zero, suc, ◌+◌, ◌/◌, ◌%◌, ◌≤◌, ◌≡◌, refl, ap, ◌∙◌, pos, true, none, some, [], ◌∷◌, ◌++◌, Text,
  text, length, length-append, arith,
}
use argusd.Service.Subject.{digits_from, decimal, root_path}
use argusd.Service.Log.{
  strip_prefix, is_digit, skip_digits, match_pid, match_root, strip_roots, shown_path,
}

abbrev AllDigits : Text → Type 0
AllDigits [] = Unit {0}
AllDigits (c ∷ s) = (is_digit c ≡ true) × AllDigits s

-- One digit or more.
abbrev IsNumber : Text → Type 0
IsNumber [] = ⊥
IsNumber (c ∷ s) = (is_digit c ≡ true) × AllDigits s

digit-is_digit : (n : ℕ) → is_digit (48 + n % 10) ≡ true
digit-is_digit n = ground arith

digits_from-IsNumber : (fuel n : ℕ) (acc : Text) → IsNumber acc → IsNumber (digits_from fuel n acc)
unfolding digits_from
digits_from-IsNumber zero n acc h = h
digits_from-IsNumber (suc fuel) n [] h = absurd h
digits_from-IsNumber (suc fuel) n (c ∷ acc) h =
    elim (n / 10)
      as (λ q. IsNumber (elim q [
        | zero ↦ (48 + n % 10) ∷ (c ∷ acc)
        | suc r ↦ digits_from fuel (n / 10) ((48 + n % 10) ∷ (c ∷ acc))
      ])) [
        | zero ↦ (digit-is_digit n, h)
        | suc q ↦
            digits_from-IsNumber fuel (n / 10) ((48 + n % 10) ∷ (c ∷ acc)) (digit-is_digit n, h)
      ]

decimal-IsNumber : (n : ℕ) → IsNumber (decimal (pos n))
unfolding decimal digits_from
decimal-IsNumber n =
    elim (n / 10)
      as (λ q. IsNumber (elim q [
        | zero ↦ (48 + n % 10) ∷ []
        | suc r ↦ digits_from n (n / 10) ((48 + n % 10) ∷ [])
      ])) [
        | zero ↦ (digit-is_digit n, tt)
        | suc q ↦ digits_from-IsNumber n (n / 10) ((48 + n % 10) ∷ []) (digit-is_digit n, tt)
      ]

strip_prefix-append : (prefix s : Text) → strip_prefix prefix (prefix ++ s) ≡ some s
unfolding strip_prefix
strip_prefix-append [] s = refl
strip_prefix-append (c ∷ prefix) s = ground (arith, strip_prefix-append prefix s)

skip_digits-append : (ds s : Text) → AllDigits ds → skip_digits (ds ++ (b'/' ∷ s)) ≡ b'/' ∷ s
unfolding skip_digits
skip_digits-append [] s h = refl
skip_digits-append (d ∷ ds) s h = rw h.0 (skip_digits-append ds s h.1)

match_pid-number :
    (number s : Text) → IsNumber number → match_pid (number ++ (text "/root" ++ s)) ≡ some s
unfolding match_pid
match_pid-number [] s h = absurd h
match_pid-number (d ∷ ds) s h =
    rw (h.0, skip_digits-append ds (text "root" ++ s) h.1) (strip_prefix-append (text "/root") s)

match_root-proc :
    (s rest : Text) → strip_prefix (text "/proc/") s ≡ some rest → match_root s ≡ match_pid rest
unfolding match_root
match_root-proc s rest e = rw (e, match_root)

match_root-root_path : (pid : ℕ) (path : Text) → match_root (root_path (pos pid) path) ≡ some path
unfolding root_path
match_root-root_path pid path =
    let rest = decimal (pos pid) ++ (text "/root" ++ path) in
    match_root-proc (text "/proc/" ++ rest) rest (strip_prefix-append (text "/proc/") rest)
    ∙ match_pid-number (decimal (pos pid)) path (decimal-IsNumber pid)

-- The regular expression matches nowhere in the text.
abbrev pub IsPlain : Text → Type 0
IsPlain [] = Unit {0}
IsPlain (c ∷ s) = (match_root (c ∷ s) ≡ none) × IsPlain s

strip_roots-IsPlain : (fuel : ℕ) (s : Text) → length s ≤ fuel → IsPlain s → strip_roots fuel s ≡ s
unfolding strip_roots
strip_roots-IsPlain zero s l h = refl
strip_roots-IsPlain (suc fuel) [] l h = refl
strip_roots-IsPlain (suc fuel) (c ∷ s) l h =
    rw (h.0, strip_roots) (ap (λ r. c ∷ r) (strip_roots-IsPlain fuel s (omega arith) h.1))

strip_roots-match :
    (fuel c : ℕ) (s rest : Text)
    → match_root (c ∷ s) ≡ some rest
    → strip_roots (suc fuel) (c ∷ s) ≡ strip_roots fuel rest
unfolding strip_roots
strip_roots-match fuel c s rest e = rw (e, strip_roots)

-- What the daemon puts in front of a path of a request, the log takes off again: for every process
-- and every path in which /proc/[0-9]+/root does not occur.
pub shown_path-root_path :
    (pid : ℕ) (path : Text) → IsPlain path → shown_path (root_path (pos pid) path) ≡ path
unfolding shown_path root_path
shown_path-root_path pid path h =
    let tail = text "proc/" ++ (decimal (pos pid) ++ (text "/root" ++ path)) in
    strip_roots-match (length tail) b'/' tail path (match_root-root_path pid path)
    ∙ strip_roots-IsPlain (length tail) path
        (omega (arith, length-append (decimal (pos pid)) (text "/root" ++ path))) h
