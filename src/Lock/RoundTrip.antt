-- ===== src/Lock/RoundTrip.antt =====
-- daemon/src/lock.ts: what `lockText` writes is read back by `readLockHolder`.
use claude_persist.LogStore.{is_space}
use claude_persist.Limits.{trim_start, trim_end, trim}
use claude_persist.Texts.{Text, is_empty, is_digit, pieces, words_of}
use mathlib.Core.Path.{subst}
use mathlib.Core.List.{append_assoc}
use claude_persist.Lock.{
  digits, print_number, read_digits, is_numeral, number, read_lock, read_lock_holder, lock_text,
}
use claude_persist.Prelude.{
  ℕ, zero, suc, ◌+◌, ◌/◌, ◌%◌, ◌≤◌, ◌<◌, true, false, Option, none, some, [], ◌∷◌, ◌++◌, all, ◌≡◌,
  refl, ap, ◌∙◌, arith, if◌then◌else◌, All,
}

read_digits-digits :
    (fuel n : ℕ) (out : Text) → n ≤ fuel → read_digits 0 (digits fuel n out) ≡ read_digits n out
unfolding digits read_digits
read_digits-digits zero n out h = ground arith
read_digits-digits (suc fuel) n out h =
    ground (arith, read_digits-digits fuel (n / 10) ((b'0' + n % 10) ∷ out))

all-digits :
    (fuel n : ℕ) (out : Text) → all is_digit out ≡ true → all is_digit (digits fuel n out) ≡ true
unfolding digits is_digit
all-digits zero n out h = h
all-digits (suc fuel) n out h = ground (arith, all-digits fuel (n / 10) ((b'0' + n % 10) ∷ out))

digits-is_empty :
    (fuel n : ℕ) (out : Text) → is_empty out ≡ false → is_empty (digits fuel n out) ≡ false
unfolding digits
digits-is_empty zero n out h = h
digits-is_empty (suc fuel) n out h =
    ground (arith, digits-is_empty fuel (n / 10) ((b'0' + n % 10) ∷ out))

read_digits-print : (n : ℕ) → read_digits 0 (print_number n) ≡ n
unfolding print_number read_digits
read_digits-print n = ground (arith, read_digits-digits n n [])

all-print : (n : ℕ) → all is_digit (print_number n) ≡ true
unfolding print_number is_digit
all-print n = ground (arith, all-digits n n [])

is_empty-print : (n : ℕ) → is_empty (print_number n) ≡ false
unfolding print_number digits
is_empty-print zero = refl
is_empty-print (suc n) = ground (arith, digits-is_empty n (suc n / 10) ((b'0' + suc n % 10) ∷ []))

is_numeral-print : (n : ℕ) → is_numeral (print_number n) ≡ true
unfolding is_numeral
is_numeral-print n = rw (is_empty-print n, all-print n)

numeral_parts : (t : Text) → is_numeral t ≡ true → (is_empty t ≡ false) × (all is_digit t ≡ true)
unfolding is_numeral
numeral_parts [] h = ground arith
numeral_parts (c ∷ t) h = ground arith

number-print :
    (other_number : Text → Option ℕ) (n : ℕ) → 0 < n → number other_number (print_number n) ≡ some n
unfolding number
number-print other_number n h = rw (is_numeral-print n, read_digits-print n) (ground arith)

-- No white space.
abbrev IsSolid : Text → Type 0
IsSolid = All (λ c. is_space c ≡ false)

digit-is_space : (c : ℕ) → is_digit c ≡ true → is_space c ≡ false
unfolding is_digit is_space
digit-is_space c h = ground arith

numeral-IsSolid : (t : Text) → all is_digit t ≡ true → IsSolid t
numeral-IsSolid [] h = tt
numeral-IsSolid (c ∷ t) h = ground (arith, digit-is_space c, numeral-IsSolid t)

cons_kept :
    (c : ℕ) (t : Text)
    → is_empty t ≡ false
    → (elim t [ [] ↦ if is_space c then [] else c ∷ [] | d ∷ ds ↦ c ∷ d ∷ ds ]) ≡ c ∷ t
cons_kept c [] h = ground arith
cons_kept c (d ∷ t) h = refl

trim_end_step :
    (c : ℕ) (t u : Text) → trim_end t ≡ u → is_empty u ≡ false → trim_end (c ∷ t) ≡ c ∷ u
unfolding trim_end
trim_end_step c t u e h = ap_elim ∙ cons_kept c u h
  where
    ap_elim :
        trim_end (c ∷ t) ≡ elim u [ [] ↦ if is_space c then [] else c ∷ [] | d ∷ ds ↦ c ∷ d ∷ ds ]
    ap_elim = ap (λ v. elim v [ [] ↦ if is_space c then [] else c ∷ [] | d ∷ ds ↦ c ∷ d ∷ ds ]) e

trim_end-solid : (t : Text) → IsSolid t → trim_end t ≡ t
trim_end-solid [] h = unfold trim_end in refl
trim_end-solid (c ∷ []) h = unfold trim_end in (rw (h.0) refl)
trim_end-solid (c ∷ d ∷ t) h = trim_end_step c (d ∷ t) (d ∷ t) (trim_end-solid (d ∷ t) h.1) refl

append-is_empty : (s t : Text) → is_empty t ≡ false → is_empty (s ++ t) ≡ false
append-is_empty [] t h = h
append-is_empty (c ∷ s) t h = refl

trim_end-append : (s t : Text) → IsSolid t → is_empty t ≡ false → trim_end (s ++ t) ≡ s ++ t
trim_end-append [] t h k = trim_end-solid t h
trim_end-append (c ∷ s) t h k =
    trim_end_step c (s ++ t) (s ++ t) (trim_end-append s t h k) (append-is_empty s t k)

trim-append :
    (s t : Text)
    → IsSolid s
    → IsSolid t
    → is_empty s ≡ false
    → is_empty t ≡ false
    → trim (s ++ b' ' ∷ t) ≡ s ++ b' ' ∷ t
unfolding trim trim_start
trim-append [] t hs ht ks kt = ground arith
trim-append (c ∷ s) t hs ht ks kt = rw (hs.0) (
    subst (λ u. trim_end (c ∷ u) ≡ c ∷ u) (append_assoc s (b' ' ∷ []) t)
      (trim_end-append (c ∷ (s ++ b' ' ∷ [])) t ht kt))

trim-solid : (t : Text) → IsSolid t → trim t ≡ t
unfolding trim trim_start
trim-solid [] h = trim_end-solid [] tt
trim-solid (c ∷ t) h = rw (h.0) (trim_end-solid (c ∷ t) h)

pieces-solid : (t : Text) → IsSolid t → pieces is_space t ≡ t ∷ []
unfolding pieces
pieces-solid [] h = refl
pieces-solid (c ∷ t) h = rw (h.0, pieces-solid t h.1)

pieces-append : (s t : Text) → IsSolid s → pieces is_space (s ++ b' ' ∷ t) ≡ s ∷ pieces is_space t
unfolding pieces
pieces-append [] t h = unfold is_space in refl
pieces-append (c ∷ s) t h = rw (h.0, pieces-append s t h.1)

words_of-solid : (t : Text) → IsSolid t → is_empty t ≡ false → words_of is_space t ≡ t ∷ []
unfolding words_of
words_of-solid [] h k = ground arith
words_of-solid (c ∷ t) h k = rw (pieces-solid (c ∷ t) h)

words_of-append :
    (s t : Text)
    → IsSolid s
    → IsSolid t
    → is_empty s ≡ false
    → is_empty t ≡ false
    → words_of is_space (s ++ b' ' ∷ t) ≡ s ∷ t ∷ []
unfolding words_of
words_of-append [] t hs ht ks kt = ground arith
words_of-append (c ∷ s) [] hs ht ks kt = ground arith
words_of-append (c ∷ s) (d ∷ t) hs ht ks kt =
    rw (pieces-append (c ∷ s) (d ∷ t) hs, pieces-solid (d ∷ t) ht)

-- The start time of a process is a numeral, where it has one.
abbrev pub IsStart : Option Text → Type 0
IsStart none = Unit
IsStart (some started) = is_numeral started ≡ true

-- What `lockText` writes names the process and its start time to whoever reads it.
pub read_lock_holder-lock_text :
    (other_number : Text → Option ℕ) (pid : ℕ) (started : Option Text)
    → 0 < pid
    → IsStart started
    → read_lock_holder other_number (some (lock_text pid started))
      ≡ some (record { pid = pid; started_at = started })
unfolding read_lock_holder read_lock lock_text
read_lock_holder-lock_text other_number pid none h k =
    let solid = numeral-IsSolid (print_number pid) (all-print pid) in
    rw (
      trim-solid (print_number pid) solid,
      words_of-solid (print_number pid) solid (is_empty-print pid),
      number-print other_number pid h,
    )
read_lock_holder-lock_text other_number pid (some started) h k =
    let (full, all) = numeral_parts started k in
    let name = numeral-IsSolid (print_number pid) (all-print pid) in
    let time = numeral-IsSolid started all in
    rw (
      trim-append (print_number pid) started name time (is_empty-print pid) full,
      words_of-append (print_number pid) started name time (is_empty-print pid) full,
      number-print other_number pid h,
      k,
    )
