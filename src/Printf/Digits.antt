-- ===== src/Printf/Digits.antt =====
-- The digits that print_uint writes are those of the number.
use dangless_malloc.Prelude.{
  ℕ, zero, suc, ◌+◌, ◌-◌, ◌*◌, ◌/◌, ◌%◌, ◌^◌, ◌≤◌, ◌<◌, ◌≡◌, ◌≢◌, refl, sym, ap, ap₂, ◌∙◌, ◌⊎◌, inl,
  inr, false, ltb, ◌==◌, if◌then◌else◌, arith, Bool-cases, ne→==, eq→==, ok,
}
use native.Mathlib.Numerals.{unary_clauses}
use dangless_malloc.Printf.{
  Printer, put_char, digit_char, skip_digits, write_digits, print_number, print_uint,
}

-- The value of a digit.
abbrev pub digit_value : ℕ → ℕ
digit_value c = if ltb c 58 then c - 48 else c - 55

-- The number that the `n` characters from `dest` on show in a base.
abbrev pub shown : ℕ → (ℕ → ℕ) → ℕ → ℕ → ℕ
shown base buffer dest zero = 0
shown base buffer dest (suc n) = shown base buffer dest n * base + digit_value (buffer (dest + n))

-- The bases that the formatter uses.
abbrev pub IsBase : ℕ → Type 0
IsBase base = (base ≡ 10) ⊎ (base ≡ 16)

recompose : (base num : ℕ) → IsBase base → num / base * base + num % base ≡ num
recompose base num (inl ten) = rw ten (omega arith)
recompose base num (inr sixteen) = rw sixteen (omega arith)

digit_value_lem : (base num : ℕ) → IsBase base → digit_value (digit_char (num % base)) ≡ num % base
digit_value_lem base num (inl ten) = rw ten (ground arith)
digit_value_lem base num (inr sixteen) = rw sixteen (ground arith)

-- With `fuel`, the number of digits of `num`.
abbrev num_digits : ℕ → ℕ → ℕ → ℕ
num_digits zero base num = 1
num_digits (suc fuel) base num =
    if ltb 0 (num / base) then suc (num_digits fuel base (num / base)) else 1

skip_digits_lem :
    (fuel dest num base : ℕ) → skip_digits fuel dest num base ≡ dest + num_digits fuel base num
unfolding skip_digits
skip_digits_lem zero dest num base = refl
skip_digits_lem (suc fuel) dest num base = elim (Bool-cases (ltb 0 (num / base))) [
  | inl more ↦
      rw (more, skip_digits) (skip_digits_lem fuel (dest + 1) (num / base) base ∙ omega arith)
  | inr last ↦ rw (last, skip_digits) refl
]

-- The characters in front of `dest + n` decide what is shown there.
shown_eq :
    (base : ℕ) (b b' : ℕ → ℕ) (dest n : ℕ)
    → ((i : ℕ) → dest ≤ i → i < dest + n → b' i ≡ b i)
    → shown base b' dest n ≡ shown base b dest n
shown_eq base b b' dest zero h = refl
shown_eq base b b' dest (suc n) h =
    ap₂ (λ x c. x * base + digit_value c)
      (shown_eq base b b' dest n (λ i low high. h i low (omega arith)))
      (h (dest + n) (omega arith) (omega arith))

-- From `b` to `b'`, the `n` characters from `dest` on have become the digits of `num`.
pub record Printed (base num dest n : ℕ) (b b' : ℕ → ℕ) : Type 0 where
  pub some_digits : 0 < n
  pub value : shown base b' dest n ≡ num
  pub others : (i : ℕ) → (i < dest) ⊎ (dest + n ≤ i) → b' i ≡ b i

-- The fuel is enough for the digits.
abbrev pub Fits : ℕ → ℕ → ℕ → Type 0
Fits zero base num = num < base
Fits (suc fuel) base num = Fits fuel base (num / base)

Fits-small : (fuel base num : ℕ) → IsBase base → num < 2 ^ (fuel + 1) → Fits fuel base num
Fits-small zero base num (inl ten) h = omega (arith, ten)
Fits-small zero base num (inr sixteen) h = omega (arith, sixteen)
Fits-small (suc fuel) base num (inl ten) h =
    let half : 2 ^ (suc fuel + 1) ≡ 2 ^ (fuel + 1) * 2 = simp unary_clauses refl in
    Fits-small fuel base (num / base) (inl ten) (rw ten (omega arith))
Fits-small (suc fuel) base num (inr sixteen) h =
    let half : 2 ^ (suc fuel + 1) ≡ 2 ^ (fuel + 1) * 2 = simp unary_clauses refl in
    Fits-small fuel base (num / base) (inr sixteen) (rw sixteen (omega arith))

-- A store in front of the last digit, as a function.
abbrev stored : ℕ → ℕ → (ℕ → ℕ) → ℕ → ℕ
stored dest c b i = if i == dest then c else b i

stored_other : (dest c : ℕ) (b : ℕ → ℕ) (i : ℕ) → i ≢ dest → stored dest c b i ≡ b i
stored_other dest c b i ne = rw (ne→== _ _ ne) refl

stored_here : (dest c : ℕ) (b : ℕ → ℕ) → stored dest c b dest ≡ c
stored_here dest c b = rw (eq→== dest dest refl) refl

module _ (base : ℕ) (is_base : IsBase base) where
  small_mod : (num : ℕ) → num < base → num % base ≡ num
  small_mod num h = elim is_base [
    | inl ten ↦ rw ten (omega (arith, ten))
    | inr sixteen ↦ rw sixteen (omega (arith, sixteen))
  ]

  small_last : (num : ℕ) → ltb 0 (num / base) ≡ false → num < base
  small_last num h =
      let zero_left : num / base ≡ 0 = ground arith in
      elim is_base [
        | inl ten ↦ omega (arith, ten, ap (λ x. num / x) (sym ten) ∙ zero_left)
        | inr sixteen ↦ omega (arith, sixteen, ap (λ x. num / x) (sym sixteen) ∙ zero_left)
      ]

  -- The only digit.
  Printed-one :
      (num dest : ℕ) (b : ℕ → ℕ)
      → num < base
      → Printed base num dest 1 b (stored dest (digit_char (num % base)) b)
  Printed-one num dest b h = record {
    some_digits = omega arith;
    value =
        let at : dest + 0 ≡ dest = omega arith in
        omega arith
        ∙ ap digit_value (ap (stored dest (digit_char (num % base)) b) at ∙ stored_here dest _ b)
        ∙ digit_value_lem base num is_base
        ∙ small_mod num h;
    others = λ i out. stored_other dest _ b i (ground arith);
  }

  -- A digit behind those of the quotient.
  Printed-more :
      (num dest n : ℕ) (b b' : ℕ → ℕ)
      → Printed base (num / base) dest n (stored (dest + n) (digit_char (num % base)) b) b'
      → Printed base num dest (suc n) b b'
  Printed-more num dest n b b' p = record {
    some_digits = omega arith;
    value =
        let last : b' (dest + n) ≡ digit_char (num % base) =
          p.others (dest + n) (inr (omega arith)) ∙ stored_here (dest + n) _ b in
        ap₂ (λ x c. x * base + digit_value c) p.value last
        ∙ ap (λ x. num / base * base + x) (digit_value_lem base num is_base)
        ∙ recompose base num is_base;
    others = λ i out. p.others i (ground arith) ∙ stored_other (dest + n) _ b i (ground arith);
  }

  write_digits-Printed :
      (fuel num dest nchars : ℕ) (s : Printer)
      → Fits fuel base num
      → (b' : ℕ → ℕ) × (write_digits fuel (dest + num_digits fuel base num) num base nchars s
          ≡ ok (nchars + num_digits fuel base num) (record s { buffer = b' }))
        × Printed base num dest (num_digits fuel base num) s.buffer b'
  unfolding write_digits put_char
  write_digits-Printed zero num dest nchars s fits =
      let at : dest + 1 - 1 ≡ dest = omega arith in
      (_, rw at refl, Printed-one num dest s.buffer fits)
  write_digits-Printed (suc fuel) num dest nchars s fits = elim (Bool-cases (ltb 0 (num / base))) [
    | inr last ↦
        let at : dest + 1 - 1 ≡ dest = omega arith in
        (
          stored dest (digit_char (num % base)) s.buffer,
          rw (last, write_digits) (rw at refl),
          rw last (Printed-one num dest s.buffer (small_last num last)),
        )
    | inl more ↦
        let n : ℕ = num_digits fuel base (num / base) in
        let at : dest + suc n - 1 ≡ dest + n = omega arith in
        let (b', run, p) =
          write_digits-Printed fuel (num / base) dest (nchars + 1)
            (record s { buffer = stored (dest + n) (digit_char (num % base)) s.buffer }) fits in
        let count : nchars + 1 + n ≡ nchars + suc n = omega arith in
        (
          b',
          rw (more, write_digits)
              (rw (at, run, write_digits) (ap (λ x. ok x (record s { buffer = b' })) count)),
          rw more (Printed-more num dest n s.buffer b' p),
        )
  ]

  pub print_number-Printed :
      (fuel num dest nchars : ℕ) (s : Printer)
      → num < 2 ^ (fuel + 1)
      → (n : ℕ) × (b' : ℕ → ℕ) × (print_number fuel dest num base nchars s
          ≡ ok (nchars + n) (record s { buffer = b' }))
        × Printed base num dest n s.buffer b'
  unfolding print_number
  print_number-Printed fuel num dest nchars s h =
      let (b', run, p) =
        write_digits-Printed fuel num dest nchars s (Fits-small fuel base num is_base h) in
      (num_digits fuel base num, b', rw (skip_digits_lem fuel dest num base) run, p)

  -- For base 10 or 16 and a number below 2^64, print_uint at dest returns the count n > 0 of
  -- the characters it wrote: read as digits of the base, the n characters from dest on are the
  -- number again, and no other place of the buffer has changed.
  pub print_uint-Printed :
      (num dest : ℕ) (s : Printer)
      → num < 2 ^ 64
      → (n : ℕ) × (b' : ℕ → ℕ) × (print_uint dest num base s ≡ ok n (record s { buffer = b' }))
        × Printed base num dest n s.buffer b'
  unfolding print_uint
  print_uint-Printed num dest s h =
      let (n, b', run, p) = print_number-Printed 64 num dest 0 s (omega arith) in
      let count : 0 + n ≡ n = omega arith in
      (n, b', run ∙ ap (λ x. ok x (record s { buffer = b' })) count, p)
