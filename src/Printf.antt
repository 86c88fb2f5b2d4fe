-- ===== src/Printf.antt =====
-- The formatter that does not allocate, sources/src/common/printf_nomalloc.c. The buffer is a
-- function from the position to the character, and characters are their codes. The variable
-- arguments are 64-bit words; `strings p` is the characters at `p`. Writing the result to a file is
-- left out.
pub mod Format
pub mod Digits
pub mod Pad
pub mod Tests
use dangless_malloc.Prelude.{
  ℕ, zero, suc, ◌+◌, ◌-◌, ◌*◌, ◌/◌, ◌%◌, ◌^◌, Bool, true, false, not, ◌&&◌, ◌||◌, Option, none,
  some, List, [], ◌∷◌, ltb, leb, ◌==◌, if◌then◌else◌, ℤ, pos, negsuc, Cmd, ok, fault, pure, assert,
  get, ◌>>=◌, ◌>>◌,
}

pub record Printer : Type 0 where
  pub buffer : ℕ → ℕ
  pub args : List ℕ

-- `*dest = c`
unfoldable pub put_char : ℕ → ℕ → Cmd Printer (Unit {0})
put_char dest c s = ok tt (record s { buffer = λ i. if i == dest then c else s.buffer i })

-- `print_str`
unfoldable pub print_str : ℕ → List ℕ → Cmd Printer ℕ
unfolding put_char
print_str dest [] = pure 0
print_str dest (c ∷ cs) = do put_char dest c; n ← print_str (dest + 1) cs; pure (n + 1)

-- `"0123456789ABCDEF"[d]`
abbrev pub digit_char : ℕ → ℕ
digit_char d = if ltb d 10 then 48 + d else 55 + d

-- The first loop of `print_uint`: the position behind the number. The fuel bounds the digits.
unfoldable pub skip_digits : ℕ → ℕ → ℕ → ℕ → ℕ
skip_digits zero dest i base = dest + 1
skip_digits (suc fuel) dest i base =
    if ltb 0 (i / base) then skip_digits fuel (dest + 1) (i / base) base else dest + 1

-- The second loop: the digits from the last on, in front of `dest`; the number of them is returned.
unfoldable pub write_digits : ℕ → ℕ → ℕ → ℕ → ℕ → Cmd Printer ℕ
unfolding put_char
write_digits zero dest num base nchars = do
  put_char (dest - 1) (digit_char (num % base))
  pure (nchars + 1)
write_digits (suc fuel) dest num base nchars = do
  put_char (dest - 1) (digit_char (num % base))
  (if ltb 0 (num / base)
      then write_digits fuel (dest - 1) (num / base) base (nchars + 1)
      else pure (nchars + 1))

-- Both loops.
unfoldable pub print_number : ℕ → ℕ → ℕ → ℕ → ℕ → Cmd Printer ℕ
unfolding skip_digits write_digits
print_number fuel dest num base nchars =
    write_digits fuel (skip_digits fuel dest num base) num base nchars

-- `print_uint`: 64 digits are enough for 64 bits in any base.
unfoldable pub print_uint : ℕ → ℕ → ℕ → Cmd Printer ℕ
unfolding print_number
print_uint dest num base = print_number 64 dest num base 0

-- `print_int`; LLONG_MIN fails an assertion.
unfoldable pub print_int : ℕ → ℤ → ℕ → Cmd Printer ℕ
unfolding print_number put_char
print_int dest (pos num) base = print_number 64 dest num base 0
print_int dest (negsuc k) base = do
  assert (not (k + 1 == 2 ^ 63))
  (if base == 10
      then (do put_char dest 45; print_number 64 (dest + 1) (k + 1) base 1)
      else print_number 64 dest (k + 1) base 0)

-- `struct format_modifiers`; the width is none for MIN_FIELD_WIDTH_CUSTOM.
pub record FormatModifiers : Type 0 where
  pub longness : ℕ
  pub min_field_width : Option ℕ
  pub justify_left : Bool
  pub padding_char : ℕ

-- FORMAT_MODIFIERS_INIT
abbrev pub format_modifiers_init : FormatModifiers
format_modifiers_init = record {
  longness = 0;
  min_field_width = some 0;
  justify_left = false;
  padding_char = 32;
}

-- The next variable argument, a word. Reading behind the last is undefined, and stops here.
unfoldable pub next_arg : Cmd Printer ℕ
next_arg s = elim s.args [ [] ↦ fault | a ∷ rest ↦ ok a (record s { args = rest }) ]

-- A word of `w` bits as a signed number.
abbrev pub signed : ℕ → ℕ → ℤ
signed w a =
    if ltb (a % 2 ^ w) (2 ^ (w - 1)) then pos (a % 2 ^ w) else negsuc (2 ^ w - a % 2 ^ w - 1)

-- `fetch_int_arg`
unfoldable pub fetch_int_arg : FormatModifiers → Cmd Printer ℤ
unfolding next_arg
fetch_int_arg modifiers = do
  a ← next_arg
  pure (if modifiers.longness == 2 || modifiers.longness == 1 then signed 64 a else signed 32 a)

-- `fetch_uint_arg`
unfoldable pub fetch_uint_arg : FormatModifiers → Cmd Printer ℕ
unfolding next_arg
fetch_uint_arg modifiers = do
  a ← next_arg
  pure (if modifiers.longness == 2 || modifiers.longness == 1 then a % 2 ^ 64 else a % 2 ^ 32)

-- `for (i = 0; i < n; i++) *dest++ = c`
unfoldable pub fill : ℕ → ℕ → ℕ → Cmd Printer (Unit {0})
unfolding put_char
fill zero dest c = pure tt
fill (suc n) dest c = do put_char dest c; fill n (dest + 1) c

-- `n` characters of another buffer from `from` on, by `memcpy` to `dest`.
unfoldable pub copy_from : (ℕ → ℕ) → ℕ → ℕ → ℕ → Cmd Printer (Unit {0})
unfolding put_char
copy_from source from dest zero = pure tt
copy_from source from dest (suc n) = do
  put_char dest (source from)
  copy_from source (from + 1) (dest + 1) n

-- The end of `handle_format`: the characters from `original_dest` on are padded to the width.
unfoldable pub pad : ℕ → ℕ → ℕ → FormatModifiers → Cmd Printer ℕ
unfolding fill copy_from
pad original_dest unpadded_len width modifiers =
    if ltb unpadded_len width
    then (do
      s ← get
      (if modifiers.justify_left
          then fill (width - unpadded_len) (original_dest + unpadded_len) 32
          else (do
            fill (width - unpadded_len) original_dest modifiers.padding_char
            copy_from s.buffer original_dest (original_dest + (width - unpadded_len)) unpadded_len))
      pure width)
    else pure unpadded_len

-- The width, read from the arguments for "*"; a negative one fails an assertion.
unfoldable pub field_width : FormatModifiers → Cmd Printer ℕ
unfolding next_arg
field_width modifiers = elim modifiers.min_field_width [
  | some width ↦ pure width
  | none ↦ do a ← next_arg; (elim (signed 32 a) [ pos width ↦ pure width | negsuc k ↦ λ s. fault ])
]

-- "0x", "(null ptr)" and "(null str)"
abbrev pub hex_prefix : List ℕ
hex_prefix = 48 ∷ 120 ∷ []

abbrev pub null_ptr : List ℕ
null_ptr = 40 ∷ 110 ∷ 117 ∷ 108 ∷ 108 ∷ 32 ∷ 112 ∷ 116 ∷ 114 ∷ 41 ∷ []

abbrev pub null_str : List ℕ
null_str = 40 ∷ 110 ∷ 117 ∷ 108 ∷ 108 ∷ 32 ∷ 115 ∷ 116 ∷ 114 ∷ 41 ∷ []

module _ (strings : ℕ → List ℕ) where
  -- The switch of `handle_format`: the number of characters written.
  unfoldable pub convert : ℕ → ℕ → FormatModifiers → Cmd Printer ℕ
  unfolding put_char print_str print_uint print_int fetch_int_arg fetch_uint_arg next_arg
  convert dest specifier modifiers =
      if specifier == 100 || specifier == 105
      then (do num ← fetch_int_arg modifiers; print_int dest num 10)
      else if specifier == 117
      then (do num ← fetch_uint_arg modifiers; print_uint dest num 10)
      else if specifier == 120 || specifier == 88
      then (do num ← fetch_uint_arg modifiers; print_uint dest num 16)
      else if specifier == 112
      then (do
        p ← next_arg
        (if p == 0 then print_str dest null_ptr else (do
          n ← print_str dest hex_prefix
          n' ← print_uint (dest + n) p 16
          pure (n + n'))))
      else if specifier == 99
      then (do c ← next_arg; put_char dest (c % 256); pure 1)
      else if specifier == 115
      then (do p ← next_arg; print_str dest (if p == 0 then null_str else strings p))
      else if specifier == 37
      then (do put_char dest 37; pure 1)
      else (λ s. fault)

  -- `handle_format`
  unfoldable pub handle_format : ℕ → ℕ → FormatModifiers → Cmd Printer ℕ
  unfolding field_width convert pad
  handle_format dest specifier modifiers = do
    width ← field_width modifiers
    unpadded_len ← convert dest specifier modifiers
    pad dest unpadded_len width modifiers
