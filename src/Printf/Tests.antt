-- ===== src/Printf/Tests.antt =====
-- "<%04x>" of 255, and the parts of it.
use dangless_malloc.Prelude.{ℕ, ◌≡◌, refl, inr, arith, some, List, [], ◌∷◌, Run, ok, fault, After}
use dangless_malloc.Printf.{Printer, FormatModifiers, format_modifiers_init, print_uint, pad}
use dangless_malloc.Printf.Format.{do_vsprintf}
use dangless_malloc.Printf.Digits.{Printed, print_uint-Printed}
use dangless_malloc.Printf.Pad.{Padded, pad-Padded}

abbrev blank : Printer
blank = record { buffer = λ i. 0; args = 255 ∷ [] }

abbrev buffer_of : Run Printer ℕ → ℕ → ℕ
buffer_of (ok n s) i = s.buffer i
buffer_of fault i = 0

abbrev length_of : Run Printer ℕ → ℕ
length_of (ok n s) = n
length_of fault = 0

-- "<%04x>"
abbrev format : List ℕ
format = 60 ∷ 37 ∷ 48 ∷ 52 ∷ 120 ∷ 62 ∷ []

abbrev printed : Run Printer ℕ
printed = do_vsprintf (λ p. []) format blank

printed_length : length_of printed ≡ 6
unfolding do_vsprintf
printed_length = refl

-- "0", "0", "F", "F"
printed_first : buffer_of printed 1 ≡ 48
unfolding do_vsprintf
printed_first = refl

printed_last : buffer_of printed 4 ≡ 70
unfolding do_vsprintf
printed_last = refl

print_uint-Printed_example :
    (n : ℕ) × (b' : ℕ → ℕ) × (print_uint 1 255 16 blank ≡ ok n (record blank { buffer = b' }))
    × Printed 16 255 1 n blank.buffer b'
print_uint-Printed_example = print_uint-Printed 16 (inr refl) 255 1 blank (omega arith)

abbrev zero_padded : FormatModifiers
zero_padded = record format_modifiers_init { min_field_width = some 4; padding_char = 48 }

pad-Padded_example :
    After (λ n s'. Padded 1 2 4 zero_padded blank n s') (pad 1 2 4 zero_padded blank)
pad-Padded_example = pad-Padded 1 2 4 zero_padded blank
