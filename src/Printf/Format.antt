-- ===== src/Printf/Format.antt =====
-- The format string: the loop of do_vsprintf, and the modifiers between "%" and the specifier.
use dangless_malloc.Prelude.{
  ℕ, ◌+◌, ◌-◌, ◌*◌, Bool, true, ◌&&◌, Option, none, some, List, [], ◌∷◌, leb, ◌==◌, if◌then◌else◌,
  Cmd, fault, pure, ◌>>=◌, ◌>>◌,
}
use dangless_malloc.Printf.{
  Printer, FormatModifiers, format_modifiers_init, put_char, handle_format,
}

-- A character after "%": one more modifier, a failed assertion, or the specifier.
pub data Parsed : Type 0 where
  modified : FormatModifiers → Parsed
  rejected : Parsed
  specified : Parsed

-- A digit of the width.
unfoldable pub width_digit : ℕ → FormatModifiers → Parsed
width_digit c fm = elim fm.min_field_width [
  | none ↦ rejected
  | some width ↦ modified (record fm { min_field_width = some (width * 10 + (c - 48)) })
]

-- `fm.min_field_width == 0`
unfoldable pub has_no_width : FormatModifiers → Bool
has_no_width fm = elim fm.min_field_width [ none ↦ leb 1 0 | some width ↦ width == 0 ]

-- The switch in the inner loop of `do_vsprintf`.
unfoldable pub parse_modifier : ℕ → FormatModifiers → Parsed
unfolding width_digit has_no_width
parse_modifier c fm =
    if c == 108
    then modified (record fm { longness = fm.longness + 1 })
    else if c == 122
    then modified (record fm { longness = 2 })
    else if c == 45
    then modified (record fm { justify_left = true })
    else if c == 48 && has_no_width fm
    then modified (record fm { padding_char = 48 })
    else if leb 48 c && leb c 57
    then width_digit c fm
    else if c == 42
    then (if has_no_width fm then modified (record fm { min_field_width = none }) else rejected)
    else specified

module _ (strings : ℕ → List ℕ) where
  -- The loops of `do_vsprintf` over the rest of the format; the modifiers are those read since "%".
  unfoldable pub format_loop : List ℕ → Option FormatModifiers → ℕ → Cmd Printer ℕ
  unfolding put_char handle_format parse_modifier
  format_loop [] none buffer_ptr = pure buffer_ptr
  format_loop [] (some fm) buffer_ptr = λ s. fault
  format_loop (c ∷ cs) none buffer_ptr =
      if c == 37
      then format_loop cs (some format_modifiers_init) buffer_ptr
      else (do put_char buffer_ptr c; format_loop cs none (buffer_ptr + 1))
  format_loop (c ∷ cs) (some fm) buffer_ptr = elim (parse_modifier c fm) [
    | modified fm' ↦ format_loop cs (some fm') buffer_ptr
    | rejected ↦ λ s. fault
    | specified ↦ do n ← handle_format strings buffer_ptr c fm; format_loop cs none (buffer_ptr + n)
  ]

  -- `do_vsprintf`: the length, without the terminator that it writes.
  unfoldable pub do_vsprintf : List ℕ → Cmd Printer ℕ
  unfolding format_loop put_char
  do_vsprintf format = do len ← format_loop format none 0; put_char len 0; pure len
