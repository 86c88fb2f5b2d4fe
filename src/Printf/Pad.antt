-- ===== src/Printf/Pad.antt =====
-- Padding: the text moves behind the padding, or the padding follows it.
use dangless_malloc.Prelude.{
  ℕ, zero, suc, ◌+◌, ◌-◌, ◌≤◌, ◌<◌, ◌≡◌, refl, sym, ap, ◌∙◌, ◌⊎◌, inl, inr, true, false, ltb, ◌==◌,
  if◌then◌else◌, arith, Bool-cases, ne→==, eq→==, After, returns, after_bind, after_map,
}
use dangless_malloc.Printf.{Printer, FormatModifiers, put_char, fill, copy_from, pad}

-- The `n` characters of `b'` from `dest` on are those of `b` from `from` on.
abbrev pub Same : (ℕ → ℕ) → (ℕ → ℕ) → ℕ → ℕ → ℕ → Type 0
Same b b' from dest n = (i : ℕ) → i < n → b' (dest + i) ≡ b (from + i)

-- The buffer after a loop that writes `n` characters from `dest` on, where character `i` is `c i`.
record Written (dest n : ℕ) (c : ℕ → ℕ) (s s' : Printer) : Type 0 where
  inside : (i : ℕ) → i < n → s'.buffer (dest + i) ≡ c i
  others : (i : ℕ) → (i < dest) ⊎ (dest + n ≤ i) → s'.buffer i ≡ s.buffer i
  args : s'.args ≡ s.args

Written-none : (dest : ℕ) (c : ℕ → ℕ) (s : Printer) → Written dest 0 c s s
Written-none dest c s = record {
  inside = λ i h. absurd (omega arith);
  others = λ i out. refl;
  args = refl;
}

-- One character, then the rest.
Written-suc :
    (dest n c0 : ℕ) (c c' : ℕ → ℕ) {s s' : Printer}
    → c 0 ≡ c0
    → ((i : ℕ) → c (suc i) ≡ c' i)
    → Written (dest + 1) n c' (record s { buffer = λ i. if i == dest then c0 else s.buffer i }) s'
    → Written dest (suc n) c s s'
Written-suc dest n c0 c c' {s} {s'} first rest w = record {
  inside = λ i h.
      (elim i as (λ k. k < suc n → s'.buffer (dest + k) ≡ c k) [
        | zero ↦ λ _.
            ap s'.buffer (omega arith)
            ∙ w.others dest (inl (omega arith))
            ∙ rw (eq→== dest dest refl) (sym first)
        | suc j ↦ λ h'. ap s'.buffer (omega arith) ∙ w.inside j (omega arith) ∙ sym (rest j)
      ])
        h;
  others = λ i out. w.others i (ground arith) ∙ rw (ne→== i dest (ground arith)) refl;
  args = w.args;
}

fill-Written :
    (n dest c : ℕ) (s : Printer) → After (λ _ s'. Written dest n (λ i. c) s s') (fill n dest c s)
unfolding fill put_char
fill-Written zero dest c s = returns (Written-none dest _ s)
fill-Written (suc n) dest c s =
    after_map (fill-Written n (dest + 1) c _)
      (λ _ s' w. Written-suc dest n c (λ i. c) (λ i. c) refl (λ i. refl) w)

copy_from-Written :
    (source : ℕ → ℕ) (from dest n : ℕ) (s : Printer)
    → After (λ _ s'. Written dest n (λ i. source (from + i)) s s') (copy_from source from dest n s)
unfolding copy_from put_char
copy_from-Written source from dest zero s = returns (Written-none dest _ s)
copy_from-Written source from dest (suc n) s =
    after_map (copy_from-Written source (from + 1) (dest + 1) n _) (λ _ s' w.
      Written-suc dest n (source from) (λ i. source (from + i)) (λ i. source (from + 1 + i))
        (ap source (omega arith)) (λ i. ap source (omega arith)) w)

-- What `pad` leaves of `len` characters from `dest` on, where it returns `n`: they, `n - len`
-- characters of padding before or behind them, and the rest of the buffer.
pub record Padded (dest len width : ℕ) (modifiers : FormatModifiers) (s : Printer) (n : ℕ)
    (s' : Printer) : Type 0 where
  pub count : n ≡ (if ltb len width then width else len)
  pub left : modifiers.justify_left ≡ true → Same s.buffer s'.buffer dest dest len
  pub left_padding :
      modifiers.justify_left ≡ true → (i : ℕ) → i < n - len → s'.buffer (dest + len + i) ≡ 32
  pub right : modifiers.justify_left ≡ false → Same s.buffer s'.buffer dest (dest + (n - len)) len
  pub right_padding :
      modifiers.justify_left ≡ false
      → (i : ℕ) → i < n - len
      → s'.buffer (dest + i) ≡ modifiers.padding_char
  pub others : (i : ℕ) → (i < dest) ⊎ (dest + n ≤ i) → s'.buffer i ≡ s.buffer i
  pub args : s'.args ≡ s.args

module _ (dest len width : ℕ) (modifiers : FormatModifiers) (s : Printer)
    (wide : ltb len width ≡ true) where
  Padded-left :
      {s' : Printer}
      → modifiers.justify_left ≡ true
      → Written (dest + len) (width - len) (λ i. 32) s s'
      → Padded dest len width modifiers s width s'
  Padded-left is_left w = record {
    count = rw wide refl;
    left = λ _ i h. w.others (dest + i) (inl (omega arith));
    left_padding = λ _ i h. w.inside i h;
    right = λ is_right. absurd (ground (arith, is_left, is_right));
    right_padding = λ is_right. absurd (ground (arith, is_left, is_right));
    others = λ i out. w.others i (ground (arith, wide));
    args = w.args;
  }

  Padded-right :
      {t s' : Printer}
      → modifiers.justify_left ≡ false
      → Written dest (width - len) (λ i. modifiers.padding_char) s t
      → Written (dest + (width - len)) len (λ i. s.buffer (dest + i)) t s'
      → Padded dest len width modifiers s width s'
  Padded-right is_right w w' = record {
    count = rw wide refl;
    left = λ is_left. absurd (ground (arith, is_left, is_right));
    left_padding = λ is_left. absurd (ground (arith, is_left, is_right));
    right = λ _ i h. w'.inside i h;
    right_padding = λ _ i h. w'.others (dest + i) (inl (omega arith)) ∙ w.inside i h;
    others = λ i out. w'.others i (ground (arith, wide)) ∙ w.others i (ground (arith, wide));
    args = w'.args ∙ w.args;
  }

-- The end of handle_format, for len characters at dest and a width, returns the larger of the
-- two, n: justified to the left, the characters stay and n - len spaces follow; justified to
-- the right, n - len padding characters stand at dest and the characters behind them; no other
-- place of the buffer and none of the arguments has changed.
pub pad-Padded :
    (dest len width : ℕ) (modifiers : FormatModifiers) (s : Printer)
    → After (λ n s'. Padded dest len width modifiers s n s') (pad dest len width modifiers s)
unfolding pad
pad-Padded dest len width modifiers s = elim (Bool-cases (ltb len width)) [
  | inr narrow ↦
      rw (narrow, pad)
        (returns (record {
          count = rw narrow refl;
          left = λ _ i h. refl;
          left_padding = λ _ i h. absurd (omega arith);
          right = λ _ i h. ap s.buffer (omega arith);
          right_padding = λ _ i h. absurd (omega arith);
          others = λ i out. refl;
          args = refl;
        }))
  | inl wide ↦ elim (Bool-cases modifiers.justify_left) [
    | inl is_left ↦
        rw (wide, pad)
          (simp is_left (
            after_bind _ (fill-Written (width - len) (dest + len) 32 s)
              (λ _ s' w. returns (Padded-left dest len width modifiers s wide is_left w))))
    | inr is_right ↦
        rw (wide, pad)
          (simp is_right (
            after_bind _
              (after_bind _ (fill-Written (width - len) dest modifiers.padding_char s) (λ _ t w.
                after_map (copy_from-Written s.buffer dest (dest + (width - len)) len t)
                  (λ _ s' w'. Padded-right dest len width modifiers s wide is_right w w')))
              (λ _ s' p. returns p)))
  ]
]
