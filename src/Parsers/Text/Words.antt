-- ===== src/Parsers/Text/Words.antt =====
-- Words: texts without white space, and what `strip`, `split` and `splitlines` make of them.
use homeinfra_control_center.Prelude.{
  ℕ, ◌≡◌, refl, sym, ap, ◌∙◌, subst, arith, false, [], ◌∷◌, ◌++◌, reverse, Text, is_space, strip,
  drop_while, All, nat_eq,
}
use homeinfra_control_center.Prelude.Counting.{All-append, All-weaken}
use mathlib.Core.List.{reverse-append, reverse-reverse, append_assoc}
use homeinfra_control_center.Parsers.Text.{is_line_break, push, split_lines, split}

-- No white space.
abbrev pub Solid : Text → Type 0
Solid = All (λ (c : ℕ). is_space c ≡ false)

abbrev pub Word : Text → Type 0
Word [] = ⊥
Word (c ∷ s) = (is_space c ≡ false) × Solid s

-- No line boundary.
abbrev pub OneLine : Text → Type 0
OneLine = All (λ (c : ℕ). is_line_break c ≡ false)

pub space_of_break : (c : ℕ) → is_space c ≡ false → is_line_break c ≡ false
unfolding is_space is_line_break
space_of_break c h = ground arith

pub not_return : (c : ℕ) → is_line_break c ≡ false → nat_eq c 13 ≡ false
unfolding is_line_break
not_return c h = ground arith

-- A line in front of a text.
pub split_lines-line :
    (line rest : Text)
    → OneLine line
    → split_lines false (line ++ (10 ∷ rest)) ≡ line ∷ split_lines false rest
unfolding split_lines
split_lines-line [] rest h = refl
split_lines-line (c ∷ line) rest h = rw (not_return c h.0, h.0, split_lines-line line rest h.1) refl

-- Two characters of one word.
pub split_step :
    (c d : ℕ) (s : Text)
    → is_space c ≡ false
    → is_space d ≡ false
    → split (c ∷ d ∷ s) ≡ push c (split (d ∷ s))
unfolding split
split_step c d s h k = rw (h, k) refl

pub split_last : (c : ℕ) → is_space c ≡ false → split (c ∷ []) ≡ (c ∷ []) ∷ []
unfolding split
split_last c h = rw h refl

pub split_space : (c : ℕ) (s : Text) → is_space c ≡ false → split (c ∷ 32 ∷ s) ≡ (c ∷ []) ∷ split s
unfolding split
split_space c s h = rw h refl

pub split-Word : (w : Text) → Word w → split w ≡ w ∷ []
split-Word [] h = absurd h
split-Word (c ∷ []) h = split_last c h.0
split-Word (c ∷ d ∷ w) h = split_step c d w h.0 h.1.0 ∙ ap (push c) (split-Word (d ∷ w) h.1)

pub split-append : (w s : Text) → Word w → split (w ++ (32 ∷ s)) ≡ w ∷ split s
split-append [] s h = absurd h
split-append (c ∷ []) s h = split_space c s h.0
split-append (c ∷ d ∷ w) s h =
    split_step c d (w ++ (32 ∷ s)) h.0 h.1.0 ∙ ap (push c) (split-append (d ∷ w) s h.1)

pub drop_while-Word : (w s : Text) → Word w → drop_while is_space (w ++ s) ≡ w ++ s
drop_while-Word [] s h = absurd h
drop_while-Word (c ∷ w) s h = rw h.0 refl

pub Solid-append : (s t : Text) → Solid s → Solid t → Solid (s ++ t)
Solid-append s t h k = All-append (λ (c : ℕ). is_space c ≡ false) s t h k

pub Word-Solid : (w : Text) → Word w → Solid w
Word-Solid [] h = absurd h
Word-Solid (c ∷ w) h = h

pub Word-OneLine : (w : Text) → Word w → OneLine w
Word-OneLine w h =
    All-weaken (λ (c : ℕ). is_space c ≡ false) (λ (c : ℕ). is_line_break c ≡ false) w space_of_break
      (Word-Solid w h)

pub OneLine-join : (s t : Text) → OneLine s → OneLine t → OneLine (s ++ (32 ∷ t))
unfolding is_line_break
OneLine-join s t h k = All-append (λ (c : ℕ). is_line_break c ≡ false) s (32 ∷ t) h (refl, k)

pub Word-append_right : (s w : Text) → Solid s → Word w → Word (s ++ w)
Word-append_right [] w h k = k
Word-append_right (c ∷ s) [] h k = absurd k
Word-append_right (c ∷ s) (d ∷ w) h k = (h.0, Solid-append s (d ∷ w) h.1 k)

pub Solid-reverse : (w : Text) → Solid w → Solid (reverse w)
Solid-reverse [] h = tt
Solid-reverse (c ∷ w) h =
    subst Solid (sym (reverse-append (c ∷ []) w))
      (Solid-append (reverse w) (c ∷ []) (Solid-reverse w h.1) (h.0, tt))

pub Word-reverse : (w : Text) → Word w → Word (reverse w)
Word-reverse [] h = absurd h
Word-reverse (c ∷ w) h =
    subst Word (sym (reverse-append (c ∷ []) w))
      (Word-append_right (reverse w) (c ∷ []) (Solid-reverse w h.1) (h.0, tt))

-- A text between two words is not stripped.
pub strip-words : (v s w : Text) → Word v → Word w → strip (v ++ (s ++ w)) ≡ v ++ (s ++ w)
unfolding strip
strip-words v s w h k =
    let x = v ++ (s ++ w) in
    let turned : reverse x ≡ reverse w ++ reverse (v ++ s) =
      ap reverse (sym (append_assoc v s w)) ∙ reverse-append (v ++ s) w in
    let same : drop_while is_space (reverse x) ≡ reverse x =
      ap (drop_while is_space) turned
      ∙ drop_while-Word (reverse w) (reverse (v ++ s)) (Word-reverse w k)
      ∙ sym turned in
    ap (λ (t : Text). reverse (drop_while is_space (reverse t))) (drop_while-Word v (s ++ w) h)
    ∙ ap reverse same
    ∙ reverse-reverse x
