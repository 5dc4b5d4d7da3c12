-- ===== src/Console/Display.antt =====
-- `Show` of lib/runtime/include/robobus/console/interpreter.hpp.
use mathlib.Core.List.{append_assoc, append-nil}
use robobus.Base.{
  ℕ, suc, ◌+◌, ◌<◌, ◌≤◌, ◌≡◌, ◌≢◌, refl, sym, ap, ◌∙◌, ◌⊎◌, inl, inr, arith, true, false, some,
  List, [], ◌∷◌, ◌++◌, reverse, map, length, length-append, length-reverse, get_elem?,
  get_elem?-append_at, ◌==◌, ==-ne, ◌>>=◌, Option-cases,
}
use robobus.Console.{
  Interpreter, Token, prompt, reverse_on, reverse_off, clear_line, char, show_from, show,
}
use robobus.Console.Refinement.{Represents}

-- The text behind the cursor: the character at the cursor is reversed, or a blank at the end.
abbrev pub shown_right : List ℕ → List Token
shown_right [] = reverse_on ∷ char b' ' ∷ reverse_off ∷ clear_line ∷ []
shown_right (x ∷ r) = reverse_on ∷ char x ∷ reverse_off ∷ (map char r ++ clear_line ∷ [])

module _ (c : Interpreter) where
  -- Characters away from the cursor.
  show_from-plain :
      (xs pre rest : List ℕ) (i k : ℕ)
      → c.buf ≡ pre ++ (xs ++ rest)
      → i ≡ length pre
      → (c.cursor_pos < i) ⊎ (i + length xs ≤ c.cursor_pos)
      → show_from (length xs + k) i c
        ≡ (show_from k (i + length xs) c >>= λ l. some (map char xs ++ l))
  unfolding show_from
  show_from-plain [] pre rest i k e at away =
      let here : i + 0 ≡ i = omega arith in
      let size : 0 + k ≡ k = omega arith in
      rw (here, size)
        (elim (Option-cases (show_from k i c)) [ inl h ↦ rw h refl | inr (l, h) ↦ rw h refl ])
  show_from-plain (x ∷ xs) pre rest i k e at away =
      let size : suc (length xs) + k ≡ suc (length xs + k) = omega arith in
      let next : i + suc (length xs) ≡ suc i + length xs = omega arith in
      let off : i ≢ c.cursor_pos = ground arith in
      let cell : get_elem? c.buf i ≡ some x = rw e (get_elem?-append_at pre (xs ++ rest) x i at) in
      let later : (c.cursor_pos < suc i) ⊎ (suc i + length xs ≤ c.cursor_pos) = elim away [
        | inl b ↦ inl (omega arith)
        | inr a ↦ inr (omega arith)
      ] in
      let step =
        show_from-plain xs (pre ++ x ∷ []) rest (suc i) k
          (e ∙ sym (append_assoc pre (x ∷ []) (xs ++ rest)))
          (omega (arith, length-append pre (x ∷ []))) later in
      rw (size, next, cell, step, ==-ne i c.cursor_pos off)
        (elim (Option-cases (show_from k (suc i + length xs) c)) [
          | inl h ↦ rw h refl
          | inr (l, h) ↦ rw h refl
        ])

  show_from-cursor :
      (x : ℕ) (r pre rest : List ℕ) (i k : ℕ)
      → c.buf ≡ pre ++ (x ∷ r ++ rest)
      → i ≡ length pre
      → i ≡ c.cursor_pos
      → k ≡ suc (length r)
      → show_from k i c ≡ some (reverse_on ∷ char x ∷ reverse_off ∷ map char r)
  unfolding show_from
  show_from-cursor x r pre rest i k e at here size =
      let all : k ≡ suc (length r + 0) = omega arith in
      let cell : get_elem? c.buf i ≡ some x = rw e (get_elem?-append_at pre (r ++ rest) x i at) in
      let on : (i == c.cursor_pos) ≡ true = ground arith in
      let tail =
        show_from-plain r (pre ++ x ∷ []) rest (suc i) 0
          (e ∙ sym (append_assoc pre (x ∷ []) (r ++ rest)))
          (omega (arith, length-append pre (x ∷ []))) (inl (omega arith)) in
      rw (all, cell, tail, on, append-nil (map char r)) refl

  -- `Show` prints the prompt, then the whole line from its first character to its last, with the
  -- character at the cursor reversed, or a blank behind the line when the cursor is there, and
  -- clears the rest of the screen's line. It reads nothing outside of the buffer. The buffer
  -- represents the two halves of the line.
  pub show-halves :
      (left right : List ℕ)
      → Represents c left right
      → show c ≡ some (prompt ∷ (map char (reverse left) ++ shown_right right))
  unfolding show
  show-halves left [] h =
      let size : c.length ≡ length (reverse left) + 0 =
        omega (arith, h.text_length, length-reverse left) in
      let before =
        show_from-plain (reverse left) [] ([] ++ h.free) 0 0 h.contents refl
          (inr (omega (arith, h.cursor, length-reverse left))) in
      let line : show_from c.length 0 c ≡ some (map char (reverse left) ++ []) =
        ap (λ n. show_from n 0 c) size ∙ before ∙ unfold show_from in refl in
      let end_ : (c.cursor_pos == c.length) ≡ true = ground (arith, h.cursor, h.text_length) in
      rw (line, end_, append-nil (map char (reverse left))) refl
  show-halves left (x ∷ r) h =
      let size : c.length ≡ length (reverse left) + suc (length r) =
        omega (arith, h.text_length, length-reverse left) in
      let at : length (reverse left) ≡ c.cursor_pos =
        omega (arith, h.cursor, length-reverse left) in
      let before =
        show_from-plain (reverse left) [] ((x ∷ r) ++ h.free) 0 (suc (length r)) h.contents refl
          (inr (omega arith)) in
      let start : 0 + length (reverse left) ≡ length (reverse left) = omega arith in
      let after =
        show_from-cursor x r (reverse left) h.free (0 + length (reverse left)) (suc (length r))
          h.contents start (start ∙ at) refl in
      let line : show_from c.length 0 c
          ≡ some (map char (reverse left) ++ reverse_on ∷ char x ∷ reverse_off ∷ map char r) =
        ap (λ n. show_from n 0 c) size ∙ before ∙ rw after refl in
      let inside : (c.cursor_pos == c.length) ≡ false = ground (arith, h.cursor, h.text_length) in
      rw
        (
          line,
          inside,
          append_assoc (map char (reverse left)) (reverse_on ∷ char x ∷ reverse_off ∷ map char r)
              (clear_line ∷ []),
        )
        refl
