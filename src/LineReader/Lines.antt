-- ===== src/LineReader/Lines.antt =====
-- The lines that `ForEachLine` gives are those of the file.
use gperftools.Base.{
  ℕ, zero, suc, ◌+◌, ◌-◌, ◌≤◌, ◌<◌, ◌≡◌, ◌≢◌, refl, ap, sym, ◌∙◌, inl, inr, Bool, true, false, ◌&&◌,
  none, some, List, [], ◌∷◌, ◌++◌, length, length-append, take, drop, length-drop, take-append-drop,
  All, ◌==◌, if◌then◌else◌, ok, arith, Bool-cases, Option-cases,
}
use mathlib.Core.Path.{subst}
use mathlib.Core.List.{append_assoc, append-nil}
use gperftools.LineReader.{newline, split_line, loop, for_each_line}

unfoldable pub cons_head : ℕ → List (List ℕ) → List (List ℕ)
cons_head c [] = (c ∷ []) ∷ []
cons_head c (l ∷ ls) = (c ∷ l) ∷ ls

-- The lines of a text; the last need not end with a newline.
unfoldable pub lines : List ℕ → List (List ℕ)
unfolding cons_head
lines [] = []
lines (c ∷ cs) = if c == newline then [] ∷ lines cs else cons_head c (lines cs)

-- The lines given to a body that stops at the first line for which it says no.
unfoldable pub deliver :
    (List (List ℕ) → List ℕ → Bool) → List (List ℕ) → List (List ℕ) → List (List ℕ)
deliver body given [] = given
deliver body given (l ∷ ls) = elim (body given l) [
  | false ↦ given ++ (l ∷ [])
  | true ↦ deliver body (given ++ (l ∷ [])) ls
]

-- A reader gives no more than its room or what is left, and something unless one of them is nothing.
pub record IsReader (reader : List ℕ → ℕ → ℕ) : Type 0 where
  pub room : (rest : List ℕ) (n : ℕ) → reader rest n ≤ n
  pub left : (rest : List ℕ) (n : ℕ) → reader rest n ≤ length rest
  pub some_bytes : (rest : List ℕ) (n : ℕ) → 0 < n → 0 < length rest → 0 < reader rest n

head_length : List (List ℕ) → ℕ
head_length [] = 0
head_length (l ∷ ls) = length l

head-cons_head : (c : ℕ) (ls : List (List ℕ)) → head_length (cons_head c ls) ≡ suc (head_length ls)
unfolding head_length cons_head
head-cons_head c [] = refl
head-cons_head c (l ∷ ls) = refl

-- A line that was found is the first one, and the text after it is shorter.
split_line-some :
    (text rest line after : List ℕ)
    → split_line text ≡ some (line, after)
    → (lines (text ++ rest) ≡ line ∷ lines (after ++ rest))
      × (length text ≡ length line + 1 + length after)
unfolding split_line lines cons_head
split_line-some [] rest line after e = cc
split_line-some (c ∷ cs) rest line after e = elim (Option-cases (split_line cs)) [
  | inl n ↦ ground arith
  | inr (p, s) ↦ let ih = split_line-some cs rest p.0 p.1 s in ground arith
]

-- Text with no newline is the start of the first line.
split_line-none :
    (text rest : List ℕ) → split_line text ≡ none → length text ≤ head_length (lines (text ++ rest))
unfolding split_line lines
split_line-none [] rest e = omega arith
split_line-none (c ∷ cs) rest e = elim (Option-cases (split_line cs)) [
  | inl n ↦
      let ih = split_line-none cs rest n in
      let h = head-cons_head c (lines (cs ++ rest)) in ground arith
  | inr (p, s) ↦ ground arith
]

-- At the end of the file the rest of the text is the last line.
last_line : List ℕ → List (List ℕ)
last_line [] = []
last_line (c ∷ cs) = (c ∷ cs) ∷ []

lines-last : (text : List ℕ) → split_line text ≡ none → lines text ≡ last_line text
unfolding split_line lines last_line
lines-last [] e = refl
lines-last (c ∷ cs) e = elim (Option-cases (split_line cs)) [
  | inl n ↦
      let ih = lines-last cs n in
      let no : (c == newline) ≡ false = ground arith in rw (no, ih) (go cs)
  | inr (p, s) ↦ ground arith
]
  where
    go : (cs : List ℕ) → cons_head c (last_line cs) ≡ (c ∷ cs) ∷ []
    go [] = unfold cons_head in refl
    go (d ∷ cs) = unfold cons_head in refl

split_line-newline :
    (text : List ℕ) → split_line text ≡ none → split_line (text ++ (newline ∷ [])) ≡ some (text, [])
unfolding split_line
split_line-newline [] e = refl
split_line-newline (c ∷ cs) e = elim (Option-cases (split_line cs)) [
  | inl n ↦ let ih = split_line-newline cs n in ground arith
  | inr (p, s) ↦ ground arith
]

module _ (body : List (List ℕ) → List ℕ → Bool) (given : List (List ℕ)) (l : List ℕ)
    (ls : List (List ℕ)) where
  deliver-true :
      body given l ≡ true → deliver body given (l ∷ ls) ≡ deliver body (given ++ (l ∷ [])) ls
  unfolding deliver
  deliver-true g = rw (deliver, g) refl

  deliver-false : body given l ≡ false → deliver body given (l ∷ ls) ≡ given ++ (l ∷ [])
  unfolding deliver
  deliver-false g = rw (deliver, g) refl

module _ (buf_size : ℕ) (reader : List ℕ → ℕ → ℕ) (body : List (List ℕ) → List ℕ → Bool) where
  -- A line that is found is given, and the rest of the loop gives the others.
  loop-line :
      (fuel sbuf : ℕ) (text rest line after : List ℕ) (eof : Bool) (given ls : List (List ℕ))
      → split_line text ≡ some (line, after)
      → loop buf_size reader body fuel
          (sbuf + length line + 1)
          after
          eof
          rest
          (given ++ (line ∷ []))
        ≡ ok (deliver body (given ++ (line ∷ [])) ls, true)
      → loop buf_size reader body (suc fuel) sbuf text eof rest given
        ≡ ok (deliver body given (line ∷ ls), true)
  unfolding loop
  loop-line fuel sbuf text rest line after eof given ls s ih = elim (Bool-cases (body given line)) [
    | inl g ↦ rw (deliver-true body given line ls g) (rw (loop, s, g) ih)
    | inr g ↦ rw (deliver-false body given line ls g) (rw (loop, s, g) refl)
  ]

  loop-end :
      (fuel sbuf : ℕ) (rest : List ℕ) (given : List (List ℕ))
      → loop buf_size reader body (suc fuel) sbuf [] true rest given ≡ ok (given, true)
  unfolding loop split_line
  loop-end fuel sbuf rest given = refl

  loop-newline :
      (fuel sbuf c : ℕ) (cs rest : List ℕ) (given : List (List ℕ))
      → split_line (c ∷ cs) ≡ none
      → loop buf_size reader body (suc fuel) sbuf (c ∷ cs) true rest given
        ≡ loop buf_size reader body fuel sbuf ((c ∷ cs) ++ (newline ∷ [])) true rest given
  unfolding loop
  loop-newline fuel sbuf c cs rest given n = rw (loop, n) refl

  -- At the end of the file.
  loop-eof :
      (fuel sbuf : ℕ) (text rest : List ℕ) (given : List (List ℕ))
      → length text + 3 ≤ fuel
      → loop buf_size reader body fuel sbuf text true rest given
        ≡ ok (deliver body given (lines text), true)
  unfolding deliver lines last_line
  loop-eof zero sbuf text rest given enough = absurd (omega arith)
  loop-eof (suc zero) sbuf text rest given enough = absurd (omega arith)
  loop-eof (suc (suc zero)) sbuf text rest given enough = absurd (omega arith)
  loop-eof (suc (suc (suc fuel))) sbuf [] rest given enough =
      loop-end (suc (suc fuel)) sbuf rest given
  loop-eof (suc (suc (suc fuel))) sbuf (c ∷ cs) rest given enough =
      elim (Option-cases (split_line (c ∷ cs))) [
        | inr (p, s) ↦
            let (ls, len) = split_line-some (c ∷ cs) [] p.0 p.1 s in
            let ls' : lines (c ∷ cs) ≡ p.0 ∷ lines p.1 =
              ap lines (sym (append-nil (c ∷ cs)))
              ∙ ls
              ∙ ap (λ t. p.0 ∷ lines t) (append-nil p.1) in
            loop-line (suc (suc fuel)) sbuf (c ∷ cs) rest p.0 p.1 true given (lines p.1) s (
              loop-eof (suc (suc fuel)) (sbuf + length p.0 + 1) p.1 rest (given ++ (p.0 ∷ []))
                (omega arith))
            ∙ ap (λ t. ok (deliver body given t, true)) (sym ls')
        | inl n ↦
            loop-newline (suc (suc fuel)) sbuf c cs rest given n
            ∙ loop-line (suc fuel) sbuf ((c ∷ cs) ++ (newline ∷ [])) rest (c ∷ cs) [] true given []
                (split_line-newline (c ∷ cs) n)
                (loop-end fuel (sbuf + length (c ∷ cs) + 1) rest (given ++ ((c ∷ cs) ∷ [])))
            ∙ ap (λ t. ok (deliver body given t, true)) (sym (lines-last (c ∷ cs) n))
      ]

  loop-read :
      (fuel sbuf : ℕ) (text rest : List ℕ) (given : List (List ℕ))
      → split_line text ≡ none
      → ((sbuf + length text == buf_size - 1) && (sbuf == 0)) ≡ false
      → loop buf_size reader body (suc fuel) sbuf text false rest given
        ≡ loop buf_size reader body fuel 0
            (text ++ take (reader rest (buf_size - 1 - length text)) rest)
            (reader rest (buf_size - 1 - length text) == 0)
            (drop (reader rest (buf_size - 1 - length text)) rest)
            given
  unfolding loop
  loop-read fuel sbuf text rest given n room = rw (loop, n, room) refl

  Short : List (List ℕ) → Type 0
  Short ls = All (λ l. length l < buf_size - 1) ls

  head-lt : (ls : List (List ℕ)) → Short ls → 0 < buf_size - 1 → head_length ls < buf_size - 1
  unfolding Short head_length
  head-lt [] h pos = pos
  head-lt (l ∷ ls) (h, hs) pos = h

  module _ (reads : IsReader reader) (pos : 0 < buf_size - 1) where
    -- Text and the bytes left in the file stand for lines that fit in the buffer.
    loop_lem :
        (fuel sbuf : ℕ) (text rest : List ℕ) (given : List (List ℕ))
        → sbuf + length text ≤ buf_size - 1
        → Short (lines (text ++ rest))
        → length text + length rest + length rest + 4 ≤ fuel
        → loop buf_size reader body fuel sbuf text false rest given
          ≡ ok (deliver body given (lines (text ++ rest)), true)
    loop_lem zero sbuf text rest given within short enough = absurd (omega arith)
    loop_lem (suc fuel) sbuf text rest given within short enough =
        elim (Option-cases (split_line text)) [
          | inr (p, s) ↦
              let (ls, len) = split_line-some text rest p.0 p.1 s in
              let short' : Short (p.0 ∷ lines (p.1 ++ rest)) = subst Short ls short in
              loop-line fuel sbuf text rest p.0 p.1 false given (lines (p.1 ++ rest)) s (
                loop_lem fuel (sbuf + length p.0 + 1) p.1 rest (given ++ (p.0 ∷ [])) (omega arith)
                  (later p.0 _ short') (omega arith))
              ∙ ap (λ t. ok (deliver body given t, true)) (sym ls)
          | inl n ↦
              let first = split_line-none text rest n in
              let fits = head-lt (lines (text ++ rest)) short pos in
              let room : ((sbuf + length text == buf_size - 1) && (sbuf == 0)) ≡ false =
                ground arith in
              let k = reader rest (buf_size - 1 - length text) in
              let most = reads.room rest (buf_size - 1 - length text) in
              let least = reads.left rest (buf_size - 1 - length text) in
              let some_ = reads.some_bytes rest (buf_size - 1 - length text) (omega arith) in
              let halves = take-append-drop k rest in
              let len = ap length halves in
              let len' = length-append (take k rest) (drop k rest) in
              let len'' = length-drop k rest in
              let longer = length-append text (take k rest) in
              let whole : lines ((text ++ take k rest) ++ drop k rest) ≡ lines (text ++ rest) =
                ap lines
                  (append_assoc text (take k rest) (drop k rest) ∙ ap (λ t. text ++ t) halves) in
              loop-read fuel sbuf text rest given n room ∙ elim (Bool-cases (k == 0)) [
                | inl z ↦
                    let none_ : k ≡ 0 = ground arith in
                    let end : length rest ≡ 0 = ground arith in
                    let gone : text ++ take k rest ≡ text ++ rest =
                      ap (λ t. text ++ t)
                        (ap (λ j. take j rest) none_ ∙ sym (empty_of_length rest end)) in
                    rw z (
                      loop-eof fuel 0 (text ++ take k rest) (drop k rest) given (omega arith)
                      ∙ ap (λ t. ok (deliver body given (lines t), true)) gone)
                | inr z ↦
                    let more : k ≢ 0 = λ e. absurd (ground arith) in
                    rw z (
                      loop_lem fuel 0 (text ++ take k rest) (drop k rest) given (omega arith)
                        (subst Short (sym whole) short) (omega arith)
                      ∙ ap (λ t. ok (deliver body given t, true)) whole)
              ]
        ]
      where
        later : (l : List ℕ) (ls : List (List ℕ)) → Short (l ∷ ls) → Short ls
        later l ls h = unfold Short in h.1

        empty_of_length : (xs : List ℕ) → length xs ≡ 0 → xs ≡ []
        empty_of_length [] e = refl
        empty_of_length (x ∷ xs) e = absurd (omega arith)

    -- For a buffer of at least two bytes and a file each of whose lines, without its newline, is at
    -- least two bytes shorter, whatever amounts the reads return: `ForEachLine` ends and returns true,
    -- and has given the lines of the file, in order and without a newline at the end of the last one
    -- too, up to the first for which the body said no.
    pub for_each_line-lines :
        (file : List ℕ)
        → All (λ l. length l < buf_size - 1) (lines file)
        → for_each_line buf_size reader body file ≡ ok (deliver body [] (lines file), true)
    unfolding for_each_line Short
    for_each_line-lines file short =
        loop_lem (length file + length file + 4) 0 [] file [] (omega arith) short (omega arith)
