-- ===== src/LineReader.antt =====
-- `ForEachLine` of src/base/for_each_line.h, which reads a file through a buffer and gives its lines to
-- a function. The text between `sbuf` and `ebuf` is a list, and `sbuf` its distance from the buffer.
pub mod Lines
use gperftools.Base.{
  ℕ, zero, suc, ◌+◌, ◌-◌, Bool, true, false, ◌&&◌, Option, none, some, List, [], ◌∷◌, ◌++◌, length,
  take, drop, ◌==◌, if◌then◌else◌, Outcome, ok, out_of_fuel,
}

abbrev pub newline : ℕ
newline = 10

-- `memchr` for the newline, with the text before it and the text after it.
unfoldable pub split_line : List ℕ → Option (List ℕ × List ℕ)
split_line [] = none
split_line (c ∷ cs) =
    if c == newline
    then some ([], cs)
    else (elim (split_line cs) [ none ↦ none | some (line, after) ↦ some (c ∷ line, after) ])

abbrev pub is_empty : List ℕ → Bool
is_empty [] = true
is_empty (c ∷ cs) = false

-- The result of the function, with the lines that were given to the body, the last of them last.
abbrev pub Given : Type 0
Given = List (List ℕ) × Bool

-- `buf_size` is the size of the buffer. The reader says how many bytes it gives of those left in the
-- file, for the room that it has; the body says, from the lines given before and the line, whether to
-- go on.
module _ (buf_size : ℕ) (reader : List ℕ → ℕ → ℕ) (body : List (List ℕ) → List ℕ → Bool) where
  unfoldable pub loop : ℕ → ℕ → List ℕ → Bool → List ℕ → List (List ℕ) → Outcome Given
  loop zero sbuf text eof rest given = out_of_fuel
  loop (suc fuel) sbuf text eof rest given = elim (split_line text) as (λ _. Outcome Given) [
    | some (line, after) ↦ elim (body given line) [
      | false ↦ ok (given ++ (line ∷ []), true)
      | true ↦ loop fuel (sbuf + length line + 1) after eof rest (given ++ (line ∷ []))
    ]
    | none ↦ elim eof as (λ _. Outcome Given) [
      | true ↦ elim (is_empty text) [
        | true ↦ ok (given, true)
        | false ↦ loop fuel sbuf (text ++ (newline ∷ [])) true rest given
      ]
      | false ↦ elim ((sbuf + length text == buf_size - 1) && (sbuf == 0)) [
        | true ↦ ok (given, false)
        | false ↦
            let nread = reader rest (buf_size - 1 - length text) in
            loop fuel 0 (text ++ take nread rest) (nread == 0) (drop nread rest) given
      ]
    ]
  ]

  -- `ForEachLine` on the bytes of a file.
  unfoldable pub for_each_line : List ℕ → Outcome Given
  for_each_line file = loop (length file + length file + 4) 0 [] false file []
