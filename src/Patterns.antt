-- ===== src/Patterns.antt =====
-- Regular expressions of JavaScript, as far as the program uses them. A pattern at a place of a text
-- has the places where it ends, in the order in which backtracking tries them.
use launch_proof.Shared.{
  ℕ, zero, suc, Bool, true, false, not, ◌&&◌, ◌||◌, ◌==◌, nat_eq, leb, ltb, Text, text, is_digit,
  is_space, String, length, filter, Option, none, some, List, [], ◌∷◌, ◌++◌, if◌then◌else◌,
}

pub data Regex : Type 0 where
  empty boundary : Regex
  one : (ℕ → Bool) → Regex
  seq either : Regex → Regex → Regex
  many : Regex → Regex

-- A place of a text: the code unit before it, and what follows.
pub record Place : Type 0 where
  pub before : Option ℕ
  pub rest : Text

-- `\w`
abbrev pub is_word : ℕ → Bool
is_word c = is_digit c || ((leb b'a' c && leb c b'z') || ((leb b'A' c && leb c b'Z') || c == b'_'))

abbrev pub word_before : Option ℕ → Bool
word_before none = false
word_before (some c) = is_word c

abbrev pub word_after : Text → Bool
word_after [] = false
word_after (c ∷ s) = is_word c

-- `\b`
abbrev pub at_boundary : Place → Bool
at_boundary p = if word_before p.before then not (word_after p.rest) else word_after p.rest

abbrev pub step_one : (ℕ → Bool) → Text → List Place
step_one f [] = []
step_one f (c ∷ s) = if f c then record { before = some c; rest = s } ∷ [] else []

abbrev pub join_places : (Place → List Place) → List Place → List Place
join_places f [] = []
join_places f (p ∷ ps) = f p ++ join_places f ps

-- The longest first; a turn that takes nothing is not repeated, so that the fuel is the text's length.
abbrev pub many_ends : (Place → List Place) → ℕ → Place → List Place
many_ends step zero p = p ∷ []
many_ends step (suc n) p =
    join_places (many_ends step n) (filter (λ q. ltb (length q.rest) (length p.rest)) (step p))
    ++ (p ∷ [])

unfoldable pub ends : Regex → Place → List Place
ends empty p = p ∷ []
ends boundary p = if at_boundary p then p ∷ [] else []
ends (one f) p = step_one f p.rest
ends (seq r s) p = join_places (ends s) (ends r p)
ends (either r s) p = ends r p ++ ends s p
ends (many r) p = many_ends (ends r) (length p.rest) p

abbrev pub first_end : List Place → Option Place
first_end [] = none
first_end (p ∷ ps) = some p

abbrev pub is_match : List Place → Bool
is_match [] = false
is_match (p ∷ ps) = true

-- `pattern.test(text)`, from a place on.
unfoldable pub found_from : Regex → Option ℕ → Text → Bool
unfolding ends
found_from r before [] = is_match (ends r (record { before = before; rest = [] }))
found_from r before (c ∷ s) =
    is_match (ends r (record { before = before; rest = c ∷ s })) || found_from r (some c) s

abbrev pub found : Regex → Text → Bool
found r s = found_from r none s

-- `text.replace(pattern, to)` with the flag g, for a pattern that matches no empty text; the fuel is
-- the text's length.
unfoldable pub replace_from : ℕ → Regex → Text → Option ℕ → Text → Text
unfolding ends
replace_from zero r to before s = s
replace_from (suc n) r to before [] = []
replace_from (suc n) r to before (c ∷ s) =
    elim (first_end (ends r (record { before = before; rest = c ∷ s }))) [
      | none ↦ c ∷ replace_from n r to (some c) s
      | some p ↦ to ++ replace_from n r to p.before p.rest
    ]

abbrev pub replace_all : Regex → Text → Text → Text
replace_all r to s = replace_from (length s) r to none s

abbrev pub optional : Regex → Regex
optional r = either r empty

abbrev pub at_least_one : Regex → Regex
at_least_one r = seq r (many r)

abbrev pub literal_of : Text → Regex
literal_of [] = empty
literal_of (c ∷ s) = seq (one (λ d. d == c)) (literal_of s)

abbrev pub literal : String → Regex
literal s = literal_of (text s)

-- `\s+`
abbrev pub spaces : Regex
spaces = at_least_one (one is_space)
