-- ===== src/Lexer/Keywords.antt =====
-- The table of reserved words against the texts of names.
use ruwren.Prelude.{ℕ, ◌≡◌, refl, false, List, [], ◌∷◌, All}
use ruwren.Prelude.Text.{bytes_equal}
use ruwren.Lexer.State.{TokenType}
use ruwren.Lexer.Name.{keywords, keyword_type}

-- The text is none of the words of the table.
abbrev pub IsFree : List ℕ → List (List ℕ × TokenType) → Type 0
IsFree text table = All (λ entry. bytes_equal text entry.0 ≡ false) table

keyword_type-free :
    (text : List ℕ) (table : List (List ℕ × TokenType)) (type : TokenType)
    → IsFree text table
    → keyword_type text table type ≡ type
unfolding keyword_type
keyword_type-free text [] type free = refl
keyword_type-free text ((word, kind) ∷ table) type (other, free) =
    rw other (keyword_type-free text table type free)

each_same : (table : List (List ℕ × TokenType)) → All (λ entry. entry.1 ≡ entry.1) table
each_same [] = tt
each_same (entry ∷ table) = (refl, each_same table)

-- Whatever type the search for a keyword begins with, each word of the table gets the type that
-- stands beside it, and a text that is none of the words keeps the type that the search began
-- with.
pub keyword_type-keywords :
    (type : TokenType)
    → All (λ entry. keyword_type entry.0 keywords type ≡ entry.1) keywords
      × ((text : List ℕ) → IsFree text keywords → keyword_type text keywords type ≡ type)
unfolding keyword_type bytes_equal
keyword_type-keywords type =
    (each_same keywords, λ text free. keyword_type-free text keywords type free)
