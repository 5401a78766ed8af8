-- ===== src/Tests/FindTests.antt =====
-- The search for "lo" in "hello world, hello".
use ruwren.Prelude.{ℕ, ◌≡◌, refl, true, some, List, arith, length, get_or, ltb, ltb→lt}
use ruwren.Prelude.Bits.{passes_below, passes_below-passes}
use ruwren.Prelude.Text.{codes}
use ruwren.Find.{shift_table, mem_equal, slide, string_find}
use ruwren.Find.Shifts.{IsCovered}
use ruwren.Find.Search.{First, string_find-First}

abbrev haystack : List ℕ
haystack = codes "hello world, hello"

abbrev needle : List ℕ
needle = codes "lo"

second_match : string_find haystack needle 4 ≡ some (some 16)
unfolding shift_table mem_equal slide string_find
second_match = refl

-- A check of every byte of a string.
covered : (s : List ℕ) → passes_below (λ k. ltb (get_or s k 0) 255) (length s) ≡ true → IsCovered s
covered s all k less =
    ltb→lt (get_or s k 0) 255
      (passes_below-passes (λ i. ltb (get_or s i 0) 255) k (length s) less all)

haystack-IsCovered : IsCovered haystack
unfolding passes_below
haystack-IsCovered = covered haystack refl

needle-IsCovered : IsCovered needle
unfolding passes_below
needle-IsCovered = covered needle refl

string_find-First_example : First haystack needle 4 (string_find haystack needle 4)
string_find-First_example =
    string_find-First haystack needle 4 haystack-IsCovered needle-IsCovered (omega arith)
