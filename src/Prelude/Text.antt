-- ===== src/Prelude/Text.antt =====
-- Python's tests on texts, character by character: `len`, `split` at a character, `startswith`,
-- `endswith` and `in`.
use Prim.Native.Nat.{ℕ, suc}
use Prim.Native.Char.{Char, code}
use Prim.Native.String.{String}
use mathlib.Core.Path.{◌≡◌, refl}
use mathlib.Core.Bool.{Bool, true, false, ◌&&◌, ◌||◌}
use mathlib.Core.List.{List, [], ◌∷◌}
use rules_enrichment_daemon.Prelude.Tests.{◌==◌, if◌then◌else◌}

-- the code points of a text
abbrev pub codes : String → List ℕ
codes String.[] = []
codes (String.◌∷◌ c s) = code c ∷ codes s

-- `a.startswith(b)` on code points
unfoldable pub begins : List ℕ → List ℕ → Bool
begins xs [] = true
begins [] (y ∷ ys) = false
begins (x ∷ xs) (y ∷ ys) = x == y && begins xs ys

-- `b in a` on code points
unfoldable pub occurs : List ℕ → List ℕ → Bool
unfolding begins
occurs [] ys = begins [] ys
occurs (x ∷ xs) ys = begins (x ∷ xs) ys || occurs xs ys

-- the same code points
unfoldable pub same : List ℕ → List ℕ → Bool
same [] [] = true
same (x ∷ xs) (y ∷ ys) = x == y && same xs ys
same _ _ = false

-- `a.endswith(b)` on code points: some suffix of `a` is `b`
unfoldable pub ends : List ℕ → List ℕ → Bool
unfolding same
ends [] ys = same [] ys
ends (x ∷ xs) ys = same (x ∷ xs) ys || ends xs ys

unfoldable pub starts_with : String → String → Bool
unfolding begins
starts_with s t = begins (codes s) (codes t)

unfoldable pub ends_with : String → String → Bool
unfolding ends
ends_with s t = ends (codes s) (codes t)

-- `t in s`
unfoldable pub contains_text : String → String → Bool
unfolding occurs
contains_text s t = occurs (codes s) (codes t)

-- `len(s)`
unfoldable pub count_chars : String → ℕ
count_chars String.[] = 0
count_chars (String.◌∷◌ c s) = suc (count_chars s)

-- a character in front of the first part
abbrev push : Char → List String → List String
push c [] = String.◌∷◌ c String.[] ∷ []
push c (t ∷ ts) = String.◌∷◌ c t ∷ ts

-- `s.split(".")`: never empty
unfoldable pub split_dots : String → List String
split_dots String.[] = String.[] ∷ []
split_dots (String.◌∷◌ c s) =
    let rest = split_dots s in if code c == b'.' then String.[] ∷ rest else push c rest

split_path : split_dots "a.bc." ≡ "a" ∷ "bc" ∷ "" ∷ []
unfolding split_dots
split_path = refl

text_tests :
    (starts_with "Via Roma 10" "Via" ≡ true)
    × (ends_with "Via Roma 10" "10" ≡ true)
    × (contains_text "Via Roma 10" "Roma" ≡ true)
    × (contains_text "Via" "Roma" ≡ false)
unfolding starts_with ends_with contains_text
text_tests = (refl, refl, refl, refl)
