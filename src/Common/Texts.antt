-- ===== src/Common/Texts.antt =====
-- Go's `strings.TrimSpace`, `strings.ToLower`, `strings.Contains` and `strings.EqualFold` on texts.
use Prim.Native.Nat.{ℕ, ◌+◌}
use Prim.Native.Char.{code}
use Prim.Native.String.{String}
use mathlib.Core.Path.{◌≡◌, refl}
use mathlib.Core.Bool.{Bool, true, false, ◌&&◌, ◌||◌}
use mathlib.Core.Option.{Option, none, some}
use mathlib.Core.List.{List, [], ◌∷◌, map}
use senior_project.Common.Tests.{if◌then◌else◌, leb, ◌==◌}

abbrev pub codes : String → List ℕ
codes String.[] = []
codes (String.◌∷◌ c s) = code c ∷ codes s

-- `unicode.IsSpace`.
unfoldable pub is_space : ℕ → Bool
is_space c =
    leb 9 c && leb c 13
    || (c == 32
        || (c == 133
            || (c == 160
                || (c == 5760
                    || (leb 8192 c && leb c 8202
                        || (c == 8232
                            || (c == 8233 || (c == 8239 || (c == 8287 || c == 12288)))))))))

abbrev pub is_empty_text : String → Bool
is_empty_text String.[] = true
is_empty_text (String.◌∷◌ c s) = false

unfoldable pub trim_left : String → String
unfolding is_space
trim_left String.[] = ""
trim_left (String.◌∷◌ c s) =
    let rest = trim_left s in if is_space (code c) then rest else String.◌∷◌ c s

unfoldable pub trim_right : String → String
unfolding is_space
trim_right String.[] = ""
trim_right (String.◌∷◌ c s) =
    let rest = trim_right s in
    if is_space (code c) && is_empty_text rest then "" else String.◌∷◌ c rest

unfoldable pub trim_space : String → String
unfolding trim_left trim_right
trim_space s = trim_right (trim_left s)

-- A letter in lower case: A to Z, and the two letters outside ASCII whose lower case is an ASCII
-- letter. The other letters stay, which a comparison with an ASCII text does not tell.
unfoldable pub lower_code : ℕ → ℕ
lower_code c =
    if leb 65 c && leb c 90 then c + 32 else if c == 304 then 105 else if c == 8490 then 107 else c

abbrev pub lower_codes : String → List ℕ
lower_codes s = map lower_code (codes s)

abbrev pub same_codes : List ℕ → List ℕ → Bool
same_codes [] [] = true
same_codes (x ∷ xs) (y ∷ ys) = x == y && same_codes xs ys
same_codes _ _ = false

abbrev pub begins_with : List ℕ → List ℕ → Bool
begins_with [] xs = true
begins_with (p ∷ ps) [] = false
begins_with (p ∷ ps) (x ∷ xs) = p == x && begins_with ps xs

unfoldable pub contains_codes : List ℕ → List ℕ → Bool
contains_codes [] part = begins_with part []
contains_codes (x ∷ xs) part = begins_with part (x ∷ xs) || contains_codes xs part

-- `strings.TrimRight(s, "/")`
unfoldable pub trim_slashes : String → String
trim_slashes String.[] = ""
trim_slashes (String.◌∷◌ c s) =
    let rest = trim_slashes s in
    if code c == 47 && is_empty_text rest then "" else String.◌∷◌ c rest

-- What follows the prefix, where the text has it: `strings.HasPrefix` and `strings.TrimPrefix`.
unfoldable pub strip_prefix : String → String → Option String
strip_prefix String.[] s = some s
strip_prefix (String.◌∷◌ c p) String.[] = none
strip_prefix (String.◌∷◌ c p) (String.◌∷◌ e s) =
    let rest = strip_prefix p s in if code c == code e then rest else none

-- What follows the first place at which the part stands: `strings.Index` and the slice behind it.
unfoldable pub after_first : String → String → Option String
unfolding strip_prefix
after_first part String.[] = strip_prefix part ""
after_first part (String.◌∷◌ c s) =
    let rest = after_first part s in
    elim (strip_prefix part (String.◌∷◌ c s)) [ some t ↦ some t | none ↦ rest ]

-- `strings.ToLower(s) == t`, for an ASCII `t`.
abbrev pub lower_is : String → String → Bool
lower_is s t = same_codes (lower_codes s) (codes t)

test-trim : trim_space " \t a b  " ≡ "a b"
unfolding trim_space trim_left trim_right is_space
test-trim = refl

test-lower : lower_is "ApproVE" "approve" ≡ true
unfolding lower_code
test-lower = refl
