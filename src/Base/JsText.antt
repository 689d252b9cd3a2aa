-- ===== src/Base/JsText.antt =====
-- JavaScript texts as lists of UTF-16 code units, for code that looks inside them.
use Prim.Native.Nat.{ℕ, zero, suc, ◌+◌, ◌-◌, ◌/◌, ◌%◌}
use Prim.Native.Char.{code}
use Prim.Native.String.{String}
use mathlib.Core.Path.{◌≡◌, refl}
use native.Mathlib.Omega.{arith}
use mathlib.Core.Bool.{Bool, true, false, ◌&&◌, ◌||◌}
use mathlib.Core.List.{List, [], ◌∷◌, ◌++◌}
use mathlib.Core.Option.{Option, none, some}
use vault_drive.Base.Tests.{ltb, leb, if◌then◌else◌, is_some}
use vault_drive.Base.Lists.{take, drop, is_empty}
use vault_drive.Base.Keys.{◌==◌, number_eq, list_eq}

abbrev pub Text : Type 0
Text = List ℕ

-- `s.slice(from, to)` for positions that are not negative.
abbrev pub slice : ℕ → ℕ → Text → Text
slice from to s = take (to - from) (drop from s)

unfoldable pub starts_with : Text → Text → Bool
starts_with s [] = true
starts_with [] (c ∷ cs) = false
starts_with (d ∷ s) (c ∷ cs) = d == c && starts_with s cs

-- `s.indexOf(needle)`, with `none` for -1.
unfoldable pub index_of : Text → Text → Option ℕ
unfolding starts_with
index_of [] needle = if is_empty needle then some 0 else none
index_of (c ∷ s) needle =
    let rest = index_of s needle in
    if starts_with (c ∷ s) needle then some 0 else elim rest [ none ↦ none | some i ↦ some (suc i) ]

unfoldable pub includes : Text → Text → Bool
unfolding index_of
includes s needle = is_some (index_of s needle)

-- `s.split(separator)` for a separator of one code unit; `part` is what was read of this part.
unfoldable pub split_from : ℕ → Text → Text → List Text
split_from separator part [] = part ∷ []
split_from separator part (c ∷ s) =
    let cut = split_from separator [] s in
    let longer = split_from separator (part ++ c ∷ []) s in
    if c == separator then part ∷ cut else longer

unfoldable pub split : ℕ → Text → List Text
unfolding split_from
split separator s = split_from separator [] s

-- `parts.join(separator)`
unfoldable pub join : ℕ → List Text → Text
join separator [] = []
join separator (p ∷ []) = p
join separator (p ∷ q ∷ parts) = p ++ separator ∷ join separator (q ∷ parts)

-- `\s`, which is what `trim` removes as well.
unfoldable pub is_space : ℕ → Bool
is_space c =
    leb 9 c && leb c 13
    || c == 32
    || c == 160
    || c == 5760
    || leb 8192 c && leb c 8202
    || c == 8232
    || c == 8233
    || c == 8239
    || c == 8287
    || c == 12288
    || c == 65279

unfoldable pub is_digit : ℕ → Bool
is_digit c = leb 48 c && leb c 57

-- `\w`
unfoldable pub is_word : ℕ → Bool
unfolding is_digit
is_word c = is_digit c || leb 65 c && leb c 90 || leb 97 c && leb c 122 || c == 95

unfoldable pub trim_start : Text → Text
unfolding is_space
trim_start [] = []
trim_start (c ∷ s) = let rest = trim_start s in if is_space c then rest else c ∷ s

unfoldable pub trim_end : Text → Text
unfolding is_space
trim_end [] = []
trim_end (c ∷ s) = let rest = trim_end s in if is_space c && is_empty rest then [] else c ∷ rest

unfoldable pub trim : Text → Text
unfolding trim_start trim_end
trim s = trim_end (trim_start s)

-- `s < t`, by code units.
unfoldable pub text_less : Text → Text → Bool
text_less s [] = false
text_less [] (d ∷ t) = true
text_less (c ∷ s) (d ∷ t) = ltb c d || c == d && text_less s t

pub text_less_asymmetric : (s t : Text) → text_less s t ≡ true → text_less t s ≡ false
unfolding text_less
text_less_asymmetric [] [] h = refl
text_less_asymmetric [] (d ∷ t) h = refl
text_less_asymmetric (c ∷ s) [] h = cc
text_less_asymmetric (c ∷ s) (d ∷ t) h = ground (arith, text_less_asymmetric s t)

-- What is not less is transitive.
pub text_less_trans :
    (s t u : Text) → text_less t s ≡ false → text_less u t ≡ false → text_less u s ≡ false
unfolding text_less
text_less_trans [] t u h k = ground (arith, h, k)
text_less_trans (c ∷ s) [] u h k = cc
text_less_trans (c ∷ s) (d ∷ t) [] h k = cc
text_less_trans (c ∷ s) (d ∷ t) (e ∷ u) h k = ground (arith, text_less_trans s t u)

-- The code units of a text whose characters are one unit each.
abbrev pub units : String → Text
units String.[] = []
units (String.◌∷◌ c s) = code c ∷ units s

-- `String(n)` of a whole number; `fuel` is larger than the number.
unfoldable pub decimal_from : ℕ → ℕ → Text → Text
decimal_from zero n digits = digits
decimal_from (suc fuel) n digits =
    let more = decimal_from fuel (n / 10) ((48 + n % 10) ∷ digits) in
    if n / 10 == 0 then (48 + n % 10) ∷ digits else more

unfoldable pub decimal : ℕ → Text
unfolding decimal_from
decimal n = decimal_from (suc n) n []
