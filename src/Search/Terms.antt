-- ===== src/Search/Terms.antt =====
-- `normalizeSearchTerm` and `tokenizeText`.
use vault_drive.Base.{
  ℕ, zero, suc, ◌-◌, Bool, true, false, not, ◌&&◌, ◌||◌, Option, none, some, List, [], ◌∷◌, ◌++◌,
  map, filter, ltb, leb, if◌then◌else◌, min, length, take, is_empty, ◌==◌, number_eq, list_eq,
}
use vault_drive.Base.JsSet.{add, add_all}
use vault_drive.Base.JsText.{Text, split, is_space, is_digit, is_word, trim}

-- `.replace(/[\u0300-\u036f]/g, "")`
abbrev pub strip_marks : Text → Text
strip_marks = filter (λ c. not (leb 0x300 c && leb c 0x36f))

-- `.replace(/[$€¥£#,]/g, "")`
abbrev pub strip_currency : Text → Text
strip_currency =
    filter (λ c. not (c == b'$' || c == 8364 || c == 165 || c == 163 || c == b'#' || c == b','))

-- `.replace(/[^\w\s]/g, " ")`
abbrev pub blank_punctuation : Text → Text
blank_punctuation = map (λ c. if is_word c || is_space c then c else b' ')

-- `.replace(/\s+/g, " ")`; the flag says that the last code unit was a space.
unfoldable pub collapse_from : Bool → Text → Text
unfolding is_space
collapse_from after_space [] = []
collapse_from after_space (c ∷ s) =
    let in_run = collapse_from true s in
    let in_word = collapse_from false s in
    if is_space c then (if after_space then in_run else b' ' ∷ in_run) else c ∷ in_word

abbrev pub has_digit_next : Text → Bool
has_digit_next [] = false
has_digit_next (c ∷ s) = is_digit c

-- `text.match(/\d+(?:[.,]\d+)*/g)`: `num` is the number that is being read.
unfoldable pub match_numbers : Option Text → Text → List Text
unfolding is_digit
match_numbers none [] = []
match_numbers (some num) [] = num ∷ []
match_numbers none (c ∷ s) =
    let starts = match_numbers (some (c ∷ [])) s in
    let outside = match_numbers none s in if is_digit c then starts else outside
match_numbers (some num) (c ∷ s) =
    let goes_on = match_numbers (some (num ++ c ∷ [])) s in
    let ends = match_numbers none s in
    if is_digit c || (c == b'.' || c == b',') && has_digit_next s then goes_on else num ∷ ends

-- The loop that adds each token with its prefixes of three code units and more.
unfoldable pub prefixes : ℕ → ℕ → Text → List Text
prefixes zero len token = []
prefixes (suc left) len token = take len token ∷ prefixes left (suc len) token

abbrev pub token_terms : Text → List Text
token_terms token =
    if ltb 3 (length token) then token ∷ prefixes (min (length token) 8 - 2) 3 token else token ∷ []

unfoldable pub add_tokens : List Text → List Text → List Text
unfolding prefixes
add_tokens [] set = set
add_tokens (token ∷ tokens) set = add_tokens tokens (add_all (token_terms token) set)

unfoldable pub add_numbers : List Text → List Text → List Text
add_numbers [] set = set
add_numbers (num ∷ numbers) set =
    let clean_num = filter is_digit num in
    add_numbers numbers (if ltb 0 (length clean_num) then add clean_num set else set)

module _ (lower nfd : Text → Text) where
  unfoldable pub normalize_search_term : Text → Text
  unfolding collapse_from
  normalize_search_term str =
      if is_empty str
      then []
      else trim
          (collapse_from false (blank_punctuation (strip_currency (strip_marks (nfd (lower str))))))

  -- `norm.split(" ").filter((t) => t.length > 0)`
  unfoldable pub raw_tokens : Text → List Text
  raw_tokens norm = filter (λ t. ltb 0 (length t)) (split b' ' norm)

  unfoldable pub tokenize_text : Text → List Text
  unfolding normalize_search_term raw_tokens match_numbers add_tokens add_numbers
  tokenize_text text =
      let norm = normalize_search_term text in
      if is_empty norm
      then []
      else add_numbers (match_numbers none text) (add_tokens (raw_tokens norm) [])
