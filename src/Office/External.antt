-- ===== src/Office/External.antt =====
-- The expression by which `parseXmlDocument` finds external entities.
use vault_drive.Base.{
  ℕ, Bool, true, false, not, ◌&&◌, ◌||◌, Option, none, some, [], ◌∷◌, map, head?, drop, ◌==◌,
  number_eq,
}
use vault_drive.Base.JsText.{Text, units, trim, trim_start, starts_with, is_space, is_word}
use vault_drive.Transfer.Failure.{ascii_lower}
use vault_drive.Office.Delimited.{strip_bom}

-- `\b` after a word.
abbrev pub ends_word : Text → Bool
ends_word [] = true
ends_word (c ∷ s) = not (is_word c)

-- `[^>]*\[`
unfoldable pub opens_subset : Text → Bool
opens_subset [] = false
opens_subset (c ∷ s) = let later = opens_subset s in c == b'[' || not (c == b'>') && later

abbrev pub is_quote : Option ℕ → Bool
is_quote none = false
is_quote (some c) = c == b'"' || c == b'\''

-- `\s+["']`
abbrev pub quoted_after_space : Text → Bool
quoted_after_space [] = false
quoted_after_space (c ∷ s) = is_space c && is_quote (head? (trim_start s))

-- The alternatives of the expression, tried where `s` starts; `after_word` says that a word's character
-- stands before.
unfoldable pub starts_external : Bool → Text → Bool
unfolding starts_with opens_subset trim_start is_word is_space
starts_external after_word s =
    starts_with s (units "<!entity") && ends_word (drop 8 s)
    || starts_with s (units "<!doctype") && ends_word (drop 9 s) && opens_subset (drop 9 s)
    || not after_word && starts_with s (units "system") && quoted_after_space (drop 6 s)
    || not after_word && starts_with s (units "public") && quoted_after_space (drop 6 s)

unfoldable pub external_from : Bool → Text → Bool
unfolding starts_external is_word
external_from after_word [] = false
external_from after_word (c ∷ s) =
    let later = external_from (is_word c) s in starts_external after_word (c ∷ s) || later

-- The test of the DTD's and the external entities' expression, which ignores case.
unfoldable pub declares_external : Text → Bool
unfolding external_from
declares_external s = external_from false (map ascii_lower s)

-- `rawXml.replace(/^\uFEFF/, "").trim()`
abbrev pub clean_xml : Text → Text
clean_xml raw = trim (strip_bom raw)
