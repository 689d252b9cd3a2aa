-- ===== src/Sealing/PemKeys.antt =====
-- utils/crypto.ts: a private key is the same key in both of its PEM forms.
use vault_drive.Base.{
  ℕ, ◌+◌, ◌≡◌, ◌≢◌, refl, ap, ap₂, ◌∙◌, true, false, some, [], ◌∷◌, ◌++◌, append-nil, append_assoc,
  length, drop, drop-add, take-append, drop-append, is_empty, All, ok, ◌>>=◌, number_eq, ==_refl,
  arith,
}
use vault_drive.Base.JsText.{Text, starts_with, index_of, is_space, trim, trim_start, trim_end}
use vault_drive.Sealing.{Bytes, WebCrypto}
use vault_drive.Sealing.Der.{wrap_pkcs1_private_key_as_pkcs8}
use vault_drive.Sealing.Pem.{
  remove_first, remove_spaces, pkcs8_header, pkcs8_footer, pkcs1_header, pkcs1_footer, pem_body,
  private_key_buffer, import_rsa_private_key,
}

-- A text in front of another is found there.
starts_with_front : (front s : Text) → starts_with (front ++ s) front ≡ true
unfolding starts_with
starts_with_front [] [] = refl
starts_with_front [] (c ∷ s) = refl
starts_with_front (c ∷ front) s = ground (arith, ==_refl c, starts_with_front front s)

index_of_front : (s needle : Text) → starts_with s needle ≡ true → index_of s needle ≡ some 0
unfolding index_of starts_with
index_of_front [] [] h = refl
index_of_front [] (c ∷ needle) h = cc h
index_of_front (c ∷ s) needle h = rw h refl

remove_first_front : (front s : Text) → remove_first front (front ++ s) ≡ s
unfolding remove_first
remove_first_front front s =
    rw (remove_first, index_of_front (front ++ s) front (starts_with_front front s))
      (drop-add 0 (length front) (front ++ s) ∙ drop-append front s)

-- A mark that begins with `d` is not found before the end of a body without `d`.
starts_with_other : (c d : ℕ) (s mark : Text) → c ≢ d → starts_with (c ∷ s) (d ∷ mark) ≡ false
unfolding starts_with
starts_with_other c d s mark h = ground (arith, number_eq.same_iff c d)

index_of_next :
    (c : ℕ) (s needle : Text) (i : ℕ)
    → starts_with (c ∷ s) needle ≡ false
    → index_of s needle ≡ some i
    → index_of (c ∷ s) needle ≡ some (i + 1)
unfolding index_of
index_of_next c s needle i h k = ground (arith, h, k)

index_of_behind :
    (d : ℕ) (mark body : Text)
    → All (λ c. c ≢ d) body
    → index_of (body ++ (d ∷ mark)) (d ∷ mark) ≡ some (length body)
index_of_behind d mark [] h =
    index_of_front (d ∷ mark) (d ∷ mark) (rw append-nil at (starts_with_front (d ∷ mark) []))
index_of_behind d mark (c ∷ body) (hc, h) = ground (
  arith,
  index_of_next c (body ++ (d ∷ mark)) (d ∷ mark) (length body)
      (starts_with_other c d (body ++ (d ∷ mark)) mark hc) (index_of_behind d mark body h),
)

remove_first_behind :
    (d : ℕ) (mark body : Text)
    → All (λ c. c ≢ d) body
    → remove_first (d ∷ mark) (body ++ (d ∷ mark)) ≡ body
unfolding remove_first
remove_first_behind d mark body h =
    let nothing : drop (length (d ∷ mark)) (d ∷ mark) ≡ [] =
      rw append-nil at (drop-append (d ∷ mark) []) in
    let behind : drop (length body + length (d ∷ mark)) (body ++ (d ∷ mark)) ≡ [] =
      drop-add (length body) (length (d ∷ mark)) (body ++ (d ∷ mark))
      ∙ ap (drop (length (d ∷ mark))) (drop-append body (d ∷ mark))
      ∙ nothing in
    rw (remove_first, index_of_behind d mark body h)
      (ap₂ (λ xs ys. xs ++ ys) (take-append body (d ∷ mark)) behind ∙ append-nil body)

-- Nothing is trimmed off a text between two units that are no blanks.
not_empty : (s : Text) (d : ℕ) (back : Text) → is_empty (s ++ (d ∷ back)) ≡ false
not_empty [] d back = refl
not_empty (c ∷ s) d back = refl

trim_end_next : (a : ℕ) (t : Text) → trim_end t ≡ t → is_empty t ≡ false → trim_end (a ∷ t) ≡ a ∷ t
unfolding trim_end
trim_end_next a t e n = rw e (ground (arith, n))

trim_end_behind :
    (s : Text) (d : ℕ) (back : Text)
    → trim_end (d ∷ back) ≡ d ∷ back
    → trim_end (s ++ (d ∷ back)) ≡ s ++ (d ∷ back)
trim_end_behind [] d back h = h
trim_end_behind (c ∷ s) d back h =
    trim_end_next c (s ++ (d ∷ back)) (trim_end_behind s d back h) (not_empty s d back)

-- A PEM text of one header, a body without dashes, and one footer.
abbrev pub pem_text : Text → Text → Text → Text
pem_text header body footer = header ++ (body ++ footer)

trim-pem_text :
    (header body : Text) (d : ℕ) (footer : Text)
    → trim_end (d ∷ footer) ≡ d ∷ footer
    → trim_start (pem_text header body (d ∷ footer)) ≡ pem_text header body (d ∷ footer)
    → trim (pem_text header body (d ∷ footer)) ≡ pem_text header body (d ∷ footer)
unfolding trim
trim-pem_text header body d footer he hs =
    let whole = append_assoc header body (d ∷ footer) in
    rw hs (rw whole at (trim_end_behind (header ++ body) d footer he))

buffer_of_pkcs8 :
    (w : WebCrypto) (pem trimmed : Text)
    → trim pem ≡ trimmed
    → starts_with trimmed pkcs8_header ≡ true
    → private_key_buffer w pem ≡ w.atob (pem_body pkcs8_header pkcs8_footer trimmed)
unfolding private_key_buffer
buffer_of_pkcs8 w pem trimmed e h = rw (e, h) refl

buffer_of_pkcs1 :
    (w : WebCrypto) (pem trimmed : Text)
    → trim pem ≡ trimmed
    → starts_with trimmed pkcs8_header ≡ false
    → starts_with trimmed pkcs1_header ≡ true
    → private_key_buffer w pem ≡ (
        w.atob (pem_body pkcs1_header pkcs1_footer trimmed) >>= λ key.
        ok (wrap_pkcs1_private_key_as_pkcs8 key))
unfolding private_key_buffer
buffer_of_pkcs1 w pem trimmed e h h' = rw (e, h, h') refl

module _ (w : WebCrypto) (body : Text) (no_dash : All (λ c. c ≢ b'-') body) where
  pem_body_lem :
      (header : Text) (mark : Text)
      → pem_body header (b'-' ∷ mark) (pem_text header body (b'-' ∷ mark)) ≡ remove_spaces body
  pem_body_lem header mark = ap remove_spaces (
      ap (remove_first (b'-' ∷ mark)) (remove_first_front header (body ++ (b'-' ∷ mark)))
      ∙ remove_first_behind b'-' mark body no_dash)

  pkcs8_buffer :
      private_key_buffer w (pem_text pkcs8_header body pkcs8_footer) ≡ w.atob (remove_spaces body)
  unfolding trim_start trim_end is_space
  pkcs8_buffer =
      buffer_of_pkcs8 w _ _ (trim-pem_text pkcs8_header body b'-' (drop 1 pkcs8_footer) refl refl)
        (starts_with_front pkcs8_header (body ++ pkcs8_footer))
      ∙ ap w.atob (pem_body_lem pkcs8_header (drop 1 pkcs8_footer))

  no_pkcs8 : starts_with (pem_text pkcs1_header body pkcs1_footer) pkcs8_header ≡ false
  unfolding starts_with
  no_pkcs8 = refl

  pkcs1_buffer :
      private_key_buffer w (pem_text pkcs1_header body pkcs1_footer)
      ≡ (w.atob (remove_spaces body) >>= λ key. ok (wrap_pkcs1_private_key_as_pkcs8 key))
  unfolding trim_start trim_end is_space
  pkcs1_buffer =
      buffer_of_pkcs1 w _ _ (trim-pem_text pkcs1_header body b'-' (drop 1 pkcs1_footer) refl refl)
        no_pkcs8 (starts_with_front pkcs1_header (body ++ pkcs1_footer))
      ∙ ap (λ (t : Text). w.atob t >>= λ key. ok (wrap_pkcs1_private_key_as_pkcs8 key))
          (pem_body_lem pkcs1_header (drop 1 pkcs1_footer))

-- A key imported from a PKCS#1 text is the key imported from the PKCS#8 text that holds it.
pub import_rsa_private_key_forms :
    (w : WebCrypto) (body1 body8 : Text) (key : Bytes)
    → All (λ c. c ≢ b'-') body1
    → All (λ c. c ≢ b'-') body8
    → w.atob (remove_spaces body1) ≡ ok key
    → w.atob (remove_spaces body8) ≡ ok (wrap_pkcs1_private_key_as_pkcs8 key)
    → import_rsa_private_key w (pem_text pkcs1_header body1 pkcs1_footer)
      ≡ import_rsa_private_key w (pem_text pkcs8_header body8 pkcs8_footer)
unfolding import_rsa_private_key
import_rsa_private_key_forms w body1 body8 key h1 h8 e1 e8 =
    rw (pkcs1_buffer w body1 h1, pkcs8_buffer w body8 h8, e1, e8) refl
