-- ===== src/Sealing/Der.antt =====
-- utils/crypto.ts: a PKCS#1 key in the DER structure that the browser imports, and a reader of DER
-- after which the encoding is shown right.
use Prim.Native.Nat.{bit_or}
use vault_drive.Base.{
  ℕ, zero, suc, ◌+◌, ◌-◌, ◌*◌, ◌/◌, ◌%◌, ◌^◌, ◌<◌, ◌≤◌, ◌≡◌, ◌⊎◌, inl, inr, Option, none, some, [],
  ◌∷◌, ◌++◌, append_assoc, append-nil, length, take, drop, leb, ltb, if◌then◌else◌, ◌==◌, number_eq,
  list_eq, arith, take-append, drop-append, length-append,
}
use vault_drive.Sealing.{Bytes}

-- `remaining >>= 8` on 32 bits. A negative number ends the loop as 0 does.
abbrev pub shift_right_8 : ℕ → ℕ
shift_right_8 remaining =
    let word = remaining % 2 ^ 32 in if ltb word (2 ^ 31) then word / 256 else 0

-- The loop of `encodeDerLength`; the first argument is how many rounds it may make.
unfoldable pub length_bytes : ℕ → ℕ → Bytes → Bytes
length_bytes zero remaining bytes = bytes
length_bytes (suc fuel) remaining bytes =
    let more = length_bytes fuel (shift_right_8 remaining) ((remaining % 256) ∷ bytes) in
    if remaining == 0 then bytes else more

unfoldable pub encode_der_length : ℕ → Bytes
unfolding length_bytes
encode_der_length n =
    let bytes = length_bytes 5 n [] in
    if ltb n 0x80 then n ∷ [] else bit_or 0x80 (length bytes) ∷ bytes

unfoldable pub encode_der : ℕ → Bytes → Bytes
unfolding encode_der_length
encode_der tag value = (tag ∷ []) ++ encode_der_length (length value) ++ value

abbrev pub version : Bytes
version = 0x02 ∷ 0x01 ∷ 0x00 ∷ []

abbrev pub rsa_encryption_algorithm : Bytes
rsa_encryption_algorithm =
    0x30 ∷ 0x0d ∷ 0x06 ∷ 0x09 ∷ 0x2a ∷ 0x86 ∷ 0x48 ∷ 0x86 ∷ 0xf7 ∷ 0x0d ∷ 0x01 ∷ 0x01 ∷ 0x01 ∷ 0x05
    ∷ 0x00 ∷ []

unfoldable pub wrap_pkcs1_private_key_as_pkcs8 : Bytes → Bytes
unfolding encode_der
wrap_pkcs1_private_key_as_pkcs8 pkcs1_key =
    encode_der 0x30 (version ++ rsa_encryption_algorithm ++ encode_der 0x04 pkcs1_key)

-- A number of base 256, the highest digit first.
abbrev pub big_endian : ℕ → Bytes → ℕ
big_endian n [] = n
big_endian n (b ∷ bytes) = big_endian (n * 256 + b) bytes

-- X.690, 8.1.3: a length below 128 is one byte; else the first byte is 128 and how many bytes the
-- length has.
unfoldable pub read_length : Bytes → Option (ℕ × Bytes)
read_length [] = none
read_length (b ∷ bytes) =
    if ltb b 128
    then some (b, bytes)
    else if leb (b - 128) (length bytes)
    then some (big_endian 0 (take (b - 128) bytes), drop (b - 128) bytes)
    else none

-- A value with this tag, and what stands behind it.
unfoldable pub read_value : ℕ → Bytes → Option (Bytes × Bytes)
unfolding read_length
read_value tag [] = none
read_value tag (t ∷ bytes) =
    if t == tag
    then elim (read_length bytes) [
      | none ↦ none
      | some (n, rest) ↦ if leb n (length rest) then some (take n rest, drop n rest) else none
    ]
    else none

-- RFC 5208: a sequence of the version 0, the algorithm rsaEncryption without parameters, and the
-- key as an octet string, and nothing behind.
unfoldable pub read_pkcs8 : Bytes → Option Bytes
unfolding read_value
read_pkcs8 bytes = elim (read_value 0x30 bytes) [
  | none ↦ none
  | some (fields, behind) ↦ elim (read_value 0x02 fields) [
    | none ↦ none
    | some (number, rest) ↦ elim (read_value 0x30 rest) [
      | none ↦ none
      | some (algorithm, rest') ↦ elim (read_value 0x04 rest') [
        | none ↦ none
        | some (key, rest'') ↦
            if behind ++ rest'' == []
            then if number == 0x00 ∷ []
              then if algorithm == drop 2 rsa_encryption_algorithm then some key else none
              else none
            else none
      ]
    ]
  ]
]

length_size : (n : ℕ) → (n < 128) ⊎ ((n < 256) ⊎ ((n < 65536) ⊎ ((n < 16777216) ⊎ (16777216 ≤ n))))
length_size n = ground arith

read_length-encode_der_length :
    (n : ℕ) (rest : Bytes) → n < 2 ^ 31 → read_length (encode_der_length n ++ rest) ≡ some (n, rest)
unfolding read_length encode_der_length length_bytes
read_length-encode_der_length n rest h = elim (length_size n) [
  | inl s ↦ ground arith
  | inr (inl s) ↦ ground arith
  | inr (inr (inl s)) ↦ ground arith
  | inr (inr (inr (inl s))) ↦ ground arith
  | inr (inr (inr (inr s))) ↦ ground arith
]

pub length-encode_der_length : (n : ℕ) → n < 2 ^ 31 → length (encode_der_length n) ≤ 5
unfolding encode_der_length length_bytes
length-encode_der_length n h = ground arith

-- A reader of DER finds the value that `encode_der` wrote, and leaves what follows it.
read_value-encode_der :
    (tag : ℕ) (value rest : Bytes)
    → length value < 2 ^ 31
    → read_value tag (encode_der tag value ++ rest) ≡ some (value, rest)
unfolding read_value encode_der
read_value-encode_der tag value rest h =
    let regroup : (encode_der_length (length value) ++ value) ++ rest
        ≡ encode_der_length (length value) ++ (value ++ rest) =
      append_assoc (encode_der_length (length value)) value rest in
    ground (
      arith,
      regroup,
      number_eq.same_iff tag tag,
      read_length-encode_der_length (length value) (value ++ rest) h,
      length-append value rest,
      take-append value rest,
      drop-append value rest,
    )

length-encode_der :
    (tag : ℕ) (value : Bytes)
    → length value < 2 ^ 31
    → length (encode_der tag value) ≤ length value + 6
unfolding encode_der
length-encode_der tag value h = ground (
  arith,
  length-append (encode_der_length (length value)) value,
  length-encode_der_length (length value) h,
)

-- The two fields in front of the key are read off.
read_version : (rest : Bytes) → read_value 0x02 (version ++ rest) ≡ some (0x00 ∷ [], rest)
unfolding read_value read_length
read_version rest = ground arith

read_algorithm :
    (rest : Bytes)
    → read_value 0x30 (rsa_encryption_algorithm ++ rest)
      ≡ some (drop 2 rsa_encryption_algorithm, rest)
unfolding read_value read_length
read_algorithm rest = ground arith

-- The structure around a key of less than 2 ^ 31 - 64 bytes is PKCS#8 with that key in it.
pub read_pkcs8-wrap_pkcs1_private_key_as_pkcs8 :
    (pkcs1_key : Bytes)
    → length pkcs1_key + 64 ≤ 2 ^ 31
    → read_pkcs8 (wrap_pkcs1_private_key_as_pkcs8 pkcs1_key) ≡ some pkcs1_key
unfolding read_pkcs8 wrap_pkcs1_private_key_as_pkcs8
read_pkcs8-wrap_pkcs1_private_key_as_pkcs8 pkcs1_key h =
    let key = encode_der 0x04 pkcs1_key in
    let inner = version ++ rsa_encryption_algorithm ++ key in
    let size : length key ≤ length pkcs1_key + 6 = length-encode_der 0x04 pkcs1_key (omega arith) in
    let outer : read_value 0x30 (encode_der 0x30 inner ++ []) ≡ some (inner, []) =
      read_value-encode_der 0x30 inner [] (omega (arith, size)) in
    let octets : read_value 0x04 (key ++ []) ≡ some (pkcs1_key, []) =
      read_value-encode_der 0x04 pkcs1_key [] (omega arith) in
    ground (
      arith,
      rw append-nil at outer,
      rw append-nil at octets,
      read_version (rsa_encryption_algorithm ++ key),
      read_algorithm key,
    )
