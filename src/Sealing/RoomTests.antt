-- ===== src/Sealing/RoomTests.antt =====
-- A key and a text that reach the other member of a room, and the instance of the theorem.
use vault_drive.Base.{◌≡◌, refl, [], ◌∷◌, ◌++◌, ok, arith}
use vault_drive.Base.JsText.{units}
use vault_drive.Sealing.{Bytes}
use vault_drive.Sealing.Hex.{bytes_to_hex}
use vault_drive.Sealing.Envelope.{full_access}
use vault_drive.Sealing.StandIn.{ToyKey, tag, toy, toy_key, toy-Documented}
use vault_drive.Sealing.Rooms.{
  WrappedEnvelope, encrypt_room_key_envelope, decrypt_room_key_envelope, encrypt_room_data,
  decrypt_room_data, rooms_open,
}

abbrev shared : ToyKey
shared = toy_key (1 ∷ 2 ∷ 3 ∷ []) full_access

abbrev room_key : ToyKey
room_key = toy_key (7 ∷ 8 ∷ 9 ∷ []) full_access

abbrev envelope : Bytes → WrappedEnvelope
envelope plain = record { ciphertext = bytes_to_hex (plain ++ tag); iv = bytes_to_hex (5 ∷ 6 ∷ []) }

key_sent :
    encrypt_room_key_envelope toy shared room_key (5 ∷ 6 ∷ []) ≡ ok (envelope (7 ∷ 8 ∷ 9 ∷ []))
unfolding encrypt_room_key_envelope
key_sent = refl

text_sent :
    encrypt_room_data toy room_key (units "hola") (5 ∷ 6 ∷ []) ≡ ok (envelope (units "hola"))
unfolding encrypt_room_data
text_sent = refl

rooms_open_example :
    (arrived : ToyKey) × (decrypt_room_key_envelope toy shared (envelope (7 ∷ 8 ∷ 9 ∷ []))
      ≡ ok arrived)
    × (toy-Documented.material arrived ≡ toy-Documented.material room_key)
    × (decrypt_room_data toy arrived (envelope (units "hola")) ≡ ok (units "hola"))
unfolding toy-Documented
rooms_open_example =
    rooms_open toy toy-Documented shared shared room_key (7 ∷ 8 ∷ 9 ∷ []) (5 ∷ 6 ∷ []) (5 ∷ 6 ∷ [])
      full_access (units "hola") (envelope (7 ∷ 8 ∷ 9 ∷ [])) (envelope (units "hola")) refl refl
      refl (omega arith) (omega arith) refl key_sent text_sent
