-- ===== src/Base/Truthy.antt =====
-- JavaScript's truth values of optional texts and numbers: absent, empty and zero are false.
use Prim.Native.Nat.{ℕ}
use Prim.Native.String.{String}
use mathlib.Core.Path.{◌≡◌}
use mathlib.Core.Logic.{◌↔◌, ◌≢◌}
use mathlib.Core.Bool.{Bool, true, false, not}
use mathlib.Core.Option.{Option, none, some}
use native.Mathlib.Omega.{arith}
use vault_drive.Base.Tests.{eqb, if◌then◌else◌}
use vault_drive.Base.Keys.{◌==◌, text_eq}

abbrev pub truthy_text : String → Bool
truthy_text s = not (s == "")

abbrev pub truthy : Option String → Bool
truthy none = false
truthy (some s) = truthy_text s

abbrev pub truthy_number : Option ℕ → Bool
truthy_number none = false
truthy_number (some n) = not (eqb n 0)

-- `o === true`
abbrev pub is_true : Option Bool → Bool
is_true none = false
is_true (some b) = b

-- `o || d`
abbrev pub or_text : Option String → String → String
or_text none d = d
or_text (some s) d = if truthy_text s then s else d

pub truthy_text_iff : (s : String) → (truthy_text s ≡ true) ↔ (s ≢ "")
truthy_text_iff s = ground (arith, text_eq.same_iff s "")
