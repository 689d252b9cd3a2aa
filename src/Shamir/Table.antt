-- ===== src/Shamir/Table.antt =====
-- The facts about the two tables that the field laws rest on, by evaluating them once.
use Prim.Native.Nat.{bit_xor}
use vault_drive.Base.{
  ℕ, zero, suc, ◌+◌, ◌-◌, ◌%◌, ◌<◌, Bool, true, ◌&&◌, List, eqb, ltb, ◌≡◌, refl, arith,
}
use vault_drive.Shamir.{at, tables, next_power, Tables}

-- A test on the numbers up to `k`, with `k` left out.
unfoldable pub holds_up_to : (ℕ → Bool) → ℕ → Bool
holds_up_to test zero = true
holds_up_to test (suc k) = holds_up_to test k && test k

pub holds_up_to_lem :
    (test : ℕ → Bool) (k n : ℕ) → holds_up_to test k ≡ true → n < k → test n ≡ true
unfolding holds_up_to
holds_up_to_lem test zero n held below = absurd (omega arith)
holds_up_to_lem test (suc k) n held below = ground (arith, holds_up_to_lem test k n)

-- One entry of the table of powers: a byte, not zero, found again by `log`, and followed by twice
-- itself.
exp_entry : List ℕ → List ℕ → ℕ → Bool
exp_entry exp log i =
    ltb (at exp i) 256
    && ltb 0 (at exp i)
    && eqb (at log (at exp i)) i
    && eqb (at exp ((i + 1) % 255)) (next_power (at exp i))

log_entry : List ℕ → List ℕ → ℕ → Bool
log_entry exp log a = ltb (at log (a + 1)) 255 && eqb (at exp (at log (a + 1))) (a + 1)

entries : Tables → Bool
entries t = holds_up_to (exp_entry t.exp t.log) 255 && holds_up_to (log_entry t.exp t.log) 255

entries_hold : entries tables ≡ true
unfolding entries tables exp_entry log_entry next_power holds_up_to
entries_hold = refl

exp_facts : (i : ℕ) → i < 255 → exp_entry tables.exp tables.log i ≡ true
exp_facts i h =
    holds_up_to_lem (exp_entry tables.exp tables.log) 255 i
      (unfold entries in ground (arith, entries_hold)) h

log_facts : (a : ℕ) → a < 255 → log_entry tables.exp tables.log a ≡ true
log_facts a h =
    holds_up_to_lem (log_entry tables.exp tables.log) 255 a
      (unfold entries in ground (arith, entries_hold)) h

module _ (i : ℕ) (h : i < 255) where
  pub exp-lt : at tables.exp i < 256
  unfolding exp_entry
  exp-lt = ground (arith, exp_facts i h)

  pub exp-pos : 0 < at tables.exp i
  unfolding exp_entry
  exp-pos = ground (arith, exp_facts i h)

  pub log-exp : at tables.log (at tables.exp i) ≡ i
  unfolding exp_entry
  log-exp = ground (arith, exp_facts i h)

  pub exp_next : at tables.exp ((i + 1) % 255) ≡ next_power (at tables.exp i)
  unfolding exp_entry
  exp_next = ground (arith, exp_facts i h)

log-suc-lt : (b : ℕ) → b < 255 → at tables.log (b + 1) < 255
unfolding log_entry
log-suc-lt b h = ground (arith, log_facts b h)

exp-log-suc : (b : ℕ) → b < 255 → at tables.exp (at tables.log (b + 1)) ≡ b + 1
unfolding log_entry
exp-log-suc b h = ground (arith, log_facts b h)

module _ (a : ℕ) (pos : 0 < a) (h : a < 256) where
  back : a - 1 + 1 ≡ a
  back = omega arith

  pub log-lt : at tables.log a < 255
  log-lt = rw back at (log-suc-lt (a - 1) (omega arith))

  pub exp-log : at tables.exp (at tables.log a) ≡ a
  exp-log = rw back at (exp-log-suc (a - 1) (omega arith))

-- Doubling is linear, and stays in a byte: all pairs of bytes are checked.
double_row : ℕ → ℕ → Bool
double_row a b = eqb (next_power (bit_xor a b)) (bit_xor (next_power a) (next_power b))

double_rows : ℕ → Bool
double_rows a = ltb (next_power a) 256 && holds_up_to (double_row a) 256

doubles : holds_up_to double_rows 256 ≡ true
unfolding double_rows double_row next_power holds_up_to
doubles = refl

pub next_power-lt : (a : ℕ) → a < 256 → next_power a < 256
unfolding double_rows
next_power-lt a h = ground (arith, holds_up_to_lem double_rows 256 a doubles h)

pub next_power-bit_xor :
    (a b : ℕ) → a < 256 → b < 256 → next_power (bit_xor a b) ≡ bit_xor (next_power a) (next_power b)
unfolding double_rows double_row
next_power-bit_xor a b h k =
    ground
      (arith, holds_up_to_lem double_rows 256 a doubles h, holds_up_to_lem (double_row a) 256 b)

pub exp_first : at tables.exp 0 ≡ 1
unfolding tables next_power
exp_first = refl

pub log_one : at tables.log 1 ≡ 0
unfolding tables next_power
log_one = refl
