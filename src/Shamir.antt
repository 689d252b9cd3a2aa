-- ===== src/Shamir.antt =====
-- utils/shamir.ts of the client: Shamir's secret sharing over GF(256). A `Uint8Array` is a list of
-- numbers, a share is its `x` and its bytes, and what throws is an `Outcome`. The random bytes of
-- `crypto.getRandomValues` are a parameter: `random j` are the coefficients drawn for byte `j`.
pub mod Xor
pub mod Table
pub mod Field
pub mod Lagrange
pub mod Reconstruct
pub mod Split
pub mod RoundTrip
mod Tests
use Prim.Native.Nat.{bit_and, bit_xor}
use vault_drive.Base.{
  ℕ, zero, suc, ◌+◌, ◌-◌, ◌*◌, ◌%◌, Bool, ◌||◌, List, [], ◌∷◌, map, ltb, leb, eqb, if◌then◌else◌,
  get_or, length, get_elem?, take, Outcome, ok, throw, ◌>>=◌,
}

-- A typed array's read; the program reads in range only.
abbrev pub at : List ℕ → ℕ → ℕ
at t i = get_or (get_elem? t i) 0

-- A typed array's write: out of range it is ignored, and the value is cut to a byte.
unfoldable pub put : List ℕ → ℕ → ℕ → List ℕ
put [] i v = []
put (x ∷ t) zero v = (v % 256) ∷ t
put (x ∷ t) (suc i) v = x ∷ put t i v

-- `new Uint8Array(n)`
abbrev pub zeros : ℕ → List ℕ
zeros zero = []
zeros (suc n) = 0 ∷ zeros n

-- `(x << 1) ^ (x & 0x80 ? 0x11d : 0)`
unfoldable pub next_power : ℕ → ℕ
next_power x = bit_xor (x * 2) (if eqb (bit_and x 0x80) 0 then 0 else 0x11d)

pub record Tables : Type 0 where
  pub exp : List ℕ
  pub log : List ℕ

-- The loop that fills both tables: `left` rounds from index `i` on.
unfoldable pub fill_tables : ℕ → ℕ → ℕ → Tables → Tables
unfolding put next_power
fill_tables zero i x t = t
fill_tables (suc left) i x t =
    fill_tables left (suc i) (next_power x) (record { exp = put t.exp i x; log = put t.log x i })

unfoldable pub tables : Tables
unfolding fill_tables
tables =
    let t = fill_tables 255 0 1 (record { exp = zeros 256; log = zeros 256 }) in
    record t { exp = put t.exp 255 1 }

unfoldable pub gf_mul : ℕ → ℕ → ℕ
gf_mul a b =
    if eqb a 0 || eqb b 0 then 0 else at tables.exp ((at tables.log a + at tables.log b) % 255)

-- 255 is added before the subtraction, which stops at 0 here.
unfoldable pub gf_div : ℕ → ℕ → Outcome ℕ
gf_div a b =
    if eqb b 0
    then throw "Division by zero"
    else if eqb a 0
    then ok 0
    else ok (at tables.exp ((at tables.log a + 255 - at tables.log b) % 255))

pub record ShamirShare : Type 0 where
  pub x : ℕ
  pub y : List ℕ

-- The inner loop of the evaluation: the coefficients from `x^k` on, with `val` and `xPower`.
unfoldable pub eval_from : List ℕ → ℕ → ℕ → ℕ → ℕ
eval_from [] i val x_power = val
eval_from (c ∷ cs) i val x_power =
    let x_power' = gf_mul x_power i in eval_from cs i (bit_xor val (gf_mul c x_power')) x_power'

-- The polynomial with `poly[0]` = `c0` at `i`.
unfoldable pub eval_poly : ℕ → List ℕ → ℕ → ℕ
unfolding eval_from
eval_poly c0 cs i = eval_from cs i c0 1

-- `{ x: i, y: new Uint8Array(len) }` for `i`, `i + 1`, …, as many as `left`.
unfoldable pub blank_shares : ℕ → ℕ → ℕ → List ShamirShare
blank_shares len zero i = []
blank_shares len (suc left) i = record { x = i; y = zeros len } ∷ blank_shares len left (suc i)

-- The loop over `i` for byte `j`: `shares[i - 1].y[j] = val`.
unfoldable pub write_byte : ℕ → ℕ → List ℕ → ℕ → List ShamirShare → List ShamirShare
unfolding eval_poly put
write_byte j c0 cs i [] = []
write_byte j c0 cs i (s ∷ shares) =
    record s { y = put s.y j (eval_poly c0 cs i) } ∷ write_byte j c0 cs (suc i) shares

-- The random coefficients of byte `j`: none are drawn for a threshold of one.
unfoldable pub coefficients : (ℕ → List ℕ) → ℕ → ℕ → List ℕ
coefficients random t j = if ltb 1 t then random j else []

-- The loop over the secret's bytes from index `j` on.
unfoldable pub write_bytes : (ℕ → List ℕ) → ℕ → ℕ → List ℕ → List ShamirShare → List ShamirShare
unfolding write_byte coefficients
write_bytes random t j [] shares = shares
write_bytes random t j (s ∷ secret) shares =
    write_bytes random t (suc j) secret (write_byte j s (coefficients random t j) 1 shares)

unfoldable pub shamir_split : (ℕ → List ℕ) → List ℕ → ℕ → ℕ → Outcome (List ShamirShare)
unfolding write_bytes blank_shares
shamir_split random secret n t =
    if ltb t 1 || ltb n t || leb 256 n
    then throw "Invalid parameters: T must be >= 1, N >= T, and N < 256"
    else ok (write_bytes random t 0 secret (blank_shares (length secret) n 1))

-- The loop over `m` for one basis value: the abscissas from index `m` on.
unfoldable pub basis_from : ℕ → ℕ → ℕ → List ℕ → ℕ → Outcome ℕ
basis_from xk k m [] basis = ok basis
basis_from xk k m (xm ∷ xs) basis =
    let here = gf_div xm (bit_xor xk xm) >>= λ q. basis_from xk k (suc m) xs (gf_mul basis q) in
    let skip = basis_from xk k (suc m) xs basis in if eqb m k then skip else here

-- The loop over `k`: the basis values for the abscissas from index `k` on.
unfoldable pub bases_from : List ℕ → ℕ → List ℕ → Outcome (List ℕ)
unfolding basis_from
bases_from xs k [] = ok []
bases_from xs k (xk ∷ rest) = do
  basis ← basis_from xk k 0 xs 1
  later ← bases_from xs (suc k) rest
  ok ((basis % 256) ∷ later)

-- The interpolation of byte `j`.
unfoldable pub interpolate_from : List ShamirShare → List ℕ → ℕ → ℕ → ℕ
interpolate_from (s ∷ subset) (l ∷ ls) j val =
    interpolate_from subset ls j (bit_xor val (gf_mul (at s.y j) l))
interpolate_from _ _ j val = val

-- The secret's bytes `j`, `j + 1`, …, as many as `left`.
unfoldable pub secret_from : List ShamirShare → List ℕ → ℕ → ℕ → List ℕ
unfolding interpolate_from
secret_from subset l zero j = []
secret_from subset l (suc left) j =
    (interpolate_from subset l j 0 % 256) ∷ secret_from subset l left (suc j)

-- `subset[0].y.length`: with no share it is a `TypeError`.
unfoldable pub first_length : List ShamirShare → Outcome ℕ
first_length [] = throw "Cannot read properties of undefined (reading 'y')"
first_length (s ∷ subset) = ok (length s.y)

unfoldable pub shamir_reconstruct : List ShamirShare → ℕ → Outcome (List ℕ)
unfolding bases_from secret_from first_length
shamir_reconstruct shares t =
    if ltb (length shares) t then throw "Not enough shares to reconstruct" else do
      len ← first_length (take t shares)
      l ← bases_from (map (λ s. s.x) (take t shares)) 0 (map (λ s. s.x) (take t shares))
      ok (secret_from (take t shares) l len 0)
