-- ===== src/Tools/Hex.antt =====
-- software/tools/bin2hex.c and software/tools/hex2bin.c, in the C locale.
use infnoise.Base.{
  ℕ, zero, suc, ◌+◌, ◌-◌, ◌/◌, ◌%◌, ◌<◌, ◌≡◌, refl, ap, ◌∙◌, Bool, true, false, ◌&&◌, ◌||◌, List,
  [], ◌∷◌, Option, none, some, leb, ltb, ◌==◌, if◌then◌else◌, bit_or, u8, ◌<<<◌, arith, All, length,
}
use infnoise.Bits.{bit_or_fields}

abbrev newline : ℕ
newline = 10

-- A digit of `%02x`.
unfoldable pub hex_char : ℕ → ℕ
hex_char n = if ltb n 10 then 48 + n else 87 + n

-- The loop of `main`, with what was counted so far.
unfoldable pub bin2hex : ℕ → List ℕ → List ℕ
bin2hex count [] = newline ∷ []
bin2hex count (value ∷ input) =
    let rest = bin2hex (count + 1) input in
    hex_char (value / 16)
    ∷ hex_char (value % 16)
    ∷ (if count + 1 == 64 then newline ∷ rest else rest)

unfoldable pub is_hex_digit : ℕ → Bool
is_hex_digit c = (leb 48 c && leb c 57) || ((leb 97 c && leb c 102) || (leb 65 c && leb c 70))

-- The next hexadecimal digit of the input, and what follows it.
unfoldable pub read_char : List ℕ → Option (ℕ × List ℕ)
read_char [] = none
read_char (c ∷ input) = if is_hex_digit c then some (c, input) else read_char input

unfoldable pub to_lower : ℕ → ℕ
to_lower c = if leb 65 c && leb c 90 then c + 32 else c

unfoldable pub get_digit : ℕ → ℕ
unfolding to_lower
get_digit c =
    let lower = to_lower c in if leb 97 lower && leb lower 102 then lower - 87 else lower - 48

-- The byte that `putchar` writes.
unfoldable pub join_digits : ℕ → ℕ → ℕ
join_digits upper lower = u8 (bit_or (get_digit upper <<< 4) (get_digit lower))

-- The loop of `main`, on fuel.
unfoldable pub hex2bin : ℕ → List ℕ → Option (List ℕ)
hex2bin zero input = none
hex2bin (suc fuel) input = elim (read_char input) [
  | none ↦ some []
  | some (upper, after_upper) ↦ elim (read_char after_upper) [
    | none ↦ some []
    | some (lower, rest) ↦ elim (hex2bin fuel rest) [
      | none ↦ none
      | some out ↦ some (join_digits upper lower ∷ out)
    ]
  ]
]

hex_char-digit :
    (n : ℕ) → n < 16 → (is_hex_digit (hex_char n) ≡ true) × (get_digit (hex_char n) ≡ n)
unfolding hex_char is_hex_digit get_digit to_lower
hex_char-digit n lt = ground arith

read_char-hex_char :
    (n : ℕ) (rest : List ℕ) → n < 16 → read_char (hex_char n ∷ rest) ≡ some (hex_char n, rest)
unfolding read_char
read_char-hex_char n rest lt = rw (hex_char-digit n lt).0 refl

join-hex_char : (v : ℕ) → v < 256 → join_digits (hex_char (v / 16)) (hex_char (v % 16)) ≡ v
unfolding join_digits
join-hex_char v lt =
    ground
      (arith, hex_char-digit (v / 16), hex_char-digit (v % 16), bit_or_fields 4 (v / 16) (v % 16))

hex2bin-newline : (fuel : ℕ) (rest : List ℕ) → hex2bin fuel (newline ∷ rest) ≡ hex2bin fuel rest
unfolding hex2bin read_char is_hex_digit
hex2bin-newline zero rest = refl
hex2bin-newline (suc fuel) rest = refl

hex2bin-if_newline :
    (fuel : ℕ) (c : Bool) (rest : List ℕ)
    → hex2bin fuel (if c then newline ∷ rest else rest) ≡ hex2bin fuel rest
hex2bin-if_newline fuel true rest = hex2bin-newline fuel rest
hex2bin-if_newline fuel false rest = refl

hex2bin-byte :
    (fuel v : ℕ) (rest out : List ℕ)
    → v < 256
    → hex2bin fuel rest ≡ some out
    → hex2bin (suc fuel) (hex_char (v / 16) ∷ hex_char (v % 16) ∷ rest) ≡ some (v ∷ out)
unfolding hex2bin
hex2bin-byte fuel v rest out lt e =
    rw (read_char-hex_char (v / 16) (hex_char (v % 16) ∷ rest) (omega arith), hex2bin)
      (rw (read_char-hex_char (v % 16) rest (omega arith))
        (rw e (ap (λ b. some (b ∷ out)) (join-hex_char v lt))))

-- What `bin2hex` prints for a sequence of bytes is read back by `hex2bin` as the same bytes, in
-- one round of its loop for each byte and one more.
pub hex2bin-bin2hex :
    (bytes : List ℕ) (count fuel : ℕ)
    → All (λ b. b < 256) bytes
    → length bytes < fuel
    → hex2bin fuel (bin2hex count bytes) ≡ some bytes
unfolding bin2hex
hex2bin-bin2hex [] count zero lt more = absurd (omega arith)
hex2bin-bin2hex [] count (suc fuel) lt more =
    hex2bin-newline (suc fuel) [] ∙ unfold hex2bin read_char in refl
hex2bin-bin2hex (v ∷ bytes) count zero lt more = absurd (omega arith)
hex2bin-bin2hex (v ∷ bytes) count (suc fuel) lt more = hex2bin-byte fuel v _ bytes lt.0 (
    hex2bin-if_newline fuel (count + 1 == 64) (bin2hex (count + 1) bytes)
    ∙ hex2bin-bin2hex bytes (count + 1) fuel lt.1 (omega arith))
