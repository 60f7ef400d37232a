-- ===== src/Kernel/Keccak/Bytes.antt =====
-- The sponge on bytes: the conversions between bytes and words are inverse, and every operation
-- keeps a state of 200 bytes.
use infnoise.Base.{
  ℕ, zero, suc, ◌+◌, ◌*◌, ◌%◌, ◌^◌, ◌<◌, ◌≡◌, refl, ap, ap₂, ◌∙◌, bit_and, bit_or, List, [], ◌∷◌,
  drop, arith, length, All,
}
use infnoise.Base.{u64, ◌<<<◌, ◌>>>◌}
use infnoise.Bits.{bit_or_fields, bit_and_mask, bit_or_comm}
use infnoise.Kernel.Const.{state_size, lanes}
use infnoise.Kernel.Keccak.{
  load64, store64, bytes_to_words, words_to_bytes, permutation, permutation_on_words,
}

abbrev pub AreBytes : List ℕ → Type 0
AreBytes bytes = All (λ b. b < 256) bytes

abbrev pub AreWords : List ℕ → Type 0
AreWords ws = All (λ w. w < 2 ^ 64) ws

-- A state of the sponge.
pub record IsState (state : List ℕ) : Type 0 where
  pub size : length state ≡ state_size
  pub bytes : AreBytes state

-- The little-endian number of eight bytes.
abbrev pub little_endian : ℕ → ℕ → ℕ → ℕ → ℕ → ℕ → ℕ → ℕ → ℕ
little_endian a b c d e f g h =
    a + 2 ^ 8 * b + 2 ^ 16 * c + 2 ^ 24 * d + 2 ^ 32 * e + 2 ^ 40 * f + 2 ^ 48 * g + 2 ^ 56 * h

-- One more byte above a number of `k` bits.
or_above : (k w b : ℕ) → w < 2 ^ k → bit_or w (b * 2 ^ k) ≡ b * 2 ^ k + w
or_above k w b lt = bit_or_comm w (b * 2 ^ k) ∙ bit_or_fields k b w lt

or_byte : (k w b : ℕ) → w < 2 ^ k → b * 2 ^ k < 2 ^ 64 → bit_or w (u64 (b <<< k)) ≡ b * 2 ^ k + w
or_byte k w b lt fits = let e : u64 (b <<< k) ≡ b * 2 ^ k = omega arith in rw e (or_above k w b lt)

load64_lem :
    (a b c d e f g h : ℕ) (rest : List ℕ)
    → AreBytes (a ∷ b ∷ c ∷ d ∷ e ∷ f ∷ g ∷ h ∷ [])
    → load64 (a ∷ b ∷ c ∷ d ∷ e ∷ f ∷ g ∷ h ∷ rest) ≡ little_endian a b c d e f g h
unfolding load64
load64_lem a b c d e f g h rest lt =
    let e0 : bit_or (0) (u64 (a <<< 0)) ≡ a =
      or_byte 0 (0) a (omega arith) (omega arith) ∙ omega arith in
    let e1 : bit_or (a) (u64 (b <<< 8)) ≡ a + 2 ^ 8 * b =
      or_byte 8 (a) b (omega arith) (omega arith) ∙ omega arith in
    let e2 : bit_or (a + 2 ^ 8 * b) (u64 (c <<< 16)) ≡ a + 2 ^ 8 * b + 2 ^ 16 * c =
      or_byte 16 (a + 2 ^ 8 * b) c (omega arith) (omega arith) ∙ omega arith in
    let e3 : bit_or (a + 2 ^ 8 * b + 2 ^ 16 * c) (u64 (d <<< 24))
        ≡ a + 2 ^ 8 * b + 2 ^ 16 * c + 2 ^ 24 * d =
      or_byte 24 (a + 2 ^ 8 * b + 2 ^ 16 * c) d (omega arith) (omega arith) ∙ omega arith in
    let e4 : bit_or (a + 2 ^ 8 * b + 2 ^ 16 * c + 2 ^ 24 * d) (u64 (e <<< 32))
        ≡ a + 2 ^ 8 * b + 2 ^ 16 * c + 2 ^ 24 * d + 2 ^ 32 * e =
      or_byte 32 (a + 2 ^ 8 * b + 2 ^ 16 * c + 2 ^ 24 * d) e (omega arith) (omega arith)
      ∙ omega arith in
    let e5 : bit_or (a + 2 ^ 8 * b + 2 ^ 16 * c + 2 ^ 24 * d + 2 ^ 32 * e) (u64 (f <<< 40))
        ≡ a + 2 ^ 8 * b + 2 ^ 16 * c + 2 ^ 24 * d + 2 ^ 32 * e + 2 ^ 40 * f =
      or_byte 40 (a + 2 ^ 8 * b + 2 ^ 16 * c + 2 ^ 24 * d + 2 ^ 32 * e) f (omega arith)
        (omega arith)
      ∙ omega arith in
    let e6 : bit_or (a + 2 ^ 8 * b + 2 ^ 16 * c + 2 ^ 24 * d + 2 ^ 32 * e + 2 ^ 40 * f)
          (u64 (g <<< 48))
        ≡ a + 2 ^ 8 * b + 2 ^ 16 * c + 2 ^ 24 * d + 2 ^ 32 * e + 2 ^ 40 * f + 2 ^ 48 * g =
      or_byte 48 (a + 2 ^ 8 * b + 2 ^ 16 * c + 2 ^ 24 * d + 2 ^ 32 * e + 2 ^ 40 * f) g (omega arith)
        (omega arith)
      ∙ omega arith in
    let e7 : bit_or (a + 2 ^ 8 * b + 2 ^ 16 * c + 2 ^ 24 * d + 2 ^ 32 * e + 2 ^ 40 * f + 2 ^ 48 * g)
          (u64 (h <<< 56))
        ≡ a
          + 2 ^ 8 * b
          + 2 ^ 16 * c
          + 2 ^ 24 * d
          + 2 ^ 32 * e
          + 2 ^ 40 * f
          + 2 ^ 48 * g
          + 2 ^ 56 * h =
      or_byte 56 (a + 2 ^ 8 * b + 2 ^ 16 * c + 2 ^ 24 * d + 2 ^ 32 * e + 2 ^ 40 * f + 2 ^ 48 * g) h
        (omega arith) (omega arith)
      ∙ omega arith in
    rw (e0, e1, e2, e3, e4, e5, e6, e7)

byte_of : (w : ℕ) → bit_and w 0xff ≡ w % 256
byte_of w = bit_and_mask 8 w

-- Storing a word and loading it gives the word back.
load64-store64 : (w : ℕ) (rest : List ℕ) → w < 2 ^ 64 → load64 (store64 w rest) ≡ w
unfolding store64
load64-store64 w rest lt = simp byte_of (
    load64_lem ((w >>> 0) % 256) ((w >>> 8) % 256) ((w >>> 16) % 256) ((w >>> 24) % 256)
      ((w >>> 32) % 256) ((w >>> 40) % 256) ((w >>> 48) % 256) ((w >>> 56) % 256) rest (omega arith)
    ∙ omega arith)

store64-load64 :
    (a b c d e f g h : ℕ) (rest rest' : List ℕ)
    → AreBytes (a ∷ b ∷ c ∷ d ∷ e ∷ f ∷ g ∷ h ∷ [])
    → store64 (load64 (a ∷ b ∷ c ∷ d ∷ e ∷ f ∷ g ∷ h ∷ rest)) rest'
      ≡ a ∷ b ∷ c ∷ d ∷ e ∷ f ∷ g ∷ h ∷ rest'
unfolding store64
store64-load64 a b c d e f g h rest rest' lt = rw (load64_lem a b c d e f g h rest lt) (
    simp byte_of (
      ap₂ ◌∷◌ (omega arith) (
        ap₂ ◌∷◌ (omega arith) (
          ap₂ ◌∷◌ (omega arith) (
            ap₂ ◌∷◌ (omega arith) (
              ap₂ ◌∷◌ (omega arith)
                (ap₂ ◌∷◌ (omega arith) (ap₂ ◌∷◌ (omega arith) (ap₂ ◌∷◌ (omega arith) refl)))))))))

store64-AreBytes : (w : ℕ) (rest : List ℕ) → AreBytes rest → AreBytes (store64 w rest)
unfolding store64
store64-AreBytes w rest h = simp byte_of (
  omega arith,
  (
    omega arith,
    (omega arith, (omega arith, (omega arith, (omega arith, (omega arith, (omega arith, h)))))),
  ),
)

length-store64 : (w : ℕ) (rest : List ℕ) → length (store64 w rest) ≡ 8 + length rest
unfolding store64
length-store64 w rest = omega arith

drop-store64 : (w : ℕ) (rest : List ℕ) → drop 8 (store64 w rest) ≡ rest
unfolding store64
drop-store64 w rest = refl

-- Reading `n` words from `8 n` bytes and writing them gives the bytes back.
pub bytes_to_words-inverse :
    (n : ℕ) (bytes : List ℕ)
    → length bytes ≡ 8 * n
    → AreBytes bytes
    → words_to_bytes (bytes_to_words n bytes) ≡ bytes
unfolding bytes_to_words words_to_bytes
bytes_to_words-inverse zero [] eq lt = refl
bytes_to_words-inverse zero (a ∷ rest) eq lt = absurd (omega arith)
bytes_to_words-inverse (suc n) [] eq lt = absurd (omega arith)
bytes_to_words-inverse (suc n) (a ∷ []) eq lt = absurd (omega arith)
bytes_to_words-inverse (suc n) (a ∷ b ∷ []) eq lt = absurd (omega arith)
bytes_to_words-inverse (suc n) (a ∷ b ∷ c ∷ []) eq lt = absurd (omega arith)
bytes_to_words-inverse (suc n) (a ∷ b ∷ c ∷ d ∷ []) eq lt = absurd (omega arith)
bytes_to_words-inverse (suc n) (a ∷ b ∷ c ∷ d ∷ e ∷ []) eq lt = absurd (omega arith)
bytes_to_words-inverse (suc n) (a ∷ b ∷ c ∷ d ∷ e ∷ f ∷ []) eq lt = absurd (omega arith)
bytes_to_words-inverse (suc n) (a ∷ b ∷ c ∷ d ∷ e ∷ f ∷ g ∷ []) eq lt = absurd (omega arith)
bytes_to_words-inverse (suc n) (a ∷ b ∷ c ∷ d ∷ e ∷ f ∷ g ∷ h ∷ rest) eq lt =
    ap (store64 (load64 (a ∷ b ∷ c ∷ d ∷ e ∷ f ∷ g ∷ h ∷ rest)))
      (bytes_to_words-inverse n rest (omega arith) lt.1.1.1.1.1.1.1.1)
    ∙ store64-load64 a b c d e f g h rest rest (
      lt.0,
      (
        lt.1.0,
        (
          lt.1.1.0,
          (
            lt.1.1.1.0,
            (lt.1.1.1.1.0, (lt.1.1.1.1.1.0, (lt.1.1.1.1.1.1.0, (lt.1.1.1.1.1.1.1.0, tt)))),
          ),
        ),
      ),
    )

-- Writing words of 64 bits and reading them gives the words back.
pub words_to_bytes-inverse :
    (ws : List ℕ) → AreWords ws → bytes_to_words (length ws) (words_to_bytes ws) ≡ ws
unfolding bytes_to_words words_to_bytes
words_to_bytes-inverse [] lt = refl
words_to_bytes-inverse (w ∷ ws) lt = ap₂ ◌∷◌ (load64-store64 w (words_to_bytes ws) lt.0) (
    ap (bytes_to_words (length ws)) (drop-store64 w (words_to_bytes ws))
    ∙ words_to_bytes-inverse ws lt.1)

words_to_bytes-AreBytes : (ws : List ℕ) → AreBytes (words_to_bytes ws)
unfolding words_to_bytes
words_to_bytes-AreBytes [] = tt
words_to_bytes-AreBytes (w ∷ ws) =
    store64-AreBytes w (words_to_bytes ws) (words_to_bytes-AreBytes ws)

length-words_to_bytes : (ws : List ℕ) → length (words_to_bytes ws) ≡ 8 * length ws
unfolding words_to_bytes
length-words_to_bytes [] = refl
length-words_to_bytes (w ∷ ws) =
    omega (arith, length-store64 w (words_to_bytes ws), length-words_to_bytes ws)

pub length-bytes_to_words : (n : ℕ) (bytes : List ℕ) → length (bytes_to_words n bytes) ≡ n
unfolding bytes_to_words
length-bytes_to_words zero bytes = refl
length-bytes_to_words (suc n) bytes = ap suc (length-bytes_to_words n (drop 8 bytes))

-- The permutation leaves 200 bytes, whatever it is given.
pub permutation-IsState :
    (state : List ℕ)
    → length (permutation_on_words (bytes_to_words lanes state)) ≡ lanes
    → IsState (permutation state)
unfolding permutation
permutation-IsState state e = record {
  size =
      length-words_to_bytes (permutation_on_words (bytes_to_words lanes state)) ∙ omega (arith, e);
  bytes = words_to_bytes-AreBytes (permutation_on_words (bytes_to_words lanes state));
}
