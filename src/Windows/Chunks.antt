-- ===== src/Windows/Chunks.antt =====
-- What `processBytes` writes where the file takes everything.
use infnoise.Base.{
  ℕ, zero, suc, ◌+◌, ◌-◌, ◌*◌, ◌/◌, ◌%◌, ◌<◌, ◌≡◌, refl, ◌∙◌, true, false, List, [], ◌∷◌, length,
  if◌then◌else◌, ◌==◌, ltb, arith,
}
use infnoise.Userspace.Context.{Sponge}
use infnoise.Userspace.Library.Total.{IsSponge}
use infnoise.Windows.{File, Result, num_lanes, squeeze_loop, process_bytes, output_bytes}

module _ {W : Type 0} (file : File W) (sponge : Sponge) where
  open sponge use {extract, permutation, absorb}

  -- `full` pieces of sixteen lanes, then one of four times `rest` lanes, unless `rest` is 0; the state
  -- of the sponge is permuted after every piece.
  unfoldable pub pieces : ℕ → ℕ → sponge.State → List (List ℕ)
  pieces zero rest keccak = if rest == 0 then [] else extract keccak (rest * 4) ∷ []
  pieces (suc full) rest keccak = extract keccak 16 ∷ pieces full rest (permutation keccak)

  -- The writes of the pieces in their order.
  unfoldable pub write_pieces : (List ℕ → W → W) → List (List ℕ) → W → W
  write_pieces write [] w = w
  write_pieces write (piece ∷ rest) w = write_pieces write rest (write piece w)

  unfoldable pub sum_lengths : List (List ℕ) → ℕ
  sum_lengths [] = 0
  sum_lengths (piece ∷ rest) = length piece + sum_lengths rest

  length-pieces :
      IsSponge sponge
      → (full rest : ℕ) (keccak : sponge.State)
      → sum_lengths (pieces full rest keccak) ≡ 128 * full + 32 * rest
  unfolding pieces sum_lengths
  length-pieces is_sponge zero zero keccak = refl
  length-pieces is_sponge zero (suc rest) keccak =
      let some_rest : (suc rest == 0) ≡ false = ground arith in
      rw some_rest (omega (arith, is_sponge.length_extract keccak (suc rest * 4)))
  length-pieces is_sponge (suc full) rest keccak = omega (
    arith,
    is_sponge.length_extract keccak 16,
    length-pieces is_sponge full rest (permutation keccak),
  )

  unfoldable pub permuted : ℕ → ℕ → sponge.State → sponge.State
  permuted zero rest keccak = if rest == 0 then keccak else permutation keccak
  permuted (suc full) rest keccak = permuted full rest (permutation keccak)

  module _ (write : List ℕ → W → W)
      (accepts : (bytes : List ℕ) (w : W)
        → file.fwrite bytes w ≡ (length bytes, write bytes w)) where
    written-output_bytes :
        (bytes : List ℕ) (w : W) → output_bytes file bytes false w ≡ Result.went tt (write bytes w)
    unfolding output_bytes
    written-output_bytes bytes w =
        let all_of_it : (length bytes == length bytes) ≡ true = ground arith in
        rw (accepts bytes w, all_of_it) refl

    -- The entropy that is left after a round.
    entropy_left : ℕ → ℕ → ℕ
    entropy_left m entropy =
        entropy - (if ltb (num_lanes m * 64) entropy then num_lanes m * 64 else entropy)

    -- A round with something left to write.
    squeeze_round :
        (m fuel : ℕ) (keccak : sponge.State) (entropy : ℕ) (w : W)
        → (m == 0) ≡ false
        → squeeze_loop file sponge (suc fuel) keccak entropy m false w
          ≡ squeeze_loop file sponge fuel
              (permutation keccak)
              (entropy_left m entropy)
              (m - num_lanes m / 4)
              false
              (write (extract keccak (num_lanes m)) w)
    unfolding squeeze_loop entropy_left
    squeeze_round m fuel keccak entropy w some_left =
        rw (some_left, written-output_bytes (extract keccak (num_lanes m)) w) refl

    squeeze_end :
        (fuel : ℕ) (keccak : sponge.State) (entropy : ℕ) (w : W)
        → squeeze_loop file sponge (suc fuel) keccak entropy 0 false w ≡ Result.went keccak w
    unfolding squeeze_loop
    squeeze_end fuel keccak entropy w = refl

    squeezed :
        (full rest fuel m : ℕ) (keccak : sponge.State) (entropy : ℕ) (w : W)
        → rest < 4
        → m ≡ 4 * full + rest
        → m < fuel
        → squeeze_loop file sponge fuel keccak entropy m false w
          ≡ Result.went (permuted full rest keccak) (write_pieces write (pieces full rest keccak) w)
    unfolding permuted pieces write_pieces
    squeezed full rest zero m keccak entropy w small e lt = absurd (omega (arith, lt))
    squeezed zero zero (suc fuel) m keccak entropy w small e lt =
        let none_left : m ≡ 0 = omega (arith, e) in rw none_left (squeeze_end fuel keccak entropy w)
    squeezed zero (suc rest) (suc zero) m keccak entropy w small e lt =
        absurd (omega (arith, e, lt))
    squeezed zero (suc rest) (suc (suc fuel)) m keccak entropy w small e lt =
        let some_left : (m == 0) ≡ false = ground (arith, e) in
        let lanes : num_lanes m ≡ suc rest * 4 = unfold num_lanes in ground (arith, small, e) in
        let some_rest : (suc rest == 0) ≡ false = ground arith in
        let last : m - suc rest * 4 / 4 ≡ 0 = omega (arith, e) in
        squeeze_round m (suc fuel) keccak entropy w some_left
        ∙ rw (lanes, last, some_rest)
            (squeeze_end fuel (permutation keccak) _ (write (extract keccak (suc rest * 4)) w))
    squeezed (suc full) rest (suc fuel) m keccak entropy w small e lt =
        let some_left : (m == 0) ≡ false = ground (arith, e) in
        let lanes : num_lanes m ≡ 16 = unfold num_lanes in ground (arith, e) in
        let next : m - 16 / 4 ≡ m - 4 = refl in
        squeeze_round m fuel keccak entropy w some_left
        ∙ rw (lanes, next)
            (squeezed full rest fuel (m - 4) (permutation keccak) _ (write (extract keccak 16) w)
              small (omega (arith, e)) (omega (arith, lt)))

    -- The data of a round that is whitened.
    pub record Written (keccak : sponge.State) (m : ℕ) (w : W) (result : Result W sponge.State)
        : Type 0 where
      pub pieces_written :
          result
          ≡ Result.went
              (permuted (m / 4) (m % 4) keccak)
              (write_pieces write (pieces (m / 4) (m % 4) keccak) w)
      pub bytes_written : sum_lengths (pieces (m / 4) (m % 4) keccak) ≡ 32 * m

    -- Where the file takes everything, `processBytes` without the raw mode absorbs the bytes and writes
    -- 32 bytes for each unit of the multiplier: whole pieces of 128 bytes and a last one with what
    -- remains, with a permutation of the sponge after each piece.
    pub process_bytes-Written :
        (is_sponge : IsSponge sponge) (keccak : sponge.State) (bytes : List ℕ) (entropy m : ℕ)
        (w : W)
        → Written
            (absorb keccak bytes 8)
            m
            w
            (process_bytes file sponge keccak bytes entropy false false m w)
    unfolding process_bytes
    process_bytes-Written is_sponge keccak bytes entropy m w = record {
      pieces_written =
          squeezed (m / 4) (m % 4) (suc m) m (absorb keccak bytes 8) entropy w (omega arith)
            (omega arith) (omega arith);
      bytes_written = length-pieces is_sponge (m / 4) (m % 4) (absorb keccak bytes 8) ∙ omega arith;
    }
