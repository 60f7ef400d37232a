-- ===== src/Userspace/Library/Total.antt =====
-- What `readData` returns and leaves: it always returns, with no more bytes than the buffer that
-- the main program gives it has.
use infnoise.Base.{
  ℕ, ◌+◌, ◌*◌, ◌/◌, ◌%◌, ◌^◌, ◌≤◌, ◌<◌, ◌≡◌, ◌⊎◌, inl, inr, refl, ◌∙◌, Bool, true, false, arith,
  List, length, length-take, if◌then◌else◌, ltb, leb, ◌==◌, ◌||◌, Bool-cases, u32,
}
use infnoise.Userspace.Floats.{Floats}
use infnoise.Userspace.Steps.{Code}
use infnoise.Userspace.Health.Invariant.{IsValid}
use infnoise.Userspace.Context.{Sponge, Context, Output, buflen}
use infnoise.Userspace.Library.{entropy_cap, cap_entropy, squeeze, process_bytes}

-- The size of the buffer that the main program passes.
abbrev pub result_size : Bool → ℕ → ℕ
result_size raw multiplier = if leb multiplier 2 || raw then 64 else 128

-- `KeccakExtract` of some lanes stores eight bytes for each.
pub record IsSponge (sponge : Sponge) : Type 0 where
  pub length_extract :
      (state : sponge.State) (lanes : ℕ) → length (sponge.extract state lanes) ≡ lanes * 8

-- The bound on the entropy of 512 samples is at most 512, for an expectation that is at most 1.03
-- bits: its conversion does not exceed 512, and a count that it is not below does not either.
pub record IsCapped (f : Floats) (expected : f.Double) : Type 0 where
  pub converted : f.to_u32 (f.div (f.mul expected (f.of_u32 buflen)) f.accuracy) ≤ buflen
  pub compared :
      (n : ℕ)
      → f.lt (f.div (f.mul expected (f.of_u32 buflen)) f.accuracy) (f.of_u32 n) ≡ false
      → n ≤ buflen

module _ {f : Floats} {sponge : Sponge} where
  -- A context between two reads: a valid health check, whole lanes left of the last absorption, and
  -- none where the buffer is the small one.
  pub record IsReady (raw : Bool) (multiplier : ℕ) (c : Context f sponge) : Type 0 where
    pub health : IsValid c.health
    pub capped : IsCapped f c.health.expected_entropy_per_bit
    pub lanes : c.keccak_bytes_given % 8 ≡ 0
    pub range : c.keccak_bytes_given < 2 ^ 32
    pub small : (c.keccak_bytes_given ≡ 0) ⊎ (result_size raw multiplier ≡ 128)

  -- A successful read: it stores as many bytes as it returns, which fit.
  pub record Delivered (raw : Bool) (multiplier : ℕ) (out : Output) (c : Context f sponge)
      : Type 0 where
    pub count : ℕ
    pub code : out.code ≡ Code.given count
    pub stored : length out.written ≡ count
    pub fits : count ≤ result_size raw multiplier
    pub ready : IsReady raw multiplier c

  abbrev Delivers : Bool → ℕ → Output × Context f sponge → Type 0
  Delivers raw multiplier r = Delivered raw multiplier r.0 r.1

  module _ (is_sponge : IsSponge sponge) where
    open is_sponge use {length_extract}

    -- The squeeze of what is left, where it fits.
    pub squeeze-Delivered :
        (raw : Bool) (multiplier : ℕ) (c : Context f sponge)
        → IsValid c.health
        → IsCapped f c.health.expected_entropy_per_bit
        → c.keccak_bytes_given % 8 ≡ 0
        → c.keccak_bytes_given < 2 ^ 32
        → (c.keccak_bytes_given ≤ 64) ⊎ (result_size raw multiplier ≡ 128)
        → Delivers raw multiplier (squeeze c)
    unfolding squeeze
    squeeze-Delivered raw multiplier c v k l r s =
        let n = if ltb c.keccak_bytes_given 128 then c.keccak_bytes_given else 128 in
        let e = length_extract c.keccak_state (n / 8) in
        record {
          count = n;
          code = refl;
          stored = e ∙ ground arith;
          fits = ground (arith, s);
          ready = record {
            health = v;
            capped = k;
            lanes = ground arith;
            range = omega arith;
            small = elim s [ inl under ↦ inl (ground arith) | inr big ↦ inr big ];
          };
        }

    capped_entropy :
        (c : Context f sponge)
        → IsCapped f c.health.expected_entropy_per_bit
        → (cap_entropy c).entropy_this_time ≤ buflen
    unfolding cap_entropy entropy_cap
    capped_entropy c k = elim (Bool-cases (f.lt (entropy_cap c) (f.of_u32 c.entropy_this_time))) [
      | inl over ↦ rw over k.converted
      | inr under ↦ rw under (k.compared c.entropy_this_time under)
    ]

    cap_entropy_keeps :
        (c : Context f sponge)
        → ((cap_entropy c).health ≡ c.health)
          × ((cap_entropy c).keccak_bytes_given ≡ c.keccak_bytes_given)
    unfolding cap_entropy
    cap_entropy_keeps c = elim (Bool-cases (f.lt (entropy_cap c) (f.of_u32 c.entropy_this_time))) [
      | inl over ↦ rw over (refl, refl)
      | inr under ↦ rw under (refl, refl)
    ]

    -- A context that has no bytes left is ready.
    pub none_left-IsReady :
        (raw : Bool) (multiplier : ℕ) (c : Context f sponge)
        → IsValid c.health
        → IsCapped f c.health.expected_entropy_per_bit
        → c.keccak_bytes_given ≡ 0
        → IsReady raw multiplier c
    none_left-IsReady raw multiplier c v k e = record {
      health = v;
      capped = k;
      lanes = rw e refl;
      range = omega (arith, e);
      small = inl e;
    }

    -- What one transfer yields, by mode.
    pub process_bytes-Delivered :
        (c : Context f sponge) (bytes : List ℕ) (raw : Bool) (multiplier : ℕ)
        → IsValid c.health
        → IsCapped f c.health.expected_entropy_per_bit
        → c.keccak_bytes_given ≡ 0
        → length bytes ≡ buflen / 8
        → Delivers raw multiplier (process_bytes c bytes true raw multiplier)
    unfolding process_bytes
    process_bytes-Delivered c bytes true multiplier v k e len =
        let same = cap_entropy_keeps c in
        record {
          count = buflen / 8;
          code = refl;
          stored = length-take 64 bytes ∙ omega (arith, len);
          fits = ground arith;
          ready =
              none_left-IsReady true multiplier (cap_entropy c) (rw same.0 v) (rw same.0 k)
                (same.1 ∙ e);
        }
    process_bytes-Delivered c bytes false multiplier v k e len =
        let same = cap_entropy_keeps c in
        let c1 = cap_entropy c in
        let state = sponge.absorb c1.keccak_state bytes (buflen / 64) in
        let absorbed = record c1 { keccak_state = state } in
        let bound = capped_entropy c k in
        elim (Bool-cases (multiplier == 0)) [
          | inl none_wanted ↦ rw none_wanted (record {
            count = c1.entropy_this_time / 8;
            code = refl;
            stored =
                length-take (c1.entropy_this_time / 8)
                  (sponge.extract state (u32 (c1.entropy_this_time + 63) / 64))
                ∙ (omega
                    (arith, length_extract state (u32 (c1.entropy_this_time + 63) / 64), bound));
            fits = ground (arith, bound);
            ready =
                none_left-IsReady false multiplier absorbed (rw same.0 v) (rw same.0 k)
                  (same.1 ∙ e);
          })
          | inr positive ↦
              rw (positive, same.1 ∙ e)
                (squeeze-Delivered false multiplier
                  (record absorbed { keccak_bytes_given = u32 (multiplier * 256) / 8 })
                  (rw same.0 v) (rw same.0 k) (omega arith) (omega arith) (ground arith))
        ]
