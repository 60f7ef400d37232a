-- ===== src/Userspace/Program/Overrun.antt =====
-- The buffer of the entropy pool in the main loop, with a multiplier above 2: the first bytes that the
-- library yields run past its end.
use infnoise.Base.{
  ℕ, ◌+◌, ◌*◌, ◌/◌, ◌%◌, ◌^◌, ◌<◌, ◌≡◌, ◌⊎◌, inl, inr, refl, subst, sym, ◌∙◌, ap, Bool, true, false,
  List, Option, none, some, ltb, leb, ◌==◌, if◌then◌else◌, length, u32, arith, Bool-cases,
  Option-cases,
}
use infnoise.Userspace.Floats.{Floats}
use infnoise.Userspace.Steps.{Code, ◌>>=◌, ◌>>◌, return}
use infnoise.Userspace.Context.{
  Sponge, Libftdi, State, Output, Context, buflen, max_microsec, is_exactly, complain, service,
  get_ctx,
}
use infnoise.Userspace.Library.{
  extract_bytes, cap_entropy, squeeze, process_bytes, passes, use_samples, read_fresh, read_data,
  diff_time,
}
use infnoise.Userspace.Library.Total.{IsSponge}
use infnoise.Userspace.Options.{Opts}
use infnoise.Userspace.Pool.{Random, copy_to_front, write_entropy_to_pool}
use infnoise.Userspace.Program.{
  Host, Ending, Step, Running, feed_pool, output_bytes, use_output, main_round,
}

-- What a read of new data yields: an error, no bytes, or more than the pool buffer holds.
Outcome : Output → Type 0
Outcome out =
    ((k : ℕ) × (out.code ≡ Code.failed k))
    ⊎ (out.code ≡ Code.given 0)
    ⊎ ((64 < length out.written) × ((n : ℕ) × (out.code ≡ Code.given n)))

module _ {f : Floats} {sponge : Sponge} where
  cap_entropy_given :
      (c : Context f sponge) → (cap_entropy c).keccak_bytes_given ≡ c.keccak_bytes_given
  unfolding cap_entropy
  cap_entropy_given c = ground arith

  module _ (is_sponge : IsSponge sponge) where
    squeeze-wide :
        (c : Context f sponge)
        → 64 < c.keccak_bytes_given
        → c.keccak_bytes_given % 8 ≡ 0
        → 64 < length (squeeze c).0.written
    unfolding squeeze
    squeeze-wide c many lanes = elim (Bool-cases (ltb c.keccak_bytes_given 128)) [
      | inl under ↦
          rw under
            (omega (arith, is_sponge.length_extract c.keccak_state (c.keccak_bytes_given / 8)))
      | inr over ↦ rw over (omega (arith, is_sponge.length_extract c.keccak_state 16))
    ]

    process_bytes-Outcome :
        (c : Context f sponge) (bytes : List ℕ) (multiplier : ℕ)
        → c.keccak_bytes_given ≡ 0
        → 2 < multiplier
        → multiplier < 2 ^ 24
        → Outcome (process_bytes c bytes true false multiplier).0
    unfolding process_bytes Outcome
    process_bytes-Outcome c bytes multiplier empty many few =
        let positive : (multiplier == 0) ≡ false = ground arith in
        let c1 = cap_entropy c in
        let state = sponge.absorb c1.keccak_state bytes (buflen / 64) in
        let given = u32 (multiplier * 256) / 8 in
        let full = record c1 { keccak_state = state; keccak_bytes_given = given } in
        rw (positive, cap_entropy_given c ∙ empty)
          (inr (
            inr (
              squeeze-wide full (omega arith) (omega arith),
              (unfold squeeze in ((if ltb given 128 then given else 128), refl)),
            )))

module _ {f : Floats} {sponge : Sponge} {W : Type 0} where
  -- Every result of the call is such an output.
  record Yields (r : Option (Output × State f sponge W)) : Type 0 where
    yields : (out : Output) (s : State f sponge W) → r ≡ some (out, s) → Outcome out

  Yields-some : (out : Output) (s : State f sponge W) → Outcome out → Yields (some (out, s))
  Yields-some out s h = record {
    yields = λ out' s' e. let same : out ≡ out' = cc in subst Outcome same h;
  }

  Yields-none : Yields none
  Yields-none = record { yields = λ out s e. absurd (cc) }

  module _ (is_sponge : IsSponge sponge) (ftdi : Libftdi W) (multiplier : ℕ) (many : 2 < multiplier)
      (few : multiplier < 2 ^ 24) where
    extract_bytes_given :
        (c c' : Context f sponge) (n : ℕ) (in_buf bytes : List ℕ) (good : Bool)
        → extract_bytes c n in_buf ≡ some (bytes, good, c')
        → c'.keccak_bytes_given ≡ c.keccak_bytes_given
    unfolding extract_bytes
    extract_bytes_given c c' n in_buf bytes good e = ground arith

    use_samples-Yields :
        (s : State f sponge W) (in_buf : List ℕ)
        → s.ctx.keccak_bytes_given ≡ 0
        → Yields (use_samples ftdi in_buf true false multiplier s)
    unfolding use_samples Outcome
    use_samples-Yields s in_buf empty =
        elim (Option-cases (extract_bytes s.ctx (buflen / 8) in_buf)) [
          | inl never ↦ rw (use_samples, never) Yields-none
          | inr ((bytes, false, c), e) ↦ rw (use_samples, e) (Yields-some _ _ (inl (3, refl)))
          | inr ((bytes, true, c), e) ↦ elim (Bool-cases (passes c)) [
            | inr bad ↦ rw (use_samples, e, bad) (Yields-some _ _ (inr (inl refl)))
            | inl good ↦
                rw (use_samples, e, good)
                  (Yields-some _ _ (
                    process_bytes-Outcome is_sponge c bytes multiplier
                      (extract_bytes_given s.ctx c (buflen / 8) in_buf bytes true e ∙ empty) many
                      few))
          ]
        ]

    read_data-Yields :
        (s : State f sponge W)
        → s.ctx.keccak_bytes_given ≡ 0
        → Yields (read_data ftdi true false multiplier s)
    unfolding read_data read_fresh service get_ctx complain ◌>>=◌ ◌>>◌ return Outcome
    read_data-Yields s empty =
        let (start, w) = ftdi.clock s.world in
        let (sent, w1) = ftdi.write_data s.ctx.out_buf w in
        let (answer, w2) = ftdi.read_data buflen w1 in
        let (end, w3) = ftdi.clock w2 in
        let zero_left : (s.ctx.keccak_bytes_given == 0) ≡ true = ground arith in
        elim (Bool-cases (is_exactly sent buflen)) [
          | inr short ↦ rw (zero_left, short) (Yields-some _ _ (inl (1, refl)))
          | inl all ↦ elim (Bool-cases (is_exactly answer.0 buflen)) [
            | inr short ↦ rw (zero_left, all, short) (Yields-some _ _ (inl (2, refl)))
            | inl read ↦ elim (Bool-cases (f.lt (f.of_u32 max_microsec) (diff_time f start end))) [
              | inl slow ↦ rw (zero_left, all, read, slow) (Yields-some _ _ (inr (inl refl)))
              | inr in_time ↦
                  rw (zero_left, all, read, in_time)
                    (use_samples-Yields (record s { world = w3 }) answer.1 empty)
            ]
          ]
        ]

  module _ (random : Random W) (host : Host W) where
    feed_pool-overrun :
        (o : Opts) (bytes : List ℕ) (entropy : ℕ) (s : Running f sponge W)
        → length s.pool.buf < length bytes
        → feed_pool random host o bytes entropy s ≡ Step.ended Ending.overrun
    unfolding feed_pool write_entropy_to_pool copy_to_front
    feed_pool-overrun o bytes entropy s lt =
        let past : leb (length bytes) (length s.pool.buf) ≡ false = ground arith in
        rw (feed_pool, write_entropy_to_pool, copy_to_front, past) refl

    use_output-to_pool :
        (o : Opts) (out : Output) (s : Running f sponge W) (n : ℕ)
        → o.dev_random ≡ true
        → o.no_output ≡ false
        → out.code ≡ Code.given n
        → use_output random host o out s
          ≡ feed_pool random host o out.written s.state.ctx.entropy_this_time
              (record s { total_bytes_written = (s.total_bytes_written + n) % 2 ^ 64 })
    unfolding use_output output_bytes
    use_output-to_pool o out s n to_pool output code = rw (use_output, code, output, to_pool) refl

    -- With /dev/random and output, whitening and a multiplier above 2 and below 2 ^ 24: a round that
    -- finds nothing left of an absorption, and whose read returns a positive number of bytes, ends in a
    -- write past the end of a pool buffer of 64 bytes.
    pub main_round-overrun :
        (ftdi : Libftdi W) (o : Opts) (s : Running f sponge W) (out : Output)
        (after : State f sponge W) (n : ℕ)
        → IsSponge sponge
        → o.dev_random ≡ true
        → o.no_output ≡ false
        → o.raw ≡ false
        → 2 < o.output_multiplier
        → o.output_multiplier < 2 ^ 24
        → length s.pool.buf ≡ 64
        → s.state.ctx.keccak_bytes_given ≡ 0
        → read_data ftdi true o.raw o.output_multiplier s.state ≡ some (out, after)
        → out.code ≡ Code.given n
        → 0 < n
        → main_round random host ftdi o s ≡ some (Step.ended Ending.overrun)
    unfolding main_round Outcome
    main_round-overrun ftdi o s out after n is_sponge to_pool output white many few room empty e
          code pos =
        let yields = read_data-Yields is_sponge ftdi o.output_multiplier many few s.state empty in
        let long : 64 < length out.written =
          elim (yields.yields out after (
            subst (λ raw. read_data ftdi true raw o.output_multiplier s.state ≡ some (out, after))
              white e)) [
                | inl failed ↦ absurd (differ n failed.0 (sym code ∙ failed.1))
                | inr (inl none_given) ↦ absurd (positive n pos (sym code ∙ none_given))
                | inr (inr wide) ↦ wide.0
              ] in
        rw (main_round, e)
          (ap some (
            use_output-to_pool o out (record s { state = after }) n to_pool output code
            ∙ feed_pool-overrun o out.written after.ctx.entropy_this_time _
                (omega (arith, long, room))))
      where
        differ : (n k : ℕ) → ◌≡◌ {A = Code} (Code.given n) (Code.failed k) → ⊥
        differ n k e = cc

        positive : (n : ℕ) → 0 < n → ◌≡◌ {A = Code} (Code.given n) (Code.given 0) → ⊥
        positive n pos e = ground arith
