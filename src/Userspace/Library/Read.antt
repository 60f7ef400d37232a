-- ===== src/Userspace/Library/Read.antt =====
-- `readData`, from the transfer to the bytes, and what a run of reads hands out.
use infnoise.Base.{
  ℕ, ◌≤◌, ◌<◌, ◌≡◌, ◌⊎◌, inl, inr, refl, ap, ◌∙◌, Bool, true, false, arith, List, Option, some,
  length, ◌==◌, Bool-cases,
}
use infnoise.Userspace.Floats.{Floats, AreLaws}
use infnoise.Userspace.Steps.{Code, ◌>>=◌, ◌>>◌, return}
use infnoise.Userspace.Health.{Health, clear_entropy_level, get_entropy_level}
use infnoise.Userspace.Health.Invariant.{IsValid}
use infnoise.Userspace.Context.{
  Sponge, Libftdi, Context, State, Output, Message, buflen, is_exactly, complain, service, get_ctx,
  put_ctx, nothing, max_microsec,
}
use infnoise.Userspace.Library.{
  extract_loop, extract_bytes, squeeze, process_bytes, passes, use_samples, read_fresh, read_data,
  diff_time,
}
use infnoise.Userspace.Library.Samples.{extract_loop-Extracted}
use infnoise.Userspace.Library.Total.{
  IsSponge, IsCapped, IsReady, Delivered, process_bytes-Delivered, squeeze-Delivered,
  none_left-IsReady,
}

cleared-IsValid : {f : Floats} (h : Health f) → IsValid h → IsValid (clear_entropy_level h)
unfolding clear_entropy_level
cleared-IsValid h v = record {
  at_least_one = v.at_least_one;
  at_most_30 = v.at_most_30;
  tables = v.tables;
  context = v.context;
  window = v.window;
  ones = v.ones;
  zeros = v.zeros;
  over_half = v.over_half;
}

module _ {f : Floats} {sponge : Sponge} where
  -- A read that hands out nothing for now.
  nothing-Delivered :
      (raw : Bool) (multiplier : ℕ) (c : Context f sponge)
      → IsReady raw multiplier c
      → Delivered raw multiplier (nothing (Code.given 0)) c
  nothing-Delivered raw multiplier c ready = record {
    count = 0;
    code = refl;
    stored = refl;
    fits = omega arith;
    ready = ready;
  }

  good_samples :
      (c : Context f sponge) (in_buf bytes : List ℕ) (h : Health f)
      → extract_loop 64 0 in_buf (clear_entropy_level c.health) ≡ some (bytes, true, h)
      → extract_bytes c 64 in_buf
        ≡ some (bytes, true, record c { health = h; entropy_this_time = h.entropy_level })
  unfolding extract_bytes get_entropy_level
  good_samples c in_buf bytes h e = rw (extract_bytes, e) refl

  bad_samples :
      (c : Context f sponge) (in_buf bytes : List ℕ) (h : Health f)
      → extract_loop 64 0 in_buf (clear_entropy_level c.health) ≡ some (bytes, false, h)
      → extract_bytes c 64 in_buf
        ≡ some (bytes, false, record c { health = h; message = Message.health_failed })
  unfolding extract_bytes
  bad_samples c in_buf bytes h e = rw (extract_bytes, e) refl

module _ {f : Floats} {sponge : Sponge} {W : Type 0} where
  -- A read returns: either one of the errors -1, -2 and -3, or a success.
  pub record Served (raw : Bool) (multiplier : ℕ) (r : Option (Output × State f sponge W))
      : Type 0 where
    pub out : Output
    pub after : State f sponge W
    pub returns : r ≡ some (out, after)
    pub outcome :
        ((k : ℕ) × (out.code ≡ Code.failed k) × (0 < k) × (k ≤ 3))
        ⊎ Delivered raw multiplier out after.ctx

  Served-error :
      {raw : Bool} {multiplier : ℕ} {r : Option (Output × State f sponge W)} (k : ℕ)
      (after : State f sponge W)
      → r ≡ some (nothing (Code.failed k), after)
      → 0 < k
      → k ≤ 3
      → Served raw multiplier r
  Served-error k after e pos le = record {
    out = nothing (Code.failed k);
    after = after;
    returns = e;
    outcome = inl (k, refl, pos, le);
  }

  served :
      {raw : Bool} {multiplier : ℕ} {r : Option (Output × State f sponge W)} (out : Output)
      (after : State f sponge W)
      → r ≡ some (out, after)
      → Delivered raw multiplier out after.ctx
      → Served raw multiplier r
  served out after e d = record { out = out; after = after; returns = e; outcome = inr d }

  module _ (ftdi : Libftdi W) (laws : AreLaws f) (is_sponge : IsSponge sponge) where
    -- What follows the loops of `extractBytes` when they succeed.
    samples-Served :
        (raw : Bool) (multiplier : ℕ) (s : State f sponge W) (in_buf bytes : List ℕ) (h : Health f)
        → extract_loop 64 0 in_buf (clear_entropy_level s.ctx.health) ≡ some (bytes, true, h)
        → IsValid h
        → IsCapped f h.expected_entropy_per_bit
        → length bytes ≡ 64
        → s.ctx.keccak_bytes_given ≡ 0
        → Served raw multiplier (use_samples ftdi in_buf true raw multiplier s)
    unfolding use_samples
    samples-Served raw multiplier s in_buf bytes h e v k len none_left =
        let c = record s.ctx { health = h; entropy_this_time = h.entropy_level } in
        let r = process_bytes c bytes true raw multiplier in
        elim (Bool-cases (passes c)) [
          | inl good ↦
              served r.0 (record s { ctx = r.1 })
                (rw (use_samples, good_samples s.ctx in_buf bytes h e, good) refl)
                (process_bytes-Delivered is_sponge c bytes raw multiplier v k none_left len)
          | inr bad ↦
              served (nothing (Code.given 0)) (record s { ctx = c })
                (rw (use_samples, good_samples s.ctx in_buf bytes h e, bad) refl)
                (nothing-Delivered raw multiplier c
                  (none_left-IsReady is_sponge raw multiplier c v k none_left))
        ]

    use_samples-Served :
        (raw : Bool) (multiplier : ℕ) (s : State f sponge W) (in_buf : List ℕ)
        → IsReady raw multiplier s.ctx
        → s.ctx.keccak_bytes_given ≡ 0
        → Served raw multiplier (use_samples ftdi in_buf true raw multiplier s)
    unfolding clear_entropy_level use_samples
    use_samples-Served raw multiplier s in_buf ready none_left =
        let h = clear_entropy_level s.ctx.health in
        let x =
          extract_loop-Extracted laws 64 0 in_buf h (cleared-IsValid s.ctx.health ready.health) in
        let failure = λ (bad : x.good ≡ false).
          Served-error {raw = raw} {multiplier = multiplier}
            {r = use_samples ftdi in_buf true raw multiplier s} 3
            (record s { ctx = record s.ctx { health = x.after; message = Message.health_failed } })
            (rw
              (
                use_samples,
                bad_samples s.ctx in_buf x.value x.after
                    (x.returns ∙ ap (λ good. some (x.value, good, x.after)) bad),
              )
              refl)
            (omega arith) (omega arith) in
        elim x.settled [
          | inl bad ↦ failure bad
          | inr settled ↦ elim (Bool-cases x.good) [
            | inr bad ↦ failure bad
            | inl good ↦
                samples-Served raw multiplier s in_buf x.value x.after
                  (x.returns ∙ ap (λ good. some (x.value, good, x.after)) good) settled.0
                  (rw x.expected ready.capped) settled.1 none_left
          ]
        ]

    read_fresh-Served :
        (raw : Bool) (multiplier : ℕ) (s : State f sponge W)
        → IsReady raw multiplier s.ctx
        → s.ctx.keccak_bytes_given ≡ 0
        → Served raw multiplier (read_fresh ftdi true raw multiplier s)
    unfolding read_fresh service get_ctx complain ◌>>=◌ ◌>>◌ return
    read_fresh-Served raw multiplier s ready none_left =
        let (start, w) = ftdi.clock s.world in
        let (sent, w1) = ftdi.write_data s.ctx.out_buf w in
        let (answer, w2) = ftdi.read_data buflen w1 in
        let (end, w3) = ftdi.clock w2 in
        elim (Bool-cases (is_exactly sent buflen)) [
          | inr short ↦
              Served-error 1
                (record s { ctx = record s.ctx { message = Message.write_failed }; world = w1 })
                (rw short refl) (omega arith) (omega arith)
          | inl all ↦ elim (Bool-cases (is_exactly answer.0 buflen)) [
            | inr short ↦
                Served-error 2
                  (record s { ctx = record s.ctx { message = Message.read_failed }; world = w2 })
                  (rw (all, short) refl) (omega arith) (omega arith)
            | inl read ↦ elim (Bool-cases (f.lt (f.of_u32 max_microsec) (diff_time f start end))) [
              | inl slow ↦
                  served (nothing (Code.given 0)) (record s { world = w3 })
                    (rw (all, read, slow) refl) (nothing-Delivered raw multiplier s.ctx ready)
              | inr in_time ↦
                  rw (all, read, in_time)
                    (use_samples-Served raw multiplier (record s { world = w3 }) answer.1 ready
                      none_left)
            ]
          ]
        ]

    -- By the laws of the floating-point numbers and of the sponge, `readData` with a buffer returns from
    -- a context whose health check is valid, whose bound on the entropy is at most 512 bits, and that
    -- has whole lanes left of the last absorption, none if the main program's buffer holds 64 bytes. It
    -- returns -1, -2 or -3, or it stores as many bytes as it returns, no more than that buffer holds,
    -- and the context is such a context again.
    pub read_data-Served :
        (raw : Bool) (multiplier : ℕ) (s : State f sponge W)
        → IsReady raw multiplier s.ctx
        → Served raw multiplier (read_data ftdi true raw multiplier s)
    unfolding read_data get_ctx put_ctx ◌>>=◌ ◌>>◌ return
    read_data-Served raw multiplier s ready = elim (Bool-cases (s.ctx.keccak_bytes_given == 0)) [
      | inl empty ↦ rw empty (read_fresh-Served raw multiplier s ready (ground arith))
      | inr left ↦
          let r = squeeze s.ctx in
          served r.0 (record s { ctx = r.1 }) (rw left refl)
            (squeeze-Delivered is_sponge raw multiplier s.ctx ready.health ready.capped ready.lanes
              ready.range
              (elim ready.small [
                | inl zero_left ↦ inl (omega (arith, zero_left))
                | inr big ↦ inr big
              ]))
    ]
