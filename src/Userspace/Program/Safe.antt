-- ===== src/Userspace/Program/Safe.antt =====
-- The buffer of the entropy pool in the main loop.
use infnoise.Base.{
  ℕ, zero, suc, ◌+◌, ◌%◌, ◌^◌, ◌≤◌, ◌≡◌, ◌⊎◌, inl, inr, refl, ap, subst, ◌∙◌, Bool, true, false,
  List, ◌++◌, Option, none, some, leb, if◌then◌else◌, length, drop, length-append, length-drop,
  arith, Bool-cases, ◌==◌,
}
use infnoise.Userspace.Floats.{Floats, AreLaws}
use infnoise.Userspace.Context.{Sponge, Libftdi, Output}
use infnoise.Userspace.Library.Total.{IsSponge, IsReady, Delivered, result_size}
use infnoise.Userspace.Library.Read.{read_data-Served}
use infnoise.Userspace.Options.{Opts}
use infnoise.Userspace.Pool.{Random, Pool, copy_to_front, wait_for_pool, write_entropy_to_pool}
use infnoise.Userspace.Program.{
  Host, Ending, Step, Running, feed_pool, output_bytes, use_output, main_round, main_loop,
}

copy_to_front-fits :
    (bytes buf : List ℕ)
    → length bytes ≤ length buf
    → (buf' : List ℕ) × (copy_to_front bytes buf ≡ some buf') × (length buf' ≡ length buf)
unfolding copy_to_front
copy_to_front-fits bytes buf le =
    let fits : leb (length bytes) (length buf) ≡ true = ground arith in
    (
      bytes ++ drop (length bytes) buf,
      rw fits refl,
      length-append bytes (drop (length bytes) buf) ∙ omega (arith, length-drop (length bytes) buf),
    )

-- The main loop still runs when its fuel is used up, or it has ended with status 0 or 1.
pub Ends : Option Ending → Type 0
Ends r = (r ≡ none) ⊎ (r ≡ some (Ending.exit 0)) ⊎ (r ≡ some (Ending.exit 1))

module _ {W : Type 0} (random : Random W) where
  written :
      (pool : Pool) (bytes : List ℕ) (entropy : ℕ) (w : W)
      → length pool.buf ≡ 64
      → length bytes ≤ 64
      → (pool' : Pool) × (write_entropy_to_pool random pool bytes entropy w
          ≡ some (pool', random.add_entropy entropy bytes w))
        × (length pool'.buf ≡ 64)
  unfolding write_entropy_to_pool
  written pool bytes entropy w room le =
      let c = copy_to_front-fits bytes pool.buf (omega (arith, room, le)) in
      (record pool { buf = c.0 }, rw (write_entropy_to_pool, c.1) refl, c.2 ∙ room)

module _ {f : Floats} {sponge : Sponge} {W : Type 0} where
  -- Between two rounds: a context that is ready for a read, and a pool buffer of 64 bytes.
  pub record IsLooping (o : Opts) (s : Running f sponge W) : Type 0 where
    pub ready : IsReady o.raw o.output_multiplier s.state.ctx
    pub room : length s.pool.buf ≡ 64

  -- A round goes on from such a state, or the program exits with status 1.
  pub IsSound : Opts → Step (Running f sponge W) → Type 0
  IsSound o (Step.next s) = IsLooping o s
  IsSound o (Step.ended ending) = ending ≡ Ending.exit 1

  IsSound-if :
      (o : Opts) (b : Bool) (x y : Step (Running f sponge W))
      → (b ≡ true → IsSound o x)
      → IsSound o y
      → IsSound o (if b then x else y)
  IsSound-if o true x y p q = p refl
  IsSound-if o false x y p q = q

  module _ (random : Random W) (host : Host W) where
    feed_pool-IsSound :
        (o : Opts) (bytes : List ℕ) (entropy : ℕ) (s : Running f sponge W)
        → IsLooping o s
        → length bytes ≤ 64
        → IsSound o (feed_pool random host o bytes entropy s)
    unfolding feed_pool IsSound
    feed_pool-IsSound o bytes entropy s l le =
        let r =
          written random s.pool bytes entropy
            (wait_for_pool random s.pool o.feed_freq s.state.world) l.room le in
        rw (IsSound, feed_pool, r.1) (record { ready = l.ready; room = r.2 })

    output_bytes-IsSound :
        (o : Opts) (bytes : List ℕ) (entropy : ℕ) (s : Running f sponge W)
        → IsLooping o s
        → (o.dev_random ≡ false) ⊎ (length bytes ≤ 64)
        → IsSound o (output_bytes random host o bytes entropy s)
    unfolding output_bytes IsSound
    output_bytes-IsSound o bytes entropy s l fits =
        let w = (host.fwrite bytes s.state.world).1 in
        IsSound-if o o.dev_random (feed_pool random host o bytes entropy s) _
          (λ on.
            feed_pool-IsSound o bytes entropy s l
              (elim fits [ inl off ↦ absurd (cc) | inr le ↦ le ]))
          (IsSound-if o ((host.fwrite bytes s.state.world).0 == length bytes)
            (Step.next (record s { state = record s.state { world = w } }))
            (Step.ended (Ending.exit 1)) (λ all. record { ready = l.ready; room = l.room }) refl)

    use_output-IsSound :
        (o : Opts) (out : Output) (s : Running f sponge W)
        → Delivered o.raw o.output_multiplier out s.state.ctx
        → length s.pool.buf ≡ 64
        → (o.dev_random ≡ false) ⊎ (result_size o.raw o.output_multiplier ≡ 64)
        → IsSound o (use_output random host o out s)
    unfolding use_output IsSound
    use_output-IsSound o out s d room fits =
        let s1 = record s { total_bytes_written = (s.total_bytes_written + d.count) % 2 ^ 64 } in
        let looping : IsLooping o s1 = record { ready = d.ready; room = room } in
        rw (IsSound, use_output, d.code)
          (IsSound-if o o.no_output (Step.next s1) _ (λ off. looping)
            (output_bytes-IsSound o out.written s.state.ctx.entropy_this_time s1 looping
              (elim fits [
                | inl off ↦ inl off
                | inr small ↦ inr (omega (arith, d.stored, d.fits, small))
              ])))

    module _ (ftdi : Libftdi W) (laws : AreLaws f) (is_sponge : IsSponge sponge) where
      -- By the laws of the floating-point numbers and of the sponge, and given that the program does
      -- not write to /dev/random or that its buffer holds 64 bytes: each round of the main loop returns
      -- from a context that is ready for a read with a pool buffer of 64 bytes. It leads to such a state
      -- again or to an exit with status 1, and so never to a write past the end of the pool buffer.
      pub main_round-IsSound :
          (o : Opts) (s : Running f sponge W)
          → IsLooping o s
          → (o.dev_random ≡ false) ⊎ (result_size o.raw o.output_multiplier ≡ 64)
          → (step : Step (Running f sponge W)) × (main_round random host ftdi o s ≡ some step)
            × IsSound o step
      unfolding main_round use_output IsSound
      main_round-IsSound o s l fits =
          let r = read_data-Served ftdi laws is_sponge o.raw o.output_multiplier s.state l.ready in
          let s1 = record s { state = r.after } in
          (
            use_output random host o r.out s1,
            rw (main_round, r.returns) refl,
            elim r.outcome [
              | inl failed ↦ rw (IsSound, use_output, failed.1) refl
              | inr d ↦ use_output-IsSound o r.out s1 d l.room fits
            ],
          )

      loop_step :
          (fuel : ℕ) (o : Opts) (s s1 : Running f sponge W) (step : Step (Running f sponge W))
          → s1 ≡ record s { state = record s.state { world = (host.running s.state.world).1 } }
          → (host.running s.state.world).0 ≡ true
          → main_round random host ftdi o s1 ≡ some step
          → main_loop random host ftdi (suc fuel) o s ≡ elim step [
            | Step.ended ending ↦ some ending
            | Step.next s' ↦ main_loop random host ftdi fuel o s'
          ]
      unfolding main_loop
      loop_step fuel o s s1 step same on e =
          rw (main_loop, on, subst (λ x. main_round random host ftdi o x ≡ some step) same e) refl

      -- Under the same conditions the main loop never writes past the end of the pool buffer: within any
      -- number of rounds it still runs, or it has ended with status 0 or 1.
      pub main_loop-safe :
          (fuel : ℕ) (o : Opts) (s : Running f sponge W)
          → IsLooping o s
          → (o.dev_random ≡ false) ⊎ (result_size o.raw o.output_multiplier ≡ 64)
          → Ends (main_loop random host ftdi fuel o s)
      unfolding main_loop IsSound Ends
      main_loop-safe zero o s l fits = inl refl
      main_loop-safe (suc fuel) o s l fits = elim (Bool-cases (host.running s.state.world).0) [
        | inr off ↦ inr (inl (rw (main_loop, off) refl))
        | inl on ↦
            let s1 = record s {
              state = record s.state { world = (host.running s.state.world).1 };
            } in
            let r = main_round-IsSound o s1 (record { ready = l.ready; room = l.room }) fits in
            looped on r.0 (loop_step fuel o s s1 r.0 refl on r.1) r.2
              (λ s' sound. main_loop-safe fuel o s' sound fits)
      ]
        where
          looped :
              (host.running s.state.world).0 ≡ true
              → (step : Step (Running f sponge W))
              → main_loop random host ftdi (suc fuel) o s ≡ elim step [
                | Step.ended ending ↦ some ending
                | Step.next s' ↦ main_loop random host ftdi fuel o s'
              ]
              → IsSound o step
              → ((s' : Running f sponge W)
                  → IsLooping o s'
                  → Ends (main_loop random host ftdi fuel o s'))
              → Ends (main_loop random host ftdi (suc fuel) o s)
          looped on (Step.ended ending) e sound rest = inr (inr (e ∙ ap some sound))
          looped on (Step.next s') e sound rest = elim (rest s' sound) [
            | inl running ↦ inl (e ∙ running)
            | inr (inl zero_status) ↦ inr (inl (e ∙ zero_status))
            | inr (inr one_status) ↦ inr (inr (e ∙ one_status))
          ]
