-- ===== src/Tools/EntCheck/Main.antt =====
-- The main program of the entropy check: its arguments, and how it ends.
use infnoise.Base.{
  same_text, ℕ, ◌*◌, ◌≤◌, ◌<◌, ◌≡◌, inl, inr, refl, Bool, List, [], ◌∷◌, Option-cases, some, length,
  u64, arith, Bool-cases, ◌==◌, ltb, ◌||◌, not, subst,
}
use infnoise.Userspace.Options.{Text}
use infnoise.Userspace.Steps.{Code}
use infnoise.Userspace.Floats.{Floats, AreLaws}
use infnoise.Tools.EntCheck.{
  byte_of, EntCheck, initial, start, take_arguments, Ending, main, all_allocated,
}
use infnoise.Tools.EntCheck.Valid.{IsValid}
use infnoise.Tools.EntCheck.Scale.{initial-IsValid}
use infnoise.Tools.EntCheck.Total.{add_bytes-Counted}

-- What main reads has at least one and at most thirty-two streams.
take_arguments-streams :
    (atoi : Text → Code) (arguments : List Text) (n num_streams m streams : ℕ)
    → 0 < num_streams
    → num_streams ≤ 32
    → take_arguments atoi arguments n num_streams ≡ some (m, streams)
    → (0 < streams) × (streams ≤ 32)
unfolding take_arguments
take_arguments-streams atoi [] n num_streams m streams pos few e = ground (arith, pos, few, e)
take_arguments-streams atoi (a ∷ []) n num_streams m streams pos few e = ground arith
take_arguments-streams atoi (a ∷ text ∷ rest) n num_streams m streams pos few e =
    elim (Bool-cases (same_text a (45 ∷ 78 ∷ []))) [
      | inl is_n ↦
          take_arguments-streams atoi rest (byte_of (atoi text)) num_streams m streams pos few
            (ground (arith, e, is_n))
      | inr not_n ↦ elim (Bool-cases (byte_of (atoi text) == 0 || ltb 32 (byte_of (atoi text)))) [
        | inl wrong ↦ ground (arith, e, not_n, wrong)
        | inr right ↦
            take_arguments-streams atoi rest n (byte_of (atoi text)) m streams
              (ground (arith, right)) (ground (arith, right)) (ground (arith, e, not_n, right))
      ]
    ]

-- What `main` promises of its ending for `k` bits of input.
abbrev pub IsSound : {f : Floats} → ℕ → Ending f → Type 0
IsSound k Ending.usage = Unit
IsSound k Ending.no_memory = Unit
IsSound k (Ending.finished s) = IsValid s × (s.total_bits ≡ u64 k)

module _ {f : Floats} (laws : AreLaws f) where
  start-IsValid :
      (n num_streams : ℕ) (got : ℕ → Bool) (s : EntCheck f)
      → 0 < num_streams
      → num_streams ≤ 32
      → start n num_streams got ≡ some s
      → IsValid s × (s.total_bits ≡ 0)
  unfolding start
  start-IsValid n num_streams got s pos few e =
      elim (Bool-cases ((ltb n 1 || ltb 30 n) || not (all_allocated got num_streams))) [
        | inl bad ↦ ground (arith, e, bad)
        | inr good ↦
            let same_state : initial n num_streams ≡ s = ground (arith, e, good) in
            subst (λ s. IsValid s × (s.total_bits ≡ 0)) same_state
              (
                initial-IsValid n num_streams (ground (arith, good)) (ground (arith, good)) pos
                    (omega (arith, few)) (laws.done f.one laws.one-AtLeast),
                unfold initial in refl,
              )
      ]

  -- The main program ends on all arguments and inputs: with its usage, for want of memory, or with a
  -- valid state that has counted eight bits for each byte of the input, modulo `2 ^ 64`. Valid means
  -- that the context indexes the tables, that no counter has reached its limit, that the samples and
  -- the totals are below the minimum of data, and that at most sixteen bits of entropy are credited
  -- for a sample.
  pub main-IsSound :
      (atoi : Text → Code) (got : ℕ → Bool) (arguments : List Text) (input : List ℕ)
      → (ending : Ending f) × (main atoi got arguments input ≡ some ending)
        × IsSound (8 * length input) ending
  unfolding main
  main-IsSound atoi got arguments input = elim (Option-cases (take_arguments atoi arguments 12 2)) [
    | inl refused ↦ (Ending.usage, rw (main, refused) refl, tt)
    | inr ((n, num_streams), read) ↦
        let streams =
          take_arguments-streams atoi arguments 12 2 n num_streams (omega arith) (omega arith)
            read in
        elim (Option-cases (start {f = f} n num_streams got)) [
          | inl small ↦ (Ending.no_memory, rw (main, read, small) refl, tt)
          | inr (s, started) ↦
              let fresh = start-IsValid n num_streams got s streams.0 streams.1 started in
              let run = add_bytes-Counted laws input s fresh.0 (omega (arith, fresh.1)) in
              (
                Ending.finished run.next,
                rw (main, read, started, run.returns) refl,
                (run.valid, omega (arith, run.counted, fresh.1)),
              )
        ]
  ]
