-- ===== src/Userspace/Options/Precedence.antt =====
-- Where the multiplier of a run comes from.
use infnoise.Base.{
  ℕ, ◌≡◌, refl, ◌∙◌, Bool, true, false, List, [], ◌∷◌, Option, none, some, if◌then◌else◌, subst,
  Bool-cases, inl, inr,
}
use infnoise.Userspace.Steps.{Code}
use infnoise.Userspace.Options.{
  Text, Event, Opts, Environment, Request, init_opts, named, set_multiplier, set_feed_freq,
  take_option, take_options, take_names, take_multiplier, take_default, read_environment,
  decide_request,
}

-- A claim about the value, where there is one.
Holds : {A : Type 0} → (A → Type 0) → Option A → Type 0
Holds P none = Unit
Holds P (some a) = P a

Holds-if :
    {A : Type 0} (P : A → Type 0) (b : Bool) (x y : Option A)
    → Holds P x
    → Holds P y
    → Holds P (if b then x else y)
Holds-if P true x y p q = p
Holds-if P false x y p q = q

-- The options agree with the multiplier and the choice of /dev/random that are known.
Agrees : Option ℕ → Bool → Opts → Type 0
Agrees none wanted o =
    (o.multiplier_assigned ≡ false) × (o.output_multiplier ≡ 0) × (o.dev_random ≡ wanted)
Agrees (some n) wanted o =
    (o.multiplier_assigned ≡ true) × (o.output_multiplier ≡ n) × (o.dev_random ≡ wanted)

Agrees-wanted :
    (known : Option ℕ) (wanted wanted' : Bool) (o o' : Opts)
    → o'.multiplier_assigned ≡ o.multiplier_assigned
    → o'.output_multiplier ≡ o.output_multiplier
    → o'.dev_random ≡ wanted'
    → Agrees known wanted o
    → Agrees known wanted' o'
unfolding Agrees
Agrees-wanted none wanted wanted' o o' e k d a = (e ∙ a.0, k ∙ a.1, d)
Agrees-wanted (some n) wanted wanted' o o' e k d a = (e ∙ a.0, k ∙ a.1, d)

Agrees-dev_random :
    (known : Option ℕ) (wanted : Bool) (o : Opts) → Agrees known wanted o → o.dev_random ≡ wanted
unfolding Agrees
Agrees-dev_random none wanted o a = a.2
Agrees-dev_random (some n) wanted o a = a.2

value : Code → ℕ
value (Code.given n) = n
value (Code.failed n) = 0

pub or_default : Option ℕ → Bool → ℕ
or_default (some n) wanted = n
or_default none wanted = if wanted then 2 else 0

after_text :
    (P : Opts → Type 0) (r : Option Text) (next : Text → Opts)
    → ((text : Text) → P (next text))
    → Holds P (elim r as (λ _. Option Opts) [ none ↦ none | some text ↦ some (next text) ])
unfolding Holds
after_text P none next p = tt
after_text P (some text) next p = p text

after_code :
    (P : Opts → Type 0) (r : Code) (next : ℕ → Opts)
    → ((n : ℕ) → n ≡ value r → P (next n))
    → Holds P (elim r as (λ _. Option Opts) [ Code.failed n ↦ none | Code.given n ↦ some (next n) ])
unfolding Holds value
after_code P (Code.failed n) next p = tt
after_code P (Code.given n) next p = p n refl

module _ (atoi : Text → Code) where
  -- The last multiplier among the options, by itself.
  pub last_multiplier : List Event → Option ℕ → Option ℕ
  last_multiplier [] known = known
  last_multiplier (Event.multiplier text ∷ events) known =
      last_multiplier events (some (value (atoi text)))
  last_multiplier (event ∷ events) known = last_multiplier events known

  -- Whether /dev/random is asked for.
  pub wants_dev_random : List Event → Bool → Bool
  wants_dev_random [] wanted = wanted
  wants_dev_random (Event.dev_random ∷ events) wanted = wants_dev_random events true
  wants_dev_random (event ∷ events) wanted = wants_dev_random events wanted

  -- The multiplier that is known once the environment is read.
  pub or_environment : Option ℕ → Option Text → Option ℕ
  or_environment (some n) env = some n
  or_environment none (some text) = some (value (atoi text))
  or_environment none none = none

  -- The command line comes first, then the environment, then 2 for /dev/random, then 0.
  pub expected_multiplier : List Event → Environment → ℕ
  expected_multiplier events env =
      or_default (or_environment (last_multiplier events none) env.multiplier)
        (wants_dev_random events false)

  Follows : List Event → Option ℕ → Bool → Option Opts → Type 0
  Follows events known wanted r =
      Holds (Agrees (last_multiplier events known) (wants_dev_random events wanted)) r

  -- The rest of the loop behind an option that may end the program.
  after_option :
      (r : Option Opts) (events : List Event) (known : Option ℕ) (wanted : Bool)
      → Holds (λ o. Follows events known wanted (take_options atoi events o)) r
      → Follows events known wanted
          (elim r as (λ _. Option Opts) [ none ↦ none | some o ↦ take_options atoi events o ])
  unfolding Follows Holds
  after_option none events known wanted rest = tt
  after_option (some o) events known wanted rest = rest

  take_options-Follows :
      (events : List Event) (known : Option ℕ) (wanted : Bool) (o : Opts)
      → Agrees known wanted o
      → Follows events known wanted (take_options atoi events o)
  unfolding take_options take_option set_feed_freq set_multiplier last_multiplier wants_dev_random
      Follows Holds Agrees
  take_options-Follows [] known wanted o a = a
  take_options-Follows (Event.raw ∷ events) known wanted o a =
      let o' = record o { raw = true } in
      take_options-Follows events known wanted o'
        (Agrees-wanted known wanted wanted o o' refl refl (Agrees-dev_random known wanted o a) a)
  take_options-Follows (Event.debug ∷ events) known wanted o a =
      let o' = record o { debug = true } in
      take_options-Follows events known wanted o'
        (Agrees-wanted known wanted wanted o o' refl refl (Agrees-dev_random known wanted o a) a)
  take_options-Follows (Event.force_reseed ∷ events) known wanted o a =
      let o' = record o { force_reseed = true } in
      take_options-Follows events known wanted o'
        (Agrees-wanted known wanted wanted o o' refl refl (Agrees-dev_random known wanted o a) a)
  take_options-Follows (Event.no_output ∷ events) known wanted o a =
      let o' = record o { no_output = true } in
      take_options-Follows events known wanted o'
        (Agrees-wanted known wanted wanted o o' refl refl (Agrees-dev_random known wanted o a) a)
  take_options-Follows (Event.daemon ∷ events) known wanted o a =
      let o' = record o { daemon = true } in
      take_options-Follows events known wanted o'
        (Agrees-wanted known wanted wanted o o' refl refl (Agrees-dev_random known wanted o a) a)
  take_options-Follows (Event.list_devices ∷ events) known wanted o a =
      let o' = record o { list_devices = true } in
      take_options-Follows events known wanted o'
        (Agrees-wanted known wanted wanted o o' refl refl (Agrees-dev_random known wanted o a) a)
  take_options-Follows (Event.version ∷ events) known wanted o a =
      let o' = record o { version = true } in
      take_options-Follows events known wanted o'
        (Agrees-wanted known wanted wanted o o' refl refl (Agrees-dev_random known wanted o a) a)
  take_options-Follows (Event.help ∷ events) known wanted o a =
      let o' = record o { help = true } in
      take_options-Follows events known wanted o'
        (Agrees-wanted known wanted wanted o o' refl refl (Agrees-dev_random known wanted o a) a)
  take_options-Follows (Event.unknown ∷ events) known wanted o a =
      let o' = record o { help = true; none_valid = true } in
      take_options-Follows events known wanted o'
        (Agrees-wanted known wanted wanted o o' refl refl (Agrees-dev_random known wanted o a) a)
  take_options-Follows (Event.dev_random ∷ events) known wanted o a =
      let o' = record o { dev_random = true } in
      take_options-Follows events known true o'
        (Agrees-wanted known wanted true o o' refl refl refl a)
  take_options-Follows (Event.pid_file_name text ∷ events) known wanted o a =
      after_option
        (elim (named text) as (λ _. Option Opts) [
          | none ↦ none
          | some name ↦ some (record o { pid_file_name = some name })
        ])
        events known wanted
        (after_text _ (named text) (λ name. record o { pid_file_name = some name })
          (λ name.
            take_options-Follows events known wanted (record o { pid_file_name = some name })
              (Agrees-wanted known wanted wanted o (record o { pid_file_name = some name }) refl
                refl (Agrees-dev_random known wanted o a) a)))
  take_options-Follows (Event.serial text ∷ events) known wanted o a =
      after_option
        (elim (named text) as (λ _. Option Opts) [
          | none ↦ none
          | some name ↦ some (record o { serial = some name })
        ])
        events known wanted
        (after_text _ (named text) (λ name. record o { serial = some name })
          (λ name.
            take_options-Follows events known wanted (record o { serial = some name })
              (Agrees-wanted known wanted wanted o (record o { serial = some name }) refl refl
                (Agrees-dev_random known wanted o a) a)))
  take_options-Follows (Event.feed_freq text ∷ events) known wanted o a =
      after_option (set_feed_freq atoi text o) events known wanted (
        after_code _ (atoi text) (λ n. record o { feed_freq = n })
          (λ n e.
            take_options-Follows events known wanted (record o { feed_freq = n })
              (Agrees-wanted known wanted wanted o (record o { feed_freq = n }) refl refl
                (Agrees-dev_random known wanted o a) a)))
  take_options-Follows (Event.multiplier text ∷ events) known wanted o a =
      after_option (set_multiplier atoi text o) events (some (value (atoi text))) wanted (
        after_code _ (atoi text)
          (λ n. record o { output_multiplier = n; multiplier_assigned = true })
          (λ n e.
            take_options-Follows events (some (value (atoi text))) wanted
              (record o { output_multiplier = n; multiplier_assigned = true })
              (refl, e, Agrees-dev_random known wanted o a)))

  take_multiplier-Agrees :
      (known : Option ℕ) (wanted : Bool) (env : Environment) (o : Opts)
      → Agrees known wanted o
      → Holds (Agrees (or_environment known env.multiplier) wanted) (take_multiplier atoi env o)
  unfolding take_multiplier set_multiplier or_environment Holds Agrees
  take_multiplier-Agrees (some n) wanted env o a = rw a.0 (refl, a.1, a.2)
  take_multiplier-Agrees none wanted env o a = rw a.0 (of_environment env.multiplier)
    where
      of_environment :
          (text : Option Text)
          → Holds
              (Agrees (or_environment none text) wanted)
              (elim text as (λ _. Option Opts) [ none ↦ some o | some t ↦ set_multiplier atoi t o ])
      of_environment none = a
      of_environment (some t) =
          after_code (Agrees (some (value (atoi t))) wanted) (atoi t)
            (λ n. record o { output_multiplier = n; multiplier_assigned = true })
            (λ n e. (refl, e, a.2))

  take_default-multiplier :
      (known : Option ℕ) (wanted : Bool) (o : Opts)
      → Agrees known wanted o
      → (take_default o).output_multiplier ≡ or_default known wanted
  unfolding take_default or_default Agrees
  take_default-multiplier (some n) wanted o a = rw a.0 a.1
  take_default-multiplier none true o a = rw (a.0, a.2) refl
  take_default-multiplier none false o a = rw (a.0, a.2) a.1

  take_names-Agrees :
      (known : Option ℕ) (wanted : Bool) (env : Environment) (o : Opts)
      → Agrees known wanted o
      → Agrees known wanted (take_names env o)
  unfolding take_names
  take_names-Agrees known wanted env o a =
      Agrees-wanted known wanted wanted o (take_names env o) refl refl
        (Agrees-dev_random known wanted o a) a

  Multiplied : ℕ → Request → Type 0
  Multiplied n (Request.usage status) = Unit
  Multiplied n Request.show_version = Unit
  Multiplied n (Request.list_all o) = o.output_multiplier ≡ n
  Multiplied n (Request.run o) = o.output_multiplier ≡ n

  read_environment-Multiplied :
      (known : Option ℕ) (wanted : Bool) (env : Environment) (o : Opts)
      → Agrees known wanted o
      → Holds
          (λ o'. o'.output_multiplier ≡ or_default (or_environment known env.multiplier) wanted)
          (read_environment atoi env o)
  unfolding read_environment Holds
  read_environment-Multiplied known wanted env o a =
      settled (take_multiplier atoi env (take_names env o)) (
        take_multiplier-Agrees known wanted env (take_names env o)
          (take_names-Agrees known wanted env o a))
    where
      settled :
          (r : Option Opts)
          → Holds (Agrees (or_environment known env.multiplier) wanted) r
          → Holds
              (λ o'. o'.output_multiplier ≡ or_default (or_environment known env.multiplier) wanted)
              (elim r as (λ _. Option Opts) [ none ↦ none | some o' ↦ some (take_default o') ])
      settled none h = tt
      settled (some o') h =
          take_default-multiplier (or_environment known env.multiplier) wanted o' h

  -- What is decided once the options are read.
  decided :
      (n : ℕ) (env : Environment) (o : Opts)
      → Holds (λ o'. o'.output_multiplier ≡ n) (read_environment atoi env o)
      → Holds (Multiplied n) (
          if o.help
          then some (Request.usage o.none_valid)
          else if o.version
          then some Request.show_version
          else elim (read_environment atoi env o) as (λ _. Option Request) [
            | none ↦ none
            | some o' ↦ some (if o'.list_devices then Request.list_all o' else Request.run o')
          ])
  unfolding Holds Multiplied
  decided n env o h = Holds-if (Multiplied n) o.help (some (Request.usage o.none_valid)) _ tt (
      Holds-if (Multiplied n) o.version (some Request.show_version) _ tt
        (listed (read_environment atoi env o) h))
    where
      listed :
          (r : Option Opts)
          → Holds (λ o'. o'.output_multiplier ≡ n) r
          → Holds (Multiplied n) (elim r as (λ _. Option Request) [
            | none ↦ none
            | some o' ↦ some (if o'.list_devices then Request.list_all o' else Request.run o')
          ])
      listed none k = tt
      listed (some o') k = elim (Bool-cases o'.list_devices) [
        | inl lists ↦ rw lists k
        | inr runs ↦ rw runs k
      ]

  decide_request-Multiplied :
      (events : List Event) (env : Environment)
      → Holds (Multiplied (expected_multiplier events env)) (decide_request atoi events env)
  unfolding decide_request Holds Follows expected_multiplier Agrees
  decide_request-Multiplied events env =
      taken (take_options atoi events init_opts)
        (take_options-Follows events none false init_opts (refl, refl, refl))
    where
      taken :
          (r : Option Opts)
          → Follows events none false r
          → Holds (Multiplied (expected_multiplier events env)) (elim r as (λ _. Option Request) [
            | none ↦ none
            | some o ↦
                if o.help
                then some (Request.usage o.none_valid)
                else if o.version
                then some Request.show_version
                else elim (read_environment atoi env o) [
                  | none ↦ none
                  | some o' ↦ some (if o'.list_devices then Request.list_all o' else Request.run o')
                ]
          ])
      taken none h = tt
      taken (some o) h = decided (expected_multiplier events env) env o (
          read_environment-Multiplied (last_multiplier events none) (wants_dev_random events false)
            env o h)

  -- When the program runs, its multiplier is that of the last such option of the command line; without
  -- one it is that of the environment; without either it is 2 with /dev/random and 0 otherwise.
  pub decide_request-multiplier :
      (events : List Event) (env : Environment) (o : Opts)
      → decide_request atoi events env ≡ some (Request.run o)
      → o.output_multiplier ≡ expected_multiplier events env
  unfolding Holds Multiplied
  decide_request-multiplier events env o e =
      subst (Holds (Multiplied (expected_multiplier events env))) e
        (decide_request-Multiplied events env)
