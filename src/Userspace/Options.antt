-- ===== src/Userspace/Options.antt =====
-- The options of software/infnoise.c and the environment variables that stand in for them. What
-- `getopt_long` returns is a list of events, and `atoi` is a parameter.
pub mod Precedence
use infnoise.Base.{
  ℕ, zero, suc, Bool, true, false, not, ◌&&◌, ◌||◌, List, [], ◌∷◌, Option, none, some,
  if◌then◌else◌, ◌==◌,
}
use infnoise.Userspace.Steps.{Code}

-- A string without its end.
abbrev pub Text : Type 0
Text = List ℕ

-- One option as `getopt_long` reports it, with its argument.
pub data Event : Type 0 where
  raw : Event
  debug : Event
  dev_random : Event
  force_reseed : Event
  no_output : Event
  feed_freq : Text → Event
  multiplier : Text → Event
  pid_file_name : Text → Event
  serial : Text → Event
  daemon : Event
  list_devices : Event
  version : Event
  help : Event
  unknown : Event

-- `struct opt_struct`, with `multiplierAssigned` of the main program at its end. NULL is `none`.
pub record Opts : Type 0 where
  pub output_multiplier : ℕ
  pub feed_freq : ℕ
  pub daemon : Bool
  pub debug : Bool
  pub dev_random : Bool
  pub force_reseed : Bool
  pub no_output : Bool
  pub list_devices : Bool
  pub help : Bool
  pub none_valid : Bool
  pub raw : Bool
  pub version : Bool
  pub pid_file_name : Option Text
  pub serial : Option Text
  pub multiplier_assigned : Bool

-- `initOpts`
abbrev pub init_opts : Opts
init_opts = record {
  output_multiplier = 0;
  feed_freq = 30;
  daemon = false;
  debug = false;
  dev_random = false;
  force_reseed = false;
  no_output = false;
  list_devices = false;
  help = false;
  none_valid = false;
  raw = false;
  version = false;
  pid_file_name = none;
  serial = none;
  multiplier_assigned = false;
}

-- INFNOISE_SERIAL, INFNOISE_DEBUG and INFNOISE_MULTIPLIER.
pub record Environment : Type 0 where
  pub serial : Option Text
  pub debug : Option Text
  pub multiplier : Option Text

-- What the options ask for: a usage text with the status of the program, the version, the list of
-- devices, or a run.
pub data Request : Type 0 where
  usage : Bool → Request
  show_version : Request
  list_all : Opts → Request
  run : Opts → Request

-- A name that is not empty.
unfoldable pub named : Text → Option Text
named [] = none
named (c ∷ text) = some (c ∷ text)

-- `strcmp` with "true"
unfoldable pub is_true : Text → Bool
is_true (a ∷ b ∷ c ∷ d ∷ []) = (a == 116) && (b == 114) && (c == 117) && (d == 101)
is_true _ = false

-- The serial number and the debugging flag of the environment, unless they are given.
unfoldable pub take_names : Environment → Opts → Opts
take_names env o = record o {
  serial = elim o.serial [ none ↦ env.serial | some text ↦ some text ];
  debug = o.debug || elim env.debug [ none ↦ false | some text ↦ is_true text ];
}

-- All entropy goes to /dev/random unless told otherwise.
unfoldable pub take_default : Opts → Opts
take_default o =
    if not o.multiplier_assigned && o.dev_random then record o { output_multiplier = 2 } else o

module _ (atoi : Text → Code) where
  -- The multiplier, unless it is negative.
  unfoldable pub set_multiplier : Text → Opts → Option Opts
  set_multiplier text o = elim (atoi text) [
    | Code.failed n ↦ none
    | Code.given n ↦ some (record o { output_multiplier = n; multiplier_assigned = true })
  ]

  unfoldable pub set_feed_freq : Text → Opts → Option Opts
  set_feed_freq text o = elim (atoi text) [
    | Code.failed n ↦ none
    | Code.given n ↦ some (record o { feed_freq = n })
  ]

  -- One round of the loop; `none` is an exit with status 1.
  unfoldable pub take_option : Event → Opts → Option Opts
  take_option Event.raw o = some (record o { raw = true })
  take_option Event.debug o = some (record o { debug = true })
  take_option Event.dev_random o = some (record o { dev_random = true })
  take_option Event.force_reseed o = some (record o { force_reseed = true })
  take_option Event.no_output o = some (record o { no_output = true })
  take_option (Event.feed_freq text) o = set_feed_freq text o
  take_option (Event.multiplier text) o = set_multiplier text o
  take_option (Event.pid_file_name text) o = elim (named text) [
    | none ↦ none
    | some name ↦ some (record o { pid_file_name = some name })
  ]
  take_option (Event.serial text) o = elim (named text) [
    | none ↦ none
    | some name ↦ some (record o { serial = some name })
  ]
  take_option Event.daemon o = some (record o { daemon = true })
  take_option Event.list_devices o = some (record o { list_devices = true })
  take_option Event.version o = some (record o { version = true })
  take_option Event.help o = some (record o { help = true })
  take_option Event.unknown o = some (record o { help = true; none_valid = true })

  -- The loop over the arguments.
  unfoldable pub take_options : List Event → Opts → Option Opts
  take_options [] o = some o
  take_options (event ∷ events) o = elim (take_option event o) [
    | none ↦ none
    | some o' ↦ take_options events o'
  ]

  -- The multiplier of the environment, unless it is given.
  unfoldable pub take_multiplier : Environment → Opts → Option Opts
  take_multiplier env o =
      if o.multiplier_assigned
      then some o
      else elim env.multiplier [ none ↦ some o | some text ↦ set_multiplier text o ]

  unfoldable pub read_environment : Environment → Opts → Option Opts
  read_environment env o = elim (take_multiplier env (take_names env o)) [
    | none ↦ none
    | some o' ↦ some (take_default o')
  ]

  -- The main program up to the first use of a device; `none` is an exit with status 1.
  unfoldable pub decide_request : List Event → Environment → Option Request
  decide_request events env = elim (take_options events init_opts) [
    | none ↦ none
    | some o ↦
        if o.help
        then some (Request.usage o.none_valid)
        else if o.version
        then some Request.show_version
        else elim (read_environment env o) [
          | none ↦ none
          | some o' ↦ some (if o'.list_devices then Request.list_all o' else Request.run o')
        ]
  ]
