-- ===== src/Windows/Options.antt =====
-- software/infnoise_win.c: the arguments of main.
use infnoise.Base.{
  ℕ, ◌-◌, ◌^◌, Bool, true, false, ◌||◌, List, [], ◌∷◌, Option, none, some, u32, ◌==◌, if◌then◌else◌,
  same_text,
}
use infnoise.Userspace.Steps.{Code}
use infnoise.Userspace.Options.{Text}

pub record Settings : Type 0 where
  pub raw : Bool
  pub debug : Bool
  pub dev_random : Bool
  pub no_output : Bool
  pub out_file : Option Text
  pub output_multiplier : ℕ

abbrev pub init_settings : Settings
init_settings = record {
  raw = false;
  debug = false;
  dev_random = false;
  no_output = false;
  out_file = none;
  output_multiplier = 2;
}

-- The texts of the options.
abbrev pub raw_text : Text
raw_text = 45 ∷ 45 ∷ 114 ∷ 97 ∷ 119 ∷ []

abbrev pub debug_text : Text
debug_text = 45 ∷ 45 ∷ 100 ∷ 101 ∷ 98 ∷ 117 ∷ 103 ∷ []

abbrev pub dev_random_text : Text
dev_random_text = 45 ∷ 45 ∷ 100 ∷ 101 ∷ 118 ∷ 45 ∷ 114 ∷ 97 ∷ 110 ∷ 100 ∷ 111 ∷ 109 ∷ []

abbrev pub no_output_text : Text
no_output_text = 45 ∷ 45 ∷ 110 ∷ 111 ∷ 45 ∷ 111 ∷ 117 ∷ 116 ∷ 112 ∷ 117 ∷ 116 ∷ []

abbrev pub multiplier_text : Text
multiplier_text = 45 ∷ 45 ∷ 109 ∷ 117 ∷ 108 ∷ 116 ∷ 105 ∷ 112 ∷ 108 ∷ 105 ∷ 101 ∷ 114 ∷ []

abbrev pub help_text : Text
help_text = 45 ∷ 45 ∷ 104 ∷ 101 ∷ 108 ∷ 112 ∷ []

abbrev pub question_text : Text
question_text = 45 ∷ 45 ∷ 63 ∷ []

-- The conversion of an `int` to `uint32_t`.
unfoldable pub word_of : Code → ℕ
word_of (Code.given n) = u32 n
word_of (Code.failed n) = u32 (2 ^ 32 - u32 n)

-- The options without a value.
unfoldable pub take_flag : Text → Settings → Option Settings
take_flag argument o =
    if same_text argument raw_text
    then some (record o { raw = true })
    else if same_text argument debug_text
    then some (record o { debug = true })
    else if same_text argument dev_random_text
    then some (record o { dev_random = true })
    else if same_text argument no_output_text
    then some (record o { no_output = true })
    else none

-- The last argument where it is no option without a value.
unfoldable pub take_last : Text → Settings → Option Settings
take_last argument o =
    if same_text argument help_text || same_text argument question_text
    then none
    else some (record o { out_file = some argument })

-- The loop over the arguments; `none` is the end of the program with status 1.
unfoldable pub take_arguments : (Text → Code) → List Text → Settings → Option Settings
unfolding take_flag take_last word_of
take_arguments atoi [] o = some o
take_arguments atoi (argument ∷ []) o = elim (take_flag argument o) [
  | some o1 ↦ some o1
  | none ↦ take_last argument o
]
take_arguments atoi (argument ∷ text ∷ rest) o =
    let value = word_of (atoi text) in
    let after_value = take_arguments atoi rest (record o { output_multiplier = value }) in
    elim (take_flag argument o) [
      | some o1 ↦ take_arguments atoi (text ∷ rest) o1
      | none ↦
          if same_text argument multiplier_text
          then if value == 0 then none else after_value
          else none
    ]
