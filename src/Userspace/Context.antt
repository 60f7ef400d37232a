-- ===== src/Userspace/Context.antt =====
-- software/libinfnoise.h: the context of the library, and the calls that the library makes as steps
-- on it. libftdi, the clock and the copied Keccak code are parameters. The messages stand as
-- constructors.
use infnoise.Base.{ℕ, ◌-◌, ◌^◌, Bool, false, List, [], Option, some, ◌==◌}
use infnoise.Userspace.Floats.{Floats}
use infnoise.Userspace.Steps.{Code, M}
use infnoise.Userspace.Health.{Health}

abbrev pub buflen : ℕ
buflen = 512

abbrev pub prediction_bits : ℕ
prediction_bits = 14

-- MAX_MICROSEC_FOR_SAMPLES
abbrev pub max_microsec : ℕ
max_microsec = 5000

abbrev pub mask : ℕ
mask = 255 - 2 ^ 1 - 2 ^ 4

-- `context->message`, by what it says.
pub data Message : Type 0 where
  empty : Message
  no_health : Message
  health_failed : Message
  no_init : Message
  not_found : Message
  not_found_try_super_user : Message
  multiple_found : Message
  not_opened : Message
  not_opened_try_super_user : Message
  no_such_serial : Message
  bad_baudrate : Message
  baudrate_failed : Message
  unavailable : Message
  no_bitmode : Message
  write_failed : Message
  read_failed : Message
  warmup_failed : Message
  -- `ftdi_get_error_string`
  from_ftdi : Message

-- The copied Keccak reference code: `KeccakInitializeState`, `KeccakAbsorb` with its count of lanes,
-- `KeccakExtract` of a number of lanes and `KeccakPermutation`.
pub record Sponge : Type 1 where
  pub State : Type 0
  pub initial : State
  pub absorb : State → List ℕ → ℕ → State
  pub extract : State → ℕ → List ℕ
  pub permutation : State → State

pub record Timespec : Type 0 where
  pub tv_sec : ℕ
  pub tv_nsec : ℕ

-- `infnoise_devlist_node_t` less its link.
pub record Node : Type 0 where
  pub manufacturer : List ℕ
  pub description : List ℕ
  pub serial : List ℕ

-- libftdi over a world `W`, which holds the `ftdi_context`, with the clock, the test for the super
-- user and memory. A device of the list that is found is a number.
pub record Libftdi (W : Type 0) : Type 0 where
  pub init : W → Code × W
  pub find_all : W → (Code × List ℕ) × W
  pub list_free : W → W
  pub get_strings : ℕ → W → Option Node × W
  pub usb_open : W → Code × W
  pub usb_open_desc : List ℕ → W → Code × W
  pub set_baudrate : ℕ → W → Code × W
  pub set_bitmode : ℕ → ℕ → W → Code × W
  pub write_data : List ℕ → W → Code × W
  pub read_data : ℕ → W → (Code × List ℕ) × W
  pub usb_close : W → W
  pub deinit : W → W
  pub clock : W → Timespec × W
  pub is_super_user : W → Bool × W
  pub calloc : W → Bool × W

pub record Context (f : Floats) (sponge : Sponge) : Type 0 where
  pub entropy_this_time : ℕ
  pub message : Message
  pub keccak_bytes_given : ℕ
  pub keccak_state : sponge.State
  pub out_buf : List ℕ
  pub health : Health f

pub record State (f : Floats) (sponge : Sponge) (W : Type 0) : Type 0 where
  pub ctx : Context f sponge
  pub world : W

-- What a call stores at the front of the caller's buffer, and what it returns.
pub record Output : Type 0 where
  pub written : List ℕ
  pub code : Code

abbrev pub nothing : Code → Output
nothing c = record { written = []; code = c }

-- A count that is compared with the number of bytes asked for.
unfoldable pub is_exactly : Code → ℕ → Bool
is_exactly (Code.given n) m = n == m
is_exactly (Code.failed n) m = false

module _ {f : Floats} {sponge : Sponge} {W : Type 0} where
  -- A call of a service.
  unfoldable pub service : {A : Type 0} → (W → A × W) → M (State f sponge W) A
  service call s = let (a, w) = call s.world in some (a, record s { world = w })

  unfoldable pub silently : (W → W) → M (State f sponge W) (Unit {0})
  silently call s = some (tt, record s { world = call s.world })

  unfoldable pub get_ctx : M (State f sponge W) (Context f sponge)
  get_ctx s = some (s.ctx, s)

  unfoldable pub put_ctx : Context f sponge → M (State f sponge W) (Unit {0})
  put_ctx c s = some (tt, record s { ctx = c })

  unfoldable pub put_message : Message → M (State f sponge W) (Unit {0})
  put_message m s = some (tt, record s { ctx = record s.ctx { message = m } })

  -- `return` of a value behind a message.
  unfoldable pub complain : {A : Type 0} → Message → A → M (State f sponge W) A
  complain m a s = some (a, record s { ctx = record s.ctx { message = m } })
