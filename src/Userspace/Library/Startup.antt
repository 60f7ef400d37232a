-- ===== src/Userspace/Library/Startup.antt =====
-- `initializeUSB`, `initInfnoise` and `deinitInfnoise` of software/libinfnoise.c, built for Linux.
use infnoise.Base.{
  ℕ, zero, suc, Bool, true, false, List, Option, none, some, inc32, ◌==◌, ltb, leb, if◌then◌else◌,
  replicate,
}
use infnoise.Userspace.Floats.{Floats}
use infnoise.Userspace.Steps.{Code, is_negative, M, ◌>>=◌, ◌>>◌, return}
use infnoise.Userspace.Health
use infnoise.Userspace.Context.{
  Message, Sponge, Libftdi, State, mask, prediction_bits, is_exactly, service, silently, get_ctx,
  put_ctx, put_message, complain,
}
use infnoise.Userspace.Library.{prepare_output_buffer, read_data}

abbrev pub max_warmup_rounds : ℕ
max_warmup_rounds = 5000

-- `BITMODE_SYNCBB`
abbrev pub bitmode_syncbb : ℕ
bitmode_syncbb = 4

-- The message of a baud rate that is refused.
unfoldable pub baudrate_message : Code → Option Message
baudrate_message (Code.given n) = none
baudrate_message (Code.failed n) =
    if n == 1
    then some Message.bad_baudrate
    else (if n == 2
        then some Message.baudrate_failed
        else (if n == 3 then some Message.unavailable else none))

unfoldable pub bitmode_message : Code → Option Message
bitmode_message (Code.given n) = none
bitmode_message (Code.failed n) =
    if n == 1 then some Message.no_bitmode else (if n == 2 then some Message.unavailable else none)

-- `rc >= 2`
unfoldable pub is_several : Code → Bool
is_several (Code.given n) = leb 2 n
is_several (Code.failed n) = false

module _ {f : Floats} {sponge : Sponge} {W : Type 0} (ftdi : Libftdi W) where
  -- A write and a read of 64 bytes.
  unfoldable pub test_transfer : M (State f sponge W) Bool
  test_transfer = do
    sent ← service (ftdi.write_data (replicate 64 0))
    if is_exactly sent 64
        then (do
          answer ← service (ftdi.read_data 64)
          if is_exactly answer.0 64 then return true else complain Message.read_failed false)
        else complain Message.write_failed false

  -- The baud rate, the bit mode and the test.
  unfoldable pub configure : M (State f sponge W) Bool
  configure = do
    baud ← service (ftdi.set_baudrate 30000)
    elim (baudrate_message baud) [
      | some m ↦ complain m false
      | none ↦ do
        mode ← service (ftdi.set_bitmode mask bitmode_syncbb)
        elim (bitmode_message mode) [ some m ↦ complain m false | none ↦ test_transfer ]
    ]

  -- The message that depends on who runs the program.
  unfoldable pub complain_user : Message → Message → M (State f sponge W) Bool
  complain_user other super = do
    is_super ← service ftdi.is_super_user
    complain (if is_super then super else other) false

  -- Open the only or the first device, or the one with the serial number.
  unfoldable pub open_device : Option (List ℕ) → Code → M (State f sponge W) Bool
  open_device none found = do
    if is_several found then put_message Message.multiple_found else return tt
    opened ← service ftdi.usb_open
    if is_negative opened
        then complain_user Message.not_opened_try_super_user Message.not_opened
        else configure
  open_device (some serial) found = do
    opened ← service (ftdi.usb_open_desc serial)
    if is_negative opened
        then complain_user Message.not_found_try_super_user Message.no_such_serial
        else configure

  -- `initializeUSB`
  unfoldable pub initialize_usb : Option (List ℕ) → M (State f sponge W) Bool
  initialize_usb serial = do
    ignored ← service ftdi.init
    answer ← service ftdi.find_all
    if is_negative answer.0
        then complain Message.not_found false
        else (do silently ftdi.list_free; open_device serial answer.0)

  -- `inmHealthCheckStart` with its four allocations.
  unfoldable pub start_health : f.Double → Bool → M (State f sponge W) Bool
  start_health design_k debug = do
    a ← service ftdi.calloc
    b ← service ftdi.calloc
    c ← service ftdi.calloc
    d ← service ftdi.calloc
    ctx ← get_ctx
    let (h, started) = Health.start ctx.health prediction_bits design_k debug a b c d in
        do put_ctx (record ctx { health = h }); return started

  -- The loop that lets the health check collect data, on fuel: it counts its rounds and does not
  -- look at what `readData` returns.
  unfoldable pub warmup_loop : ℕ → ℕ → M (State f sponge W) ℕ
  warmup_loop zero done s = none
  warmup_loop (suc fuel) done s =
      if Health.ok_to_use_data s.ctx.health
      then some (done, s)
      else elim (read_data ftdi false true 1 s) [
        | none ↦ none
        | some (out, s1) ↦ warmup_loop fuel (inc32 done) s1
      ]

  unfoldable pub warmup : ℕ → M (State f sponge W) Bool
  warmup fuel = do
    done ← warmup_loop fuel 0
    if ltb max_warmup_rounds done then complain Message.warmup_failed false else return true

  -- `KeccakInitializeState`, where the sponge is wanted.
  unfoldable pub start_sponge : Bool → M (State f sponge W) (Unit {0})
  start_sponge keccak = do
    ctx ← get_ctx
    put_ctx (if keccak then record ctx { keccak_state = sponge.initial } else ctx)

  -- `initInfnoise`; the fuel is that of the warm-up.
  unfoldable pub init_infnoise :
      ℕ → f.Double → Option (List ℕ) → Bool → Bool → M (State f sponge W) Bool
  init_infnoise fuel design_k serial keccak debug = do
    ctx ← get_ctx
    put_ctx (
        prepare_output_buffer
          (record ctx { message = Message.empty; entropy_this_time = 0; keccak_bytes_given = 0 }))
    started ← start_health design_k debug
    if started
        then (do
          first ← initialize_usb serial
          second ← (if first then return true else initialize_usb serial)
          if second then (do start_sponge keccak; warmup fuel) else return false)
        else complain Message.no_health false

  -- `deinitInfnoise`
  unfoldable pub deinit_infnoise : M (State f sponge W) (Unit {0})
  deinit_infnoise = do
    ctx ← get_ctx
    put_ctx (record ctx { health = Health.stop ctx.health })
    silently ftdi.usb_close
    silently ftdi.deinit
