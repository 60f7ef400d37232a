-- ===== src/Userspace/Program.antt =====
-- The main program of software/infnoise.c after its options, with software/daemon.c, built for Linux.
pub mod Safe
pub mod Overrun
use infnoise.Base.{
  ℕ, zero, suc, ◌+◌, Bool, true, false, not, ◌&&◌, List, [], ◌∷◌, Option, none, some, u64,
  if◌then◌else◌, length, ◌==◌,
}
use infnoise.Userspace.Floats.{Floats}
use infnoise.Userspace.Steps.{Code, is_negative}
use infnoise.Userspace.Context.{Sponge, Libftdi, State, Output}
use infnoise.Userspace.Library.{read_data}
use infnoise.Userspace.Options.{Opts, Text}
use infnoise.Userspace.Pool.{Random, Pool, wait_for_pool, write_entropy_to_pool}

-- `fwrite` to the standard output, which returns how much it wrote, the flag that the signals clear,
-- the process numbers, and the file with the process number.
pub record Host (W : Type 0) : Type 0 where
  pub fwrite : List ℕ → W → ℕ × W
  pub running : W → Bool × W
  pub fork : W → Code × W
  pub getpid : W → ℕ × W
  pub fopen : Text → W → Bool × W
  pub print_pid : ℕ → W → Bool × W

-- How the program ends: with a status, or by a write past the end of a buffer.
pub data Ending : Type 0 where
  exit : ℕ → Ending
  overrun : Ending

pub data Step (S : Type 0) : Type 0 where
  next : S → Step S
  ended : Ending → Step S

-- The state of the main loop.
pub record Running (f : Floats) (sponge : Sponge) (W : Type 0) : Type 0 where
  pub state : State f sponge W
  pub pool : Pool
  pub total_bytes_written : ℕ

-- `writePid`
unfoldable pub write_pid : {W : Type 0} → Host W → ℕ → Text → W → Bool × W
write_pid host pid name w =
    let (opened, w1) = host.fopen name w in if opened then host.print_pid pid w1 else (false, w1)

-- `startDaemon`; `none` goes on, in the child if there is one.
unfoldable pub start_daemon : {W : Type 0} → Host W → Opts → W → Option ℕ × W
start_daemon host o w =
    let (forked, w1) = host.fork w in
    let (own, w2) = host.getpid w in
    if o.daemon
    then elim forked [
      | Code.failed n ↦ (some 1, w1)
      | Code.given zero ↦ (none, w1)
      | Code.given (suc pid) ↦ elim o.pid_file_name [
        | none ↦ (some 0, w1)
        | some name ↦
            let (written, w3) = write_pid host (suc pid) name w1 in
            (some (if written then 0 else 1), w3)
      ]
    ]
    else elim o.pid_file_name [
      | none ↦ (none, w)
      | some name ↦ (none, (write_pid host own name w2).1)
    ]

module _ {f : Floats} {sponge : Sponge} {W : Type 0} (random : Random W) (host : Host W) where
  -- The part of `outputBytes` for /dev/random.
  unfoldable pub feed_pool : Opts → List ℕ → ℕ → Running f sponge W → Step (Running f sponge W)
  feed_pool o bytes entropy s =
      elim (write_entropy_to_pool random s.pool bytes entropy
        (wait_for_pool random s.pool o.feed_freq s.state.world)) [
          | none ↦ Step.ended Ending.overrun
          | some (pool, w) ↦ Step.next (record s {
            pool = pool;
            state = record s.state { world = if o.force_reseed then random.reseed w else w };
          })
        ]

  -- `outputBytes`, where a failure ends the program.
  unfoldable pub output_bytes : Opts → List ℕ → ℕ → Running f sponge W → Step (Running f sponge W)
  output_bytes o bytes entropy s =
      let (n, w) = host.fwrite bytes s.state.world in
      if o.dev_random
      then feed_pool o bytes entropy s
      else (if n == length bytes
          then Step.next (record s { state = record s.state { world = w } })
          else Step.ended (Ending.exit 1))

  -- What follows `readData` in the loop.
  unfoldable pub use_output : Opts → Output → Running f sponge W → Step (Running f sponge W)
  use_output o out s = elim out.code [
    | Code.failed n ↦ Step.ended (Ending.exit 1)
    | Code.given n ↦
        let s1 = record s { total_bytes_written = u64 (s.total_bytes_written + n) } in
        if o.no_output
        then Step.next s1
        else output_bytes o out.written s.state.ctx.entropy_this_time s1
  ]

  module _ (ftdi : Libftdi W) where
    -- The body of the loop.
    unfoldable pub main_round : Opts → Running f sponge W → Option (Step (Running f sponge W))
    main_round o s = elim (read_data ftdi true o.raw o.output_multiplier s.state) [
      | none ↦ none
      | some (out, state) ↦ some (use_output o out (record s { state = state }))
    ]

    -- `while (running)`, on fuel.
    unfoldable pub main_loop : ℕ → Opts → Running f sponge W → Option (Ending)
    main_loop zero o s = none
    main_loop (suc fuel) o s =
        let (goes_on, w) = host.running s.state.world in
        elim goes_on [
          | false ↦ some (Ending.exit 0)
          | true ↦ elim (main_round o (record s { state = record s.state { world = w } })) [
            | none ↦ none
            | some (Step.ended ending) ↦ some ending
            | some (Step.next s') ↦ main_loop fuel o s'
          ]
        ]
