-- ===== src/Userspace/Library/Drain.antt =====
-- The runs of reads: what one absorption yields, and the warm-up of a device that is gone.
use infnoise.Base.{
  ℕ, zero, suc, ◌+◌, ◌-◌, ◌*◌, ◌/◌, ◌%◌, ◌^◌, ◌≤◌, ◌<◌, ◌≡◌, inl, inr, refl, ◌∙◌, Bool, true, false,
  arith, List, [], ◌++◌, Option, none, some, length, length-append, if◌then◌else◌, ◌==◌, Bool-cases,
  inc32, ltb,
}
use infnoise.Userspace.Floats.{Floats}
use infnoise.Userspace.Steps.{Code, M, ◌>>=◌, ◌>>◌, return}
use infnoise.Userspace.Health.{ok_to_use_data}
use infnoise.Userspace.Context.{
  Sponge, Libftdi, Context, State, Output, Message, buflen, is_exactly, complain, service, get_ctx,
  put_ctx, nothing,
}
use infnoise.Userspace.Library.{squeeze, read_fresh, read_data}
use infnoise.Userspace.Library.Startup.{warmup_loop}
use infnoise.Userspace.Library.Total.{IsSponge}

module _ {W : Type 0} (ftdi : Libftdi W) where
  -- A device that is gone: no write stores all the bytes, and time does not bring it back.
  pub record IsGone (Gone : W → Type 0) : Type 0 where
    pub clock : (w : W) → Gone w → Gone (ftdi.clock w).1
    pub write : (bytes : List ℕ) (w : W) → Gone w → Gone (ftdi.write_data bytes w).1
    pub fails :
        (bytes : List ℕ) (w : W) → Gone w → is_exactly (ftdi.write_data bytes w).0 buflen ≡ false

module _ {f : Floats} {sponge : Sponge} {W : Type 0} (ftdi : Libftdi W) where
  -- The bytes of at most `reads` calls of `readData`, until nothing is left of the last absorption.
  unfoldable pub read_left : ℕ → Bool → ℕ → M (State f sponge W) (List ℕ)
  read_left zero raw multiplier s = some ([], s)
  read_left (suc reads) raw multiplier s =
      if s.ctx.keccak_bytes_given == 0
      then some ([], s)
      else elim (read_data ftdi true raw multiplier s) [
        | none ↦ none
        | some (out, s1) ↦ elim (read_left reads raw multiplier s1) [
          | none ↦ none
          | some (rest, s2) ↦ some (out.written ++ rest, s2)
        ]
      ]

  -- What the reads of what is left do.
  pub record Drained (s : State f sponge W) (r : Option (List ℕ × State f sponge W)) : Type 0 where
    pub bytes : List ℕ
    pub after : State f sponge W
    pub returns : r ≡ some (bytes, after)
    pub all_of_it : length bytes ≡ s.ctx.keccak_bytes_given
    pub none_left : after.ctx.keccak_bytes_given ≡ 0
    pub same_world : after.world ≡ s.world
    pub same_entropy : after.ctx.entropy_this_time ≡ s.ctx.entropy_this_time

  Drained-at_once : (s : State f sponge W) → s.ctx.keccak_bytes_given ≡ 0 → Drained s (some ([], s))
  Drained-at_once s e = record {
    bytes = [];
    after = s;
    returns = refl;
    all_of_it = omega (arith, e);
    none_left = e;
    same_world = refl;
    same_entropy = refl;
  }

  pub read_data-left :
      (raw : Bool) (multiplier : ℕ) (s : State f sponge W)
      → (s.ctx.keccak_bytes_given == 0) ≡ false
      → read_data ftdi true raw multiplier s
        ≡ some ((squeeze s.ctx).0, record s { ctx = (squeeze s.ctx).1 })
  unfolding read_data get_ctx put_ctx ◌>>=◌ ◌>>◌ return
  read_data-left raw multiplier s e = rw e refl

  squeeze-left :
      (c : Context f sponge)
      → c.keccak_bytes_given < 2 ^ 32
      → ((squeeze c).1.keccak_bytes_given ≡ c.keccak_bytes_given - 128)
        × ((squeeze c).1.entropy_this_time ≡ c.entropy_this_time)
  unfolding squeeze
  squeeze-left c range = (ground arith, refl)

  squeeze-written :
      (c : Context f sponge)
      → IsSponge sponge
      → c.keccak_bytes_given % 8 ≡ 0
      → length (squeeze c).0.written + (c.keccak_bytes_given - 128) ≡ c.keccak_bytes_given
  unfolding squeeze
  squeeze-written c is_sponge lanes =
      let n = if ltb c.keccak_bytes_given 128 then c.keccak_bytes_given else 128 in
      ground (arith, is_sponge.length_extract c.keccak_state (n / 8))

  read_left-step :
      (reads : ℕ) (raw : Bool) (multiplier : ℕ) (s s1 s2 : State f sponge W) (out : Output)
      (rest : List ℕ)
      → (s.ctx.keccak_bytes_given == 0) ≡ false
      → read_data ftdi true raw multiplier s ≡ some (out, s1)
      → read_left reads raw multiplier s1 ≡ some (rest, s2)
      → read_left (suc reads) raw multiplier s ≡ some (out.written ++ rest, s2)
  unfolding read_left
  read_left-step reads raw multiplier s s1 s2 out rest left first others =
      rw (left, first, others) refl

  -- Whole lanes of bytes that are left of one absorption are all handed out by calls of `readData`, one
  -- for each 128 of them, without a transfer. The count of entropy stays what it was.
  pub read_left-Drained :
      (reads : ℕ) (raw : Bool) (multiplier : ℕ) (s : State f sponge W)
      → IsSponge sponge
      → s.ctx.keccak_bytes_given % 8 ≡ 0
      → s.ctx.keccak_bytes_given < 2 ^ 32
      → s.ctx.keccak_bytes_given ≤ reads * 128
      → Drained s (read_left reads raw multiplier s)
  unfolding read_left
  read_left-Drained zero raw multiplier s is_sponge lanes range le = Drained-at_once s (omega arith)
  read_left-Drained (suc reads) raw multiplier s is_sponge lanes range le =
      elim (Bool-cases (s.ctx.keccak_bytes_given == 0)) [
        | inl empty ↦ rw empty (Drained-at_once s (ground arith))
        | inr left ↦
            let s1 = record s { ctx = (squeeze s.ctx).1 } in
            let e = squeeze-left s.ctx range in
            let d =
              read_left-Drained reads raw multiplier s1 is_sponge (omega (arith, e.0, lanes))
                (omega (arith, e.0, range)) (omega (arith, e.0, le)) in
            record {
              bytes = (squeeze s.ctx).0.written ++ d.bytes;
              after = d.after;
              returns =
                  read_left-step reads raw multiplier s s1 d.after (squeeze s.ctx).0 d.bytes left
                    (read_data-left raw multiplier s left) d.returns;
              all_of_it =
                  length-append (squeeze s.ctx).0.written d.bytes
                  ∙ omega (arith, squeeze-written s.ctx is_sponge lanes, d.all_of_it, e.0);
              none_left = d.none_left;
              same_world = d.same_world;
              same_entropy = d.same_entropy ∙ e.1;
            }
      ]

  -- What a read does to the state when the device is gone.
  gone : State f sponge W → State f sponge W
  gone s = record s {
    ctx = record s.ctx { message = Message.write_failed };
    world = (ftdi.write_data s.ctx.out_buf (ftdi.clock s.world).1).1;
  }

  read_data-gone :
      (Gone : W → Type 0) (s : State f sponge W)
      → IsGone ftdi Gone
      → Gone s.world
      → s.ctx.keccak_bytes_given ≡ 0
      → read_data ftdi false true 1 s ≡ some (nothing (Code.failed 1), gone s)
  unfolding read_data read_fresh gone service get_ctx complain ◌>>=◌ ◌>>◌ return
  read_data-gone Gone s is_gone g e =
      rw (e, is_gone.fails s.ctx.out_buf (ftdi.clock s.world).1 (is_gone.clock s.world g)) refl

  -- The loop of the warm-up does not end, whatever the fuel, when the device is gone before the health
  -- check has its data and nothing is left of an absorption.
  pub warmup_loop-gone :
      (Gone : W → Type 0) (fuel done : ℕ) (s : State f sponge W)
      → IsGone ftdi Gone
      → Gone s.world
      → s.ctx.keccak_bytes_given ≡ 0
      → ok_to_use_data s.ctx.health ≡ false
      → warmup_loop ftdi fuel done s ≡ none
  unfolding warmup_loop gone
  warmup_loop-gone Gone zero done s is_gone g e bad = refl
  warmup_loop-gone Gone (suc fuel) done s is_gone g e bad =
      rw (bad, read_data-gone Gone s is_gone g e)
        (warmup_loop-gone Gone fuel (inc32 done) (gone s) is_gone
          (is_gone.write s.ctx.out_buf (ftdi.clock s.world).1 (is_gone.clock s.world g)) e bad)
