-- ===== src/Windows/Silent.antt =====
-- Without output the program never touches its file.
use mathlib.Core.Path.{fun_ext}
use infnoise.Base.{ℕ, zero, suc, ◌≡◌, refl, ap, true, List}
use infnoise.Userspace.Context.{Sponge}
use infnoise.Windows.{HealthCheck, File, Result, next}
use infnoise.Windows.Options.{Settings}
use infnoise.Windows.Program.{Driver, Running, passes, deliver, main_round, main_loop}

module _ {H W : Type 0} (check : HealthCheck H) (driver : Driver W) (file other : File W)
    (sponge : Sponge) (o : Settings) where
  deliver-silent :
      (r : Running H sponge.State W) (extracted : Result H (List ℕ × ℕ))
      → o.no_output ≡ true
      → deliver check driver file sponge o r extracted
        ≡ deliver check driver other sponge o r extracted
  unfolding deliver passes
  deliver-silent r (Result.ended why h) silent = refl
  deliver-silent r (Result.went (bytes, entropy) h) silent = rw silent refl

  main_round-silent :
      (r : Running H sponge.State W)
      → o.no_output ≡ true
      → main_round check driver file sponge o r ≡ main_round check driver other sponge o r
  unfolding main_round
  main_round-silent r silent = rw (deliver-silent _ _ silent) refl

  -- With `--no-output` the program runs the same with any two files: it never writes to its file.
  pub main_loop-silent :
      (rounds : ℕ) (r : Running H sponge.State W)
      → o.no_output ≡ true
      → main_loop check driver file sponge rounds o r
        ≡ main_loop check driver other sponge rounds o r
  unfolding main_loop
  main_loop-silent zero r silent = refl
  main_loop-silent (suc rounds) r silent = rw (main_round-silent r silent) (
      ap (next (main_round check driver other sponge o r))
        (fun_ext (λ r1. main_loop-silent rounds r1 silent)))
