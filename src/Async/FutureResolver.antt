-- ===== src/Async/FutureResolver.antt =====
-- core/core/util/async/FutureResolver.h: the task that waits for a future and hands its value on.
use cpp_grcp_testground.Prelude.{ℕ, ◌≡◌, refl, Bool, true, false, List, [], ◌∷◌, ◌++◌, ◌∙◌, All}
use cpp_grcp_testground.Util.Promises.{Future, waiting, broken, ready, waits}
use cpp_grcp_testground.Async.Task.{Continuation, run_again, end_task, run_again_delayed}

-- What a resolver is made of: its two callbacks and its delay. A completion tells whether it threw.
pub record FutureResolver {ℓ κ} (R : Type ℓ) (W : Type κ) : Type (ℓ ⊔ κ) where
  pub on_completion : R → W → W × Bool
  pub on_exception : W → W
  pub retry_delay : ℕ

-- What a run comes to, where `rest` is what the later runs come to.
abbrev proceed {κ} : {W : Type κ} → (W → W) → W × Continuation → W
proceed rest (world, end_task) = world
proceed rest (world, run_again) = rest world
proceed rest (world, run_again_delayed ms) = rest world

module _ {ℓ κ} {R : Type ℓ} {W : Type κ} where
  abbrev pub settled : FutureResolver R W → W × Bool → W
  settled resolver (world, false) = world
  settled resolver (world, true) = resolver.on_exception world

  -- `run`, given what the future holds after the wait of one millisecond. `get` throws the exception
  -- of a future whose promise was destroyed.
  abbrev pub run : FutureResolver R W → Future R → W → W × Continuation
  run resolver waiting world = (world, run_again_delayed resolver.retry_delay)
  run resolver broken world = (resolver.on_exception world, end_task)
  run resolver (ready value) world =
      (settled resolver (resolver.on_completion value world), end_task)

  -- The runs of a resolver that finds its future in one state after another; after its end it does
  -- not run any more.
  unfoldable pub run_all : FutureResolver R W → List (Future R) → W → W
  run_all resolver [] world = world
  run_all resolver (f ∷ fs) world = proceed (run_all resolver fs) (run resolver f world)

  run_all-ends :
      (resolver : FutureResolver R W) (f : Future R) (later : List (Future R)) (world : W)
      → waits f ≡ false
      → run_all resolver (f ∷ later) world ≡ (run resolver f world).0
  unfolding run_all
  run_all-ends resolver waiting later world h = cc
  run_all-ends resolver broken later world h = refl
  run_all-ends resolver (ready value) later world h = refl

  run_all-goes_on :
      (resolver : FutureResolver R W) (f : Future R) (later : List (Future R)) (world : W)
      → waits f ≡ true
      → run_all resolver (f ∷ later) world ≡ run_all resolver later world
  unfolding run_all
  run_all-goes_on resolver waiting later world h = refl
  run_all-goes_on resolver broken later world h = cc
  run_all-goes_on resolver (ready value) later world h = cc

  -- However often the future still waits, the runs of a resolver have the effect of the one run that
  -- finds it ready or broken: it calls back once, whatever state the future has later.
  pub run_all-once :
      (resolver : FutureResolver R W) (before : List (Future R)) (f : Future R)
      (later : List (Future R)) (world : W)
      → All (λ g. waits g ≡ true) before
      → waits f ≡ false
      → run_all resolver (before ++ (f ∷ later)) world ≡ (run resolver f world).0
  run_all-once resolver [] f later world all h = run_all-ends resolver f later world h
  run_all-once resolver (g ∷ before) f later world all h =
      run_all-goes_on resolver g (before ++ (f ∷ later)) world all.0
      ∙ run_all-once resolver before f later world all.1 h
