-- ===== src/Util/Defer.antt =====
-- core/core/util/Defer.h: code that runs when a scope is left.
use cpp_grcp_testground.Prelude.{◌≡◌, refl, List, [], ◌∷◌, ◌++◌}

-- `detail::Defer`, with a function on the state `W` of its scope.
pub record Defer {ℓ} (W : Type ℓ) : Type ℓ where
  pub f : W → W

unfoldable pub defer {ℓ} : {W : Type ℓ} → (W → W) → Defer W
defer f = record { f = f }

-- The destructor.
unfoldable pub destroy {ℓ} : {W : Type ℓ} → Defer W → W → W
destroy d w = d.f w

-- The end of a scope destroys what was made in it, the last first.
unfoldable pub leave {ℓ} : {W : Type ℓ} → List (Defer W) → W → W
unfolding destroy
leave [] w = w
leave (d ∷ ds) w = destroy d (leave ds w)

-- What was deferred in two parts of a scope runs, at its end, for the second part first.
pub leave-append {ℓ} :
    {W : Type ℓ} (ds es : List (Defer W)) (w : W) → leave (ds ++ es) w ≡ leave ds (leave es w)
unfolding leave
leave-append [] es w = refl
leave-append (d ∷ ds) es w = λ i. d.f (leave-append ds es w i)
