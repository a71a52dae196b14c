-- ===== src/Net/Scanner/Lifetime/Ending.antt =====
-- `stopScanning` comes to its end.
use cpp_grcp_testground.Prelude.{
  ℕ, ◌+◌, ◌≤◌, ◌≡◌, refl, true, false, Option, none, some, List, [], ◌∷◌, ◌==◌, if◌then◌else◌, Str,
  arith, inl, inr, Bool-cases, ◌∙◌,
}
use cpp_grcp_testground.Net.Scanner.{Scanner, Frame, ReceivedPacket, poll}
use cpp_grcp_testground.Net.Scanner
use cpp_grcp_testground.Net.Scanner.Lifetime.Holding.{history-HoldsOnce}
use cpp_grcp_testground.Net.Scanner.Lifetime.{
  TaskStore, Lifetime, Event, started, told_to_stop, destroyed, arrived, served, Awaited, left,
  waits, faulted, held, expired, happen, history, await, await_on, stop_scanning,
}
use cpp_grcp_testground.Net.Scanner.Lifetime.Calm.{
  weight, expired-held, held-expired, serve-calm, Calmed-weight,
}

-- How often the thread of the runner runs what is due of a task.
abbrev pub services : ℕ → List Event → ℕ
services t [] = 0
services t (started ∷ es) = services t es
services t (told_to_stop ∷ es) = services t es
services t (destroyed ∷ es) = services t es
services t (arrived packet ∷ es) = services t es
services t (served now u ∷ es) = (if t == u then 1 else 0) + services t es

-- The scanner is neither started nor destroyed.
abbrev pub Undisturbed : List Event → Type 0
Undisturbed [] = Unit
Undisturbed (started ∷ es) = ⊥
Undisturbed (told_to_stop ∷ es) = Undisturbed es
Undisturbed (destroyed ∷ es) = ⊥
Undisturbed (arrived packet ∷ es) = Undisturbed es
Undisturbed (served now u ∷ es) = Undisturbed es

-- The scanner is there and does not run.
abbrev pub IsQuiet : Option Scanner → Type 0
IsQuiet none = ⊥
IsQuiet (some s) = s.running ≡ false

module _ {ℓ} {C : Type ℓ} (store : TaskStore C) (decimal : ℕ → Str) (parse : List ℕ → Frame) where
  -- The loop returned, the runner does not hold the task any more, and the scanner is there and does
  -- not run.
  abbrev pub HasEnded : ℕ → Awaited C → Type 0
  HasEnded t (left w es) = (held store t w ≡ 0) × IsQuiet w.scanner
  HasEnded t (waits w) = ⊥
  HasEnded t faulted = ⊥

  await_on-ends :
      (e : Event) (es : List Event) (t : ℕ) (w : Lifetime C) (s : Scanner)
      → ((w' : Lifetime C) (s' : Scanner)
          → w'.scanner ≡ some s'
          → s'.running ≡ false
          → w'.current_task ≡ some t
          → weight store t w'.runner ≤ services t es
          → HasEnded t (await store decimal parse es w'))
      → w.scanner ≡ some s
      → s.running ≡ false
      → w.current_task ≡ some t
      → Undisturbed (e ∷ es)
      → weight store t w.runner ≤ services t (e ∷ es)
      → HasEnded t (await_on store (await store decimal parse es) (happen store decimal parse e w))
  unfolding Scanner.stop_scanning
  await_on-ends started es t w s rest there quiet current calm enough = absurd calm
  await_on-ends told_to_stop es t w s rest there quiet current calm enough =
      rw there (rest _ (Scanner.stop_scanning s) refl refl current enough)
  await_on-ends destroyed es t w s rest there quiet current calm enough = absurd calm
  await_on-ends (arrived packet) es t w s rest there quiet current calm enough =
      rest _ s there quiet current enough
  await_on-ends (served now u) es t w s rest there quiet current calm enough =
      let (w', run, c) = serve-calm store decimal parse now t u w s there quiet in
      rw run (
        rest w' s c.0 quiet (c.1 ∙ current)
          (Calmed-weight store decimal parse w w' s t u _ c enough))

  await-ends :
      (es : List Event) (t : ℕ) (w : Lifetime C) (s : Scanner)
      → w.scanner ≡ some s
      → s.running ≡ false
      → w.current_task ≡ some t
      → Undisturbed es
      → weight store t w.runner ≤ services t es
      → HasEnded t (await store decimal parse es w)
  unfolding await
  await-ends [] t w s there quiet current calm enough =
      let gone : expired store w ≡ true = ground (arith, expired-held store t w current) in
      rw (gone, await) (ground arith, rw there quiet)
  await-ends (e ∷ es) t w s there quiet current calm enough = elim (Bool-cases (expired store w)) [
    | inl gone ↦ rw (gone, await) (held-expired store t w current gone, rw there quiet)
    | inr here ↦
        rw (here, await)
          (await_on-ends e es t w s
            (λ w' s' there' quiet' current' enough'.
              await-ends es t w' s' there' quiet' current' (later e es calm) enough')
            there quiet current calm enough)
  ]
    where
      later : (e : Event) (es : List Event) → Undisturbed (e ∷ es) → Undisturbed es
      later started es c = absurd c
      later told_to_stop es c = c
      later destroyed es c = absurd c
      later (arrived packet) es c = c
      later (served now u) es c = c

  -- Once a scanner was told to stop, whatever was done with it before, the loop of `stopScanning`
  -- returns when the thread of the runner has twice run what was due of the task that was started
  -- last, whatever packets come and other tasks are run in between, unless the scanner is started
  -- again or destroyed; the runner does then not hold the task, and the scanner does not run. At
  -- first the runner holds no polling task.
  pub stop_scanning-returns :
      (before : List Event) (fresh w : Lifetime C) (s : Scanner) (t : ℕ) (es : List Event)
      → ((u : ℕ) → held store u fresh ≡ 0)
      → history store decimal parse before fresh ≡ some w
      → w.scanner ≡ some s
      → w.current_task ≡ some t
      → Undisturbed es
      → 2 ≤ services t es
      → HasEnded t (stop_scanning store decimal parse es w)
  unfolding stop_scanning Scanner.stop_scanning
  stop_scanning-returns before fresh w s t es none_held done there current calm enough =
      let v = history-HoldsOnce store decimal parse before fresh w none_held done in
      rw there (
        await-ends es t _ (Scanner.stop_scanning s) refl refl current calm
          (omega (arith, v.once t)))
