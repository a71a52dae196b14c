-- ===== src/Net/Scanner/Lifetime/Use.antt =====
-- When a scanner may be destroyed.
use cpp_grcp_testground.Prelude.{
  ℕ, ◌<◌, ◌≡◌, ◌≢◌, refl, ap, true, false, Option, none, some, List, [], ◌∷◌, ◌==◌, Str, arith, inl,
  inr, Bool-cases, ◌∙◌,
}
use mathlib.Core.Path.{subst}
use cpp_grcp_testground.Net.Scanner.{Scanner, Frame}
use cpp_grcp_testground.Async.Runner.{TaskRunner, resolve, on_timer}
use cpp_grcp_testground.Async.Runner
use cpp_grcp_testground.Net.Scanner.Lifetime.Holding.{HoldsNoMore, serve-HoldsNoMore, post-held}
use cpp_grcp_testground.Net.Scanner.Lifetime.Calm.{held-expired}
use cpp_grcp_testground.Net.Scanner.Lifetime.{
  TaskStore, Lifetime, Event, started, told_to_stop, destroyed, arrived, served, held, expired,
  start_on, run_handler, fire_timer, serve, happen, history, history_from,
}

-- No user of the scanner is left: packets come, and the runner goes on.
abbrev pub Unused : List Event → Type 0
Unused [] = Unit
Unused (started ∷ es) = ⊥
Unused (told_to_stop ∷ es) = ⊥
Unused (destroyed ∷ es) = Unused es
Unused (arrived packet ∷ es) = Unused es
Unused (served now u ∷ es) = Unused es

module _ {ℓ} {C : Type ℓ} (store : TaskStore C) where
  -- The runner holds no task but the one that was started last.
  abbrev pub IsSole : Lifetime C → Type 0
  IsSole w = (t : ℕ) → 0 < held store t w → w.current_task ≡ some t

  expired-none_held :
      (w : Lifetime C) (t : ℕ) → IsSole w → expired store w ≡ true → held store t w ≡ 0
  expired-none_held w t sole gone = elim (Bool-cases (held store t w == 0)) [
    | inl idle ↦ ground arith
    | inr here ↦ held-expired store t w (sole t (ground arith)) gone
  ]

  module _ (decimal : ℕ → Str) (parse : List ℕ → Frame) where
    abbrev Allowed : Event → Lifetime C → Type 0
    Allowed started w = expired store w ≡ true
    Allowed told_to_stop w = Unit
    Allowed destroyed w = Unit
    Allowed (arrived packet) w = Unit
    Allowed (served now u) w = Unit

    -- The scanner is started only if it was not before, or if `stopScanning` could have returned.
    abbrev pub Orderly : List Event → Option (Lifetime C) → Type 0
    Orderly [] w = Unit
    Orderly (e ∷ es) none = Unit
    Orderly (e ∷ es) (some w) = Allowed e w × Orderly es (happen store decimal parse e w)

    abbrev Sole : Option (Lifetime C) → Type 0
    Sole none = Unit
    Sole (some w) = IsSole w

    start_on-IsSole :
        (s : Scanner) (w : Lifetime C)
        → IsSole w
        → expired store w ≡ true
        → IsSole (start_on store s w)
    unfolding start_on
    start_on-IsSole s w sole gone t h =
        ground (arith, post-held store t w.next w.runner, expired-none_held w t sole gone)

    HoldsNoMore-Sole :
        (w : Lifetime C) (next : Option (Lifetime C))
        → IsSole w
        → HoldsNoMore store w next
        → Sole next
    HoldsNoMore-Sole w none sole less = tt
    HoldsNoMore-Sole w (some w') sole less = λ t h. less.2 ∙ sole t (omega (arith, h, less.0 t))

    happen-Sole :
        (e : Event) (w : Lifetime C) (own : Option Scanner)
        → w.scanner ≡ own
        → IsSole w
        → Allowed e w
        → Sole (happen store decimal parse e w)
    happen-Sole started w none own sole ok = rw own tt
    happen-Sole started w (some s) own sole ok =
        let kept = start_on-IsSole s w sole ok in unfold start_on in rw own kept
    happen-Sole told_to_stop w none own sole ok = rw own tt
    happen-Sole told_to_stop w (some s) own sole ok = rw own sole
    happen-Sole destroyed w o own sole ok = sole
    happen-Sole (arrived packet) w o own sole ok = sole
    happen-Sole (served now u) w o own sole ok =
        HoldsNoMore-Sole w (serve store decimal parse now u w) sole
          (serve-HoldsNoMore store decimal parse now u w)

    history_from-Sole :
        (es : List Event) (w : Option (Lifetime C))
        → Sole w
        → Orderly es w
        → Sole (history_from store decimal parse es w)
    history_from-Sole [] w sole ok = sole
    history_from-Sole (e ∷ es) none sole ok = tt
    history_from-Sole (e ∷ es) (some w) sole ok =
        history_from-Sole es (happen store decimal parse e w)
          (happen-Sole e w w.scanner refl sole ok.0) ok.1

    idle-serve :
        (now u : ℕ) (w : Lifetime C)
        → held store u w ≡ 0
        → serve store decimal parse now u w ≡ some w
    unfolding serve
    idle-serve now u w idle = ground arith

    history_from-idle :
        (es : List Event) (w : Lifetime C)
        → ((t : ℕ) → held store t w ≡ 0)
        → Unused es
        → history_from store decimal parse es (some w) ≢ none
    history_from-idle [] w idle calm = λ e. cc
    history_from-idle (started ∷ es) w idle calm = absurd calm
    history_from-idle (told_to_stop ∷ es) w idle calm = absurd calm
    history_from-idle (destroyed ∷ es) w idle calm = history_from-idle es _ idle calm
    history_from-idle (arrived packet ∷ es) w idle calm = history_from-idle es _ idle calm
    history_from-idle (served now u ∷ es) w idle calm =
        rw (idle-serve now u w (idle u)) (history_from-idle es w idle calm)

    -- Where every start of a scanner found the task of the start before gone, and the loop of
    -- `stopScanning` finds the last one gone too, the scanner may be destroyed: whatever the runner does
    -- and packets come afterwards, no task uses it. At first the runner holds no polling task.
    pub stopped-Unused :
        (before : List Event) (fresh w : Lifetime C) (es : List Event)
        → ((u : ℕ) → held store u fresh ≡ 0)
        → Orderly before (some fresh)
        → history store decimal parse before fresh ≡ some w
        → expired store w ≡ true
        → Unused es
        → history store decimal parse (destroyed ∷ es) w ≢ none
    unfolding history
    stopped-Unused before fresh w es none_held orderly done gone calm =
        let sole : IsSole w = subst Sole done (
          history_from-Sole before (some fresh) (λ t h. absurd (omega (arith, none_held t, h)))
            orderly) in
        history_from-idle es (record w { scanner = none }) (λ t. expired-none_held w t sole gone)
          calm

    serve-queued :
        (now t : ℕ) (w : Lifetime C)
        → w.scanner ≡ none
        → 0 < store.queued t w.runner.io_context
        → serve store decimal parse now t w ≡ none
    unfolding serve run_handler
    serve-queued now t w gone h = ground arith

    -- The handler of a timer in a runner that is there and goes on posts the task.
    fire_timer-queued :
        (t : ℕ) (w : Lifetime C)
        → w.runner.is_alive ≡ true
        → store.io.is_stopped w.runner.io_context ≡ false
        → 0 < store.queued t (fire_timer store t w).runner.io_context
    unfolding fire_timer on_timer Runner.post
    fire_timer-queued t w alive goes_on =
        let c = store.take_timer t w.runner.io_context in
        ground (arith, store.fired_stopped t w.runner.io_context, store.post_queued t t c)

    serve-timed :
        (now t : ℕ) (w : Lifetime C)
        → (store.queued t w.runner.io_context == 0) ≡ true
        → (store.timed t w.runner.io_context == 0) ≡ false
        → serve store decimal parse now t w ≡ some (fire_timer store t w)
    unfolding serve
    serve-timed now t w idle due = ground arith

    -- A scanner that is destroyed while a runner that goes on holds a task of it is used afterwards: by
    -- the second run, at the latest, of what is due of the task.
    pub destroyed-faults :
        (first second t : ℕ) (w : Lifetime C)
        → w.runner.is_alive ≡ true
        → store.io.is_stopped w.runner.io_context ≡ false
        → 0 < held store t w
        → history store decimal parse (destroyed ∷ served first t ∷ served second t ∷ []) w ≡ none
    unfolding history
    destroyed-faults first second t w alive goes_on here =
        let d : Lifetime C = record w { scanner = none } in
        elim (Bool-cases (store.queued t w.runner.io_context == 0)) [
          | inr due ↦
              ap (history_from store decimal parse (served second t ∷ []))
                (serve-queued first t d refl (ground arith))
          | inl idle ↦
              ap (history_from store decimal parse (served second t ∷ []))
                (serve-timed first t d idle (ground arith))
              ∙ serve-queued second t (fire_timer store t d) (unfold fire_timer in refl)
                  (fire_timer-queued t d alive goes_on)
        ]
