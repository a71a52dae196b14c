-- ===== src/Discovery/Service/Recording.antt =====
-- The addresses that DeviceDiscoveryService.cpp hands to its tasks, seen from the tasks.
use cpp_grcp_testground.Prelude.{
  ℕ, ◌+◌, ◌%◌, ◌^◌, ◌<◌, ◌≡◌, refl, sym, ap, ◌∙◌, some, List, [], ◌∷◌, ◌++◌, map, All,
}
use mathlib.Core.List.{append-nil, append_assoc}
use cpp_grcp_testground.Util.Sequence.Walk.{numbers, distance}
use cpp_grcp_testground.Net.IPv4Address.{IPv4Address, IsValid, to_int}
use cpp_grcp_testground.Discovery.Service.{
  TaskOps, discover, discover_each, discover_range, discover_range-visits,
}

module _ {ℓ κ} {A : Type ℓ} {S : Type κ} (act : A → IPv4Address → S → S) where
  -- Tasks with a name and a state that an address changes; the world is the list of the calls of
  -- `discover`, each with the name of its task.
  abbrev pub recording : TaskOps (A × S) (List (A × IPv4Address))
  recording = record {
    start = λ t log. (t, log);
    discover = λ ip t log. ((t.0, act t.0 ip t.1), log ++ ((t.0, ip) ∷ []));
    clear_results = λ t. t;
  }

  -- The state of a task that has been handed addresses.
  abbrev pub handed : A → List IPv4Address → S → S
  handed a [] s = s
  handed a (ip ∷ ips) s = handed a ips (act a ip s)

  -- A call of each task for each address, the addresses in their order and for each of them the tasks
  -- in theirs.
  abbrev pub calls : List IPv4Address → List A → List (A × IPv4Address)
  calls [] names = []
  calls (ip ∷ ips) names = map (λ a. (a, ip)) names ++ calls ips names

  abbrev names : List (A × S) → List A
  names tasks = map (λ t. t.0) tasks

  abbrev after : List IPv4Address → List (A × S) → List (A × S)
  after ips tasks = map (λ t. (t.0, handed t.0 ips t.1)) tasks

  discover-recording :
      (ip : IPv4Address) (tasks : List (A × S)) (log : List (A × IPv4Address))
      → discover recording ip tasks log
        ≡ (after (ip ∷ []) tasks, log ++ map (λ a. (a, ip)) (names tasks))
  unfolding discover
  discover-recording ip [] log = λ i. ([], sym (append-nil log) i)
  discover-recording ip ((a, s) ∷ tasks) log =
      let rest = discover-recording ip tasks (log ++ ((a, ip) ∷ [])) in
      let shift = append_assoc log ((a, ip) ∷ []) (map (λ a'. (a', ip)) (names tasks)) in
      ap (λ r. ((a, act a ip s) ∷ r.0, r.1)) (rest ∙ (λ i. (after (ip ∷ []) tasks, shift i)))

  names-after :
      (ips : List IPv4Address) (tasks : List (A × S)) → names (after ips tasks) ≡ names tasks
  names-after ips [] = refl
  names-after ips (t ∷ tasks) = ap (λ r. t.0 ∷ r) (names-after ips tasks)

  after-after :
      (ip : IPv4Address) (ips : List IPv4Address) (tasks : List (A × S))
      → after ips (after (ip ∷ []) tasks) ≡ after (ip ∷ ips) tasks
  after-after ip ips [] = refl
  after-after ip ips (t ∷ tasks) =
      ap (λ r. (t.0, handed t.0 (ip ∷ ips) t.1) ∷ r) (after-after ip ips tasks)

  after-none : (tasks : List (A × S)) → tasks ≡ after [] tasks
  after-none [] = refl
  after-none (t ∷ tasks) = ap (λ r. t ∷ r) (after-none tasks)

  discover_each-recording :
      (ips : List IPv4Address) (tasks : List (A × S)) (log : List (A × IPv4Address))
      → discover_each recording ips tasks log ≡ (after ips tasks, log ++ calls ips (names tasks))
  unfolding discover_each
  discover_each-recording [] tasks log = λ i. (after-none tasks i, sym (append-nil log) i)
  discover_each-recording (ip ∷ ips) tasks log =
      let here = map (λ a. (a, ip)) (names tasks) in
      let first = discover-recording ip tasks log in
      let rest = discover_each-recording ips (after (ip ∷ []) tasks) (log ++ here) in
      let kept = ap (calls ips) (names-after (ip ∷ []) tasks) in
      let shift = append_assoc log here (calls ips (names tasks)) in
      ap (λ r. discover_each recording ips r.0 r.1) first
      ∙ rest
      ∙ (λ i. (after-after ip ips tasks i, (log ++ here) ++ kept i))
      ∙ (λ i. (after (ip ∷ ips) tasks, shift i))

  -- A range with valid bounds is discovered with fuel for one round more than it has addresses, by
  -- tasks that record their calls. Each address from the first to the last, the last included, is
  -- handed to every task once: the calls are those of all tasks, in their order, for the first
  -- address, then for the next, and so on, and each task, which keeps its place, has the state that
  -- the addresses bring it to one after another. The addresses go round at 2 ^ 32, and there are none
  -- if the one after the last is the first.
  pub discover_range-calls :
      (fuel : ℕ) (begin end : IPv4Address) (tasks : List (A × S)) (log : List (A × IPv4Address))
      → IsValid begin
      → IsValid end
      → distance (2 ^ 32) (to_int begin) ((to_int end + 1) % 2 ^ 32) < fuel
      → (ips : List IPv4Address) × (discover_range recording fuel begin end tasks log
          ≡ some
              (map (λ t. (t.0, handed t.0 ips t.1)) tasks, log ++ calls ips (map (λ t. t.0) tasks)))
        × (map to_int ips
            ≡ numbers
                (2 ^ 32)
                (distance (2 ^ 32) (to_int begin) ((to_int end + 1) % 2 ^ 32))
                (to_int begin))
        × All IsValid ips
  discover_range-calls fuel begin end tasks log vb ve h =
      let (ips, ran, ranks, valid) =
        discover_range-visits recording fuel begin end tasks log vb ve h in
      (ips, ran ∙ ap some (discover_each-recording ips tasks log), ranks, valid)
