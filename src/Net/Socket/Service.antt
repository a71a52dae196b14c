-- ===== src/Net/Socket/Service.antt =====
-- core/core/net/socket/SocketPool.h and SocketPool.cpp: the thread of the socket pool, which serves the
-- `io_service` of its sockets.
use cpp_grcp_testground.Prelude.{◌≡◌, refl, Option, none, some, Str}
use cpp_grcp_testground.Prelude.Strings.{codes}
use cpp_grcp_testground.Async.Thread.{Thread, Phase, spawned, running, returned, spawn}
use cpp_grcp_testground.Async.Context.{RunLoop, serve}

pub record SocketPool {ℓ} (C : Type ℓ) : Type ℓ where
  pub io_service : C
  pub service_thread : Thread

module _ {ℓ κ} {T : Type ℓ} {C : Type κ} (loop : RunLoop T C) where
  abbrev pub pool_of : C → Option Thread → Option (SocketPool C)
  pool_of c none = none
  pool_of c (some t) = some (record { io_service = c; service_thread = t })

  -- The constructor, whose guard is made before its thread; `none` is the failed assertion of the name.
  unfoldable pub new_pool : (Str → Str → Str) → Str → C → Option (SocketPool C)
  new_pool pthread_setname exe c =
      pool_of (loop.make_guard c) (spawn pthread_setname exe (codes "SocketPool"))

  unfoldable pub shutdown : SocketPool C → SocketPool C
  shutdown p = record p { io_service = loop.io.stop_context p.io_service }

  -- The destructor, before it waits for the thread.
  unfoldable pub destroy_pool : SocketPool C → SocketPool C
  unfolding shutdown
  destroy_pool p = shutdown p

  -- The next step of the thread, which only calls `run`.
  abbrev pub pool_step : Phase → SocketPool C → SocketPool C
  pool_step spawned p = record p { service_thread = record p.service_thread { phase = running } }
  pool_step running p =
      let served = serve loop p.io_service p.service_thread in
      record { io_service = served.0; service_thread = served.1 }
  pool_step returned p = p

  unfoldable pub pool_turn : SocketPool C → SocketPool C
  pool_turn p = pool_step p.service_thread.phase p

  -- The thread of a pool that is destroyed has returned after two turns, wherever it was.
  pub destroy_pool-returns :
      (p : SocketPool C) (phase : Phase)
      → p.service_thread.phase ≡ phase
      → (pool_turn (pool_turn (destroy_pool p))).service_thread.phase ≡ returned
  unfolding pool_turn destroy_pool
  destroy_pool-returns p spawned e = rw (e, loop.io.stop_stops p.io_service) refl
  destroy_pool-returns p running e = rw (e, loop.io.stop_stops p.io_service) refl
  destroy_pool-returns p returned e = rw e refl
