-- ===== src/Discovery/App/SetUp.antt =====
-- app/main.cpp: what the program makes before it reads its input, with the constructors of its
-- discovery task (app/MyIcmpDeviceDiscoveryTask.cpp, IcmpDeviceDiscoveryTask.cpp and IcmpScanner.cpp).
use cpp_grcp_testground.Prelude.{
  ℕ, ◌≡◌, refl, Bool, true, false, Option, none, some, List, [], ◌∷◌, Str, Result, ok, err,
  ErrorType, arith,
}
use cpp_grcp_testground.Util.Logger.{Logger, Options, initialize}
use cpp_grcp_testground.Util.Promises.{broken}
use cpp_grcp_testground.Models.Time.{ℤ, Milliseconds}
use cpp_grcp_testground.Net.MacAddress.{MacAddress}
use cpp_grcp_testground.Prelude.Map.{Order}
use cpp_grcp_testground.Net.NetworkInterface.{NetworkInterface, LiveDevices, by_name}
use cpp_grcp_testground.Net.Scanner.{Scanner, start_scanning}
use cpp_grcp_testground.Net.Scanner.Requests.{IsConsistent}
use cpp_grcp_testground.Net.Socket.Filter.{SockFilter, icmp_filter, attach}
use cpp_grcp_testground.Net.Socket.Pool.{RawSocket, attach_filter}
use cpp_grcp_testground.Repo.RepositoryRegistry
use cpp_grcp_testground.Repo.RepositoryRegistry.{Repos, register_repository, get}
use cpp_grcp_testground.Discovery.Task.{DeviceDiscoveryTask, DeviceDiscoveryTaskBuilder, build}
use cpp_grcp_testground.Discovery.Icmp.{IcmpDeviceDiscoveryTask, start}
use cpp_grcp_testground.Discovery.App.{World, on_device_pinged}

-- The scanner, its interface and its socket.
pub record OwnScanner {ℓ κ} (D : Type ℓ) (R : Type κ) : Type (ℓ ⊔ κ) where
  pub scanner : Scanner
  pub network_interface : NetworkInterface D
  pub socket : R

abbrev pub new_scanner : Scanner
new_scanner = record {
  running = false;
  pending_requests = [];
  futures = record { next = 0; state = λ _. broken };
}

-- The text `enp0s3`.
abbrev pub interface_name : Str
interface_name = 101 ∷ 110 ∷ 112 ∷ 48 ∷ 115 ∷ 51 ∷ []

module _ {ℓ κ μ ν} {D : Type ℓ} {S : Type κ} {B : Type μ} {Q : Type ν} (live : LiveDevices D)
    (setsockopt : S → List SockFilter → ℤ) where
  -- The constructor of `IcmpScanner`, which attaches the filter to its socket and does not look at the
  -- answer; `none` is the use of a null pointer.
  abbrev pub own_scanner :
      NetworkInterface D → Option (RawSocket S B Q) → Option (OwnScanner D (RawSocket S B Q))
  own_scanner iface none = none
  own_scanner iface (some socket) = filtered (attach_filter setsockopt icmp_filter socket)
    where
      filtered : Option Bool → Option (OwnScanner D (RawSocket S B Q))
      filtered none = none
      filtered (some attached) =
          some (record { scanner = new_scanner; network_interface = iface; socket = socket })

  -- `none` is also what `*` makes of a result that holds an error.
  abbrev pub with_interface :
      Result (NetworkInterface D) ErrorType
      → Option (RawSocket S B Q)
      → Option (OwnScanner D (RawSocket S B Q))
  with_interface (err e) socket = none
  with_interface (ok iface) socket = own_scanner iface socket

  -- The constructors of `MyIcmpDeviceDiscoveryTask` and of `IcmpDeviceDiscoveryTask`.
  unfoldable pub new_icmp_task : Option (RawSocket S B Q) → Option (OwnScanner D (RawSocket S B Q))
  new_icmp_task socket = with_interface (by_name live interface_name) socket

-- `*` of a result, which must not hold an error, and what is done with what it gives.
abbrev pub deref {ℓ κ} : {A : Type ℓ} {E : Type κ} → Result A E → Option A
deref (ok a) = some a
deref (err e) = none

abbrev pub and_then {ℓ κ} : {A : Type ℓ} {B : Type κ} → Option A → (A → Option B) → Option B
and_then none rest = none
and_then (some a) rest = rest a

-- The program before its loop: its logger, SNMP client `M` and repositories, and the discovery task
-- with what its scanner is made of.
pub record Program {ℓ κ μ} (M : Type ℓ) (D : Type κ) (R : Type μ) : Type (ℓ ⊔ (κ ⊔ μ)) where
  pub logger : Logger
  pub client : M
  pub registry : Repos
  pub own : OwnScanner D R
  pub task : IcmpDeviceDiscoveryTask World

module _ ⦃o : Order MacAddress⦄ where
  -- What the builder of the discovery task is given; the callback for a failure only logs.
  abbrev pub builder : Milliseconds → DeviceDiscoveryTaskBuilder World
  builder memory = record {
    on_device_pinged = some (on_device_pinged memory);
    on_ping_failed = some (λ error world. world);
    task = some (record { results = []; on_device_pinged = none; on_ping_failed = none });
  }

  -- The task is started when it is added to the service. `startScanning` also posts the polling task
  -- to the default runner, which `Net.Scanner.Lifetime.start_on` models; the runner is no part of the
  -- task.
  abbrev pub started : Scanner → DeviceDiscoveryTask World → IcmpDeviceDiscoveryTask World
  started scanner base = start (record { base = base; icmp_scanner = scanner })

module _ {ℓ κ μ ν ξ} {D : Type ℓ} {S : Type κ} {B : Type μ} {Q : Type ν} {M : Type ξ}
    ⦃o : Order MacAddress⦄ (live : LiveDevices D) (setsockopt : S → List SockFilter → ℤ) where
  -- The statements of `main`: `options` are those of the command line, `created` is the answer of
  -- `SnmpClient::create`, `device_repo` the repository of type `type`, and `socket` what the pool made.
  unfoldable pub set_up :
      Options
      → Logger
      → ℕ
      → Result M ErrorType
      → (type device_repo : ℕ) → Milliseconds
      → Option (RawSocket S B Q)
      → Option (Program M D (RawSocket S B Q))
  set_up options logger level created type device_repo memory socket =
      let registered = register_repository type device_repo (λ _. none) in
      and_then (deref created) (λ client. and_then (deref registered.0) (λ repo.
        and_then (new_icmp_task live setsockopt socket) (λ own.
          and_then (build (builder memory)) (λ base. some (record {
            logger = initialize level options logger;
            client = client;
            registry = registered.1;
            own = own;
            task = started own.scanner base;
          })))))

  -- A program with this client, interface and socket, whose repositories lead to that of devices, and
  -- whose discovery task has found nothing, runs and has consistent requests.
  abbrev pub Ready :
      M
      → NetworkInterface D
      → RawSocket S B Q
      → (type device_repo : ℕ) → Program M D (RawSocket S B Q)
      → Type (ℓ ⊔ (κ ⊔ (μ ⊔ (ν ⊔ ξ))))
  Ready client iface socket type device_repo p =
      (p.client ≡ client)
      × ((p.own.network_interface ≡ iface)
          × ((p.own.socket ≡ socket)
              × ((get type p.registry ≡ ok device_repo)
                  × ((p.task.base.results ≡ [])
                      × ((p.task.icmp_scanner.running ≡ true)
                          × IsConsistent p.task.icmp_scanner)))))

  -- What the three calls that may fail come to.
  abbrev pub Outcome :
      Result M ErrorType
      → Result (NetworkInterface D) ErrorType
      → Option (RawSocket S B Q)
      → (type device_repo : ℕ) → Option (Program M D (RawSocket S B Q))
      → Type (ℓ ⊔ (κ ⊔ (μ ⊔ (ν ⊔ ξ))))
  Outcome (err e) iface socket type device_repo made = made ≡ none
  Outcome (ok client) (err e) socket type device_repo made = made ≡ none
  Outcome (ok client) (ok iface) none type device_repo made = made ≡ none
  Outcome (ok client) (ok iface) (some socket) type device_repo made =
      (p : Program M D (RawSocket S B Q)) × ((made ≡ some p)
        × Ready client iface socket type device_repo p)

  -- The program comes to its loop if and only if the SNMP client was created, the interface is there
  -- and the pool has made a socket; it is then ready. Otherwise it dereferences an error or a null
  -- pointer.
  pub set_up-Outcome :
      (options : Options) (logger : Logger) (level : ℕ) (created : Result M ErrorType)
      (type device_repo : ℕ) (memory : Milliseconds) (iface : Result (NetworkInterface D) ErrorType)
      (socket : Option (RawSocket S B Q))
      → by_name live interface_name ≡ iface
      → Outcome created iface socket type device_repo
          (set_up options logger level created type device_repo memory socket)
  unfolding set_up new_icmp_task attach_filter attach register_repository RepositoryRegistry.has get
      start start_scanning
  set_up-Outcome options logger level (err e) type device_repo memory iface socket h = refl
  set_up-Outcome options logger level (ok client) type device_repo memory (err e) socket h =
      rw h refl
  set_up-Outcome options logger level (ok client) type device_repo memory (ok iface) none h =
      rw h refl
  set_up-Outcome options logger level (ok client) type device_repo memory (ok iface) (some socket)
        h =
      rw h (
        record {
          logger = initialize level options logger;
          client = client;
          registry = (register_repository type device_repo (λ _. none)).1;
          own = record { scanner = new_scanner; network_interface = iface; socket = socket };
          task = started new_scanner (record {
            results = [];
            on_device_pinged = some (on_device_pinged memory);
            on_ping_failed = some (λ error world. world);
          });
        },
        (
          refl,
          (
            refl,
            (
              refl,
              (
                refl,
                (
                  ground arith,
                  (
                    refl,
                    (
                      refl,
                      record { sorted = tt; fresh = tt; distinct = tt; tracked = λ i h. refl },
                    ),
                  ),
                ),
              ),
            ),
          ),
        ),
      )
