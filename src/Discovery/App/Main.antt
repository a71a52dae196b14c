-- ===== src/Discovery/App/Main.antt =====
-- app/main.cpp: `main`, from the command line to its return. What it logs before it discovers anything
-- is that of `Demonstration`; since an error that is dereferenced is `none`, wherever it is, the parts
-- that `SetUp` makes come first here.
use cpp_grcp_testground.Prelude.{
  ℕ, suc, ◌+◌, ◌≡◌, ◌⊎◌, ◌∙◌, Bool, true, Option, some, List, [], ◌∷◌, ◌++◌, Str, length, All,
  Result, ok, ErrorType,
}
use cpp_grcp_testground.Prelude.Map.{Order}
use cpp_grcp_testground.Prelude.Strings.{codes}
use cpp_grcp_testground.Util.Enum.{EnumLibrary}
use cpp_grcp_testground.Util.Logger.{Logger, Options, base_file}
use cpp_grcp_testground.Models.Time.{ℤ, Milliseconds}
use cpp_grcp_testground.Net.MacAddress.{MacAddress}
use cpp_grcp_testground.Net.NetworkInterface.{NetworkInterface, LiveDevices, by_name}
use cpp_grcp_testground.Net.Socket.Filter.{SockFilter}
use cpp_grcp_testground.Net.Socket.Pool.{RawSocket}
use cpp_grcp_testground.Async.Runner.{IoContext, TaskRunner}
use cpp_grcp_testground.Snmp.Values.{Library}
use cpp_grcp_testground.Snmp.Oids.{OidType}
use cpp_grcp_testground.Snmp.Client.{SnmpClient}
use cpp_grcp_testground.Discovery.Service.{TaskOps}
use cpp_grcp_testground.Discovery.Icmp.{IcmpDeviceDiscoveryTask}
use cpp_grcp_testground.Discovery.App.{World}
use cpp_grcp_testground.Discovery.App.Input.{
  AppState, Stays, input_loop, perform_all, input_loop-ends,
}
use cpp_grcp_testground.Discovery.App.Demonstration.{Formats, demonstrate}
use cpp_grcp_testground.Discovery.App.Demonstration.Lines.{shown, six_more, demonstrate-shown}
use cpp_grcp_testground.Discovery.App.SetUp.{
  Program, and_then, interface_name, set_up, Ready, set_up-Outcome,
}

-- What the logger is given of the command line.
unfoldable pub options_of : Str → Bool → Options
options_of log verbose = record {
  application_name = codes "Embedded";
  log_path = log;
  verbose = verbose;
  source_style = base_file;
}

-- What `main` is run with: the arguments of the command line, the logger and the level of new loggers,
-- the answer of `SnmpClient::create`, the number of the type of the repository and the repository, what
-- memory holds, the socket that the pool made and the default runner, as it is when the loop begins:
-- `startScanning` of the discovery task has by then posted the polling task to it.
pub record Run {ℓ κ} (R : Type ℓ) (C : Type κ) : Type (ℓ ⊔ κ) where
  pub args : List (Str × Str)
  pub log_path : Str
  pub verbose : Bool
  pub logger : Logger
  pub level : ℕ
  pub created : Result SnmpClient ErrorType
  pub repo_type : ℕ
  pub device_repo : ℕ
  pub memory : Milliseconds
  pub socket : Option R
  pub runner : TaskRunner C

-- The texts that were logged before the loop, whether the loop has ended and what it leaves.
abbrev pub Ended {ℓ} : Type ℓ → Type ℓ
Ended C = List Str × (Bool × AppState (IcmpDeviceDiscoveryTask World) C)

module _ {ℓ κ μ ν ξ ζ} {D : Type ℓ} {S : Type κ} {B : Type μ} {Q : Type ν} {C : Type ξ} {W : Type ζ}
    ⦃o : Order MacAddress⦄ (live : LiveDevices D) (setsockopt : S → List SockFilter → ℤ)
    (ops : TaskOps (IcmpDeviceDiscoveryTask World) W) (io : IoContext ℕ C) (f : Formats)
    (lib : Library) (types : EnumLibrary OidType) (uuid : ℕ → Str) where
  -- What the loop begins with.
  abbrev pub begun :
      TaskRunner C
      → Program SnmpClient D (RawSocket S B Q)
      → AppState (IcmpDeviceDiscoveryTask World) C
  begun runner p = record { tasks = p.task ∷ []; client = p.client; runner = runner; sent = [] }

  abbrev pub made_of : Run (RawSocket S B Q) C → Option (Program SnmpClient D (RawSocket S B Q))
  made_of r =
      set_up live setsockopt (options_of r.log_path r.verbose) r.logger r.level r.created
        r.repo_type r.device_repo r.memory r.socket

  -- `fuel` is for the ranges that are logged, and `rounds` how long the loop is watched.
  unfoldable pub main : ℕ → ℕ → Run (RawSocket S B Q) C → List ℕ → Option (Ended C)
  main fuel rounds r input = and_then (made_of r) (λ p.
      and_then (demonstrate f fuel lib types r.args) (λ lines.
        some (lines, input_loop ops io f.decimal lib uuid rounds input (begun r.runner p))))

  -- The loop of the program ends if the SNMP client was created, the interface is there, the pool has made a
  -- socket, the network library reads the texts of the range that is logged, and the input comes to a
  -- `q` or a 0: it has then logged the demonstrations, made what the loop needs and acted on the
  -- characters before that one, in their order, and on none behind it.
  pub main-returns :
      (fuel rounds : ℕ) (r : Run (RawSocket S B Q) C) (client : SnmpClient)
      (iface : NetworkInterface D) (socket : RawSocket S B Q) (cs rest : List ℕ) (q : ℕ)
      → r.created ≡ ok client
      → by_name live interface_name ≡ ok iface
      → r.socket ≡ some socket
      → f.make_address_v4 (codes "192.168.178.1") ≡ some (192 ∷ 168 ∷ 178 ∷ 1 ∷ [])
      → f.make_address_v4 (codes "192.168.178.5") ≡ some (192 ∷ 168 ∷ 178 ∷ 5 ∷ [])
      → All Stays cs
      → (q ≡ 0) ⊎ (q ≡ 113)
      → (p : Program SnmpClient D (RawSocket S B Q)) × Ready live setsockopt client iface socket
          r.repo_type r.device_repo p
        × (main (six_more fuel) (length cs + suc rounds) r (cs ++ (q ∷ rest))
            ≡ some (
              shown f lib types r.args,
              (true, perform_all ops io f.decimal lib uuid cs (begun r.runner p)),
            ))
  unfolding main
  main-returns fuel rounds r client iface socket cs rest q created found opened first last stays
        ends =
      let (p, (made, ready)) =
        set_up-Outcome live setsockopt (options_of r.log_path r.verbose) r.logger r.level
          (ok client) r.repo_type r.device_repo r.memory (ok iface) (some socket) found in
      let whole : made_of r ≡ some p =
        (λ i.
          set_up live setsockopt (options_of r.log_path r.verbose) r.logger r.level (created i)
            r.repo_type r.device_repo r.memory (opened i))
        ∙ made in
      (
        p,
        ready,
        λ i. and_then (whole i) (λ p'.
            and_then (demonstrate-shown f fuel lib types r.args first last i) (λ lines. some (
              lines,
              input_loop-ends ops io f.decimal lib uuid cs rest q rounds (begun r.runner p') stays
                  ends i,
            ))),
      )
