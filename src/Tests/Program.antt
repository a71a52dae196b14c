-- ===== src/Tests/Program.antt =====
-- The SNMP service and the loop of the program over its input.
use cpp_grcp_testground.Prelude.{arith, ℕ, suc, ◌≡◌, refl, true, false, some, [], ◌∷◌, Str}
use cpp_grcp_testground.Prelude.Strings.{str_order}
use cpp_grcp_testground.Async.Runner.{TaskRunner}
use cpp_grcp_testground.Discovery.Service.{TaskOps}
use cpp_grcp_testground.Discovery.App.Input.{AppState, input_loop, input_loop-endless}
use cpp_grcp_testground.Tests.Data.{decimal}
use cpp_grcp_testground.Tests.Snmp.{lib, unused}
use cpp_grcp_testground.Tests.Threads.{Counter, counting}
use cpp_grcp_testground.Prelude.{List, none, ok}
use cpp_grcp_testground.Models.Time.{ℤ, pos, negsuc}
use cpp_grcp_testground.Util.Logger.{Options, base_file, new_logger}
use cpp_grcp_testground.Net.NetworkInterface.{LiveDevices, by_name}
use cpp_grcp_testground.Net.Socket.Filter.{SockFilter}
use cpp_grcp_testground.Net.Socket.Pool.{RawSocket}
use cpp_grcp_testground.Discovery.App.SetUp.{Program, set_up, set_up-Outcome, interface_name}
use cpp_grcp_testground.Tests.Data.{by_number}

abbrev pub runner : TaskRunner Counter
runner = record { io_context = (0, (false, true)); is_alive = true }

-- Tasks that only count what they have found.
abbrev ops : TaskOps ℕ ℕ
ops = record {
  start = λ t world. (t, world);
  discover = λ ip t world. (suc t, world);
  clear_results = λ t. 0;
}

abbrev app : AppState ℕ Counter
app = record { tasks = 4 ∷ []; client = unused; runner = runner; sent = [] }

abbrev pub uuid : ℕ → Str
uuid n = n ∷ []

-- A new line, and then the end of the input.
input_loop-endless_example : (input_loop ops counting decimal lib uuid 6 (10 ∷ []) app).0 ≡ false
input_loop-endless_example =
    (input_loop-endless ops counting decimal lib uuid (10 ∷ []) 5 app
      ((omega arith, omega arith), tt)).0

-- A host whose one interface has the number 3.
abbrev pub live : LiveDevices ℕ
live = record {
  device_by_name = λ name. some 3;
  device_by_ip = λ ip. none;
  devices = 3 ∷ [];
  ipv4_address = λ d. 192 ∷ 168 ∷ 178 ∷ d ∷ [];
  mac_address = λ d. 1 ∷ 2 ∷ 3 ∷ 4 ∷ 5 ∷ d ∷ [];
  gateway = λ d. 192 ∷ 168 ∷ 178 ∷ 1 ∷ [];
}

abbrev pub refuse : ℕ → List SockFilter → ℤ
refuse socket filter = negsuc 0

abbrev pub made : RawSocket ℕ ℕ ℕ
made = record {
  socket = 3;
  sock_addr = record {
    sll_family = 17;
    sll_protocol = 8;
    sll_ifindex = 3;
    sll_hatype = 1;
    interface = interface_name;
  };
  listener = record { asio_buffer = 0; packet_buffer = 0; receiving = 1 };
}

abbrev options : Options
options = record { application_name = []; log_path = []; verbose = true; source_style = base_file }

pub found : by_name live interface_name ≡ ok (record { device = 3 })
unfolding by_name
found = refl

-- The filter is refused, which the program does not notice.
set_up-Outcome_example :
    (p : Program ℕ ℕ (RawSocket ℕ ℕ ℕ)) × (set_up ⦃o = by_number⦄ live refuse options
        (new_logger 2)
        2
        (ok 7)
        1
        5
        (pos 0)
        (some made)
      ≡ some p)
set_up-Outcome_example =
    let r =
      set_up-Outcome ⦃o = by_number⦄ live refuse options (new_logger 2) 2 (ok 7) 1 5 (pos 0)
        (ok (record { device = 3 })) (some made) found in
    (r.0, r.1.0)
