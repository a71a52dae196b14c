-- ===== src/Tests/Whole.antt =====
-- The whole program on one input.
use cpp_grcp_testground.Prelude.{
  ℕ, zero, suc, ◌≡◌, refl, true, false, Option, none, some, List, [], ◌∷◌, Str, if◌then◌else◌, ok,
  inr, arith, map, All,
}
use cpp_grcp_testground.Prelude.Strings.{codes}
use cpp_grcp_testground.Util.Enum.{EnumLibrary}
use cpp_grcp_testground.Util.Logger.{new_logger}
use cpp_grcp_testground.Models.Time.{ℤ, pos, negsuc}
use cpp_grcp_testground.Net.Bytes.{bytes_equal}
use cpp_grcp_testground.Net.Socket.Pool.{RawSocket}
use cpp_grcp_testground.Snmp.Client.{SnmpClient}
use cpp_grcp_testground.Snmp.Oids.{
  OidType, integer32_type, uinteger32_type, octet_string_type, oid_value_type, counter64_type,
  time_ticks_type, opaque_type,
}
use cpp_grcp_testground.Discovery.Service.{TaskOps}
use cpp_grcp_testground.Discovery.Icmp.{IcmpDeviceDiscoveryTask}
use cpp_grcp_testground.Discovery.App.{World}
use cpp_grcp_testground.Discovery.App.Demonstration.{Formats}
use cpp_grcp_testground.Discovery.App.Demonstration.Lines.{shown, six_more}
use cpp_grcp_testground.Discovery.App.Input.{perform_all}
use cpp_grcp_testground.Discovery.App.Main.{Run, main, begun, main-returns}
use cpp_grcp_testground.Discovery.App.SetUp.{Program, Ready}
use cpp_grcp_testground.Tests.Data.{decimal, hex, by_number}
use cpp_grcp_testground.Tests.Snmp.{lib, unused}
use cpp_grcp_testground.Tests.Threads.{Counter, counting}
use cpp_grcp_testground.Tests.Program.{live, refuse, made, found, runner, uuid}

abbrev name : OidType → Str
name integer32_type = codes "Integer32"
name uinteger32_type = codes "UInteger32"
name octet_string_type = codes "OctetString"
name oid_value_type = codes "Oid"
name counter64_type = codes "Counter64"
name time_ticks_type = codes "TimeTicks"
name opaque_type = codes "Opaque"

abbrev number : OidType → ℤ
number integer32_type = pos 0
number uinteger32_type = pos 1
number octet_string_type = pos 2
number oid_value_type = pos 3
number counter64_type = pos 4
number time_ticks_type = pos 5
number opaque_type = pos 6

abbrev all_types : List OidType
all_types =
    integer32_type ∷ uinteger32_type ∷ octet_string_type ∷ oid_value_type ∷ counter64_type
    ∷ time_ticks_type ∷ opaque_type ∷ []

abbrev named : Str → List OidType → Option OidType
named text [] = none
named text (t ∷ ts) = let rest = named text ts in if bytes_equal text (name t) then some t else rest

abbrev numbered : ℤ → Option OidType
numbered (negsuc n) = none
numbered (pos n) = nth n all_types
  where
    nth : ℕ → List OidType → Option OidType
    nth i [] = none
    nth zero (t ∷ ts) = some t
    nth (suc i) (t ∷ ts) = nth i ts

names_read : All (λ t. named (name t) all_types ≡ some t) all_types
names_read = (refl, (refl, (refl, (refl, (refl, (refl, (refl, tt)))))))

abbrev types : EnumLibrary OidType
types = record {
  enum_values = all_types;
  enum_name = name;
  enum_number = number;
  enum_cast = λ text. named text all_types;
  enum_cast_number = numbered;
  enum_count = 7;
  enum_entries = map (λ t. (t, name t)) all_types;
  count_values = refl;
  entries_values = refl;
  cast_name = names_read;
  cast_number = (refl, (refl, (refl, (refl, (refl, (refl, (refl, tt)))))));
}

abbrev formats : Formats
formats = record {
  decimal = decimal;
  hex = hex;
  make_address_v4 = λ text.
      if bytes_equal text (codes "192.168.178.1")
      then some (192 ∷ 168 ∷ 178 ∷ 1 ∷ [])
      else if bytes_equal text (codes "192.168.178.5")
      then some (192 ∷ 168 ∷ 178 ∷ 5 ∷ [])
      else none;
}

first_read : formats.make_address_v4 (codes "192.168.178.1") ≡ some (192 ∷ 168 ∷ 178 ∷ 1 ∷ [])
first_read = refl

last_read : formats.make_address_v4 (codes "192.168.178.5") ≡ some (192 ∷ 168 ∷ 178 ∷ 5 ∷ [])
last_read = refl

abbrev ops : TaskOps (IcmpDeviceDiscoveryTask World) ℕ
ops = record {
  start = λ t world. (t, world);
  discover = λ ip t world. (t, world);
  clear_results = λ t. t;
}

abbrev run : Run (RawSocket ℕ ℕ ℕ) Counter
run = record {
  args = (codes "--log", codes "my_log.txt") ∷ [];
  log_path = codes "my_log.txt";
  verbose = false;
  logger = new_logger 2;
  level = 2;
  created = ok unused;
  repo_type = 1;
  device_repo = 5;
  memory = pos 0;
  socket = some made;
  runner = runner;
}

-- A new line, `c`, `q` and `x`.
main_on_input :
    (p : Program SnmpClient ℕ (RawSocket ℕ ℕ ℕ)) × (Ready ⦃o = by_number⦄ live refuse unused
      (record { device = 3 })
      made
      1
      5
      p)
    × (main ⦃o = by_number⦄ live refuse ops counting formats lib types uuid
          (six_more 0)
          3
          run
          (10 ∷ 99 ∷ 113 ∷ 120 ∷ [])
        ≡ some (
          shown formats lib types run.args,
          (
            true,
            perform_all ops counting decimal lib uuid
                (10 ∷ 99 ∷ [])
                (begun ⦃o = by_number⦄ live refuse ops counting formats lib types uuid runner p),
          ),
        ))
main_on_input =
    main-returns ⦃o = by_number⦄ live refuse ops counting formats lib types uuid 0 0 run unused
      (record { device = 3 }) made (10 ∷ 99 ∷ []) (120 ∷ []) 113 refl found refl first_read
      last_read ((omega arith, omega arith), ((omega arith, omega arith), tt)) (inr refl)
