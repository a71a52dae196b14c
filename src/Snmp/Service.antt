-- ===== src/Snmp/Service.antt =====
-- core/core/services/snmp_service/SnmpService.h: the service that walks a table and logs what it finds.
use cpp_grcp_testground.Prelude.{ℕ, false, Option, none, some, List, [], ◌∷◌, ◌++◌, Str, ok, err}
use cpp_grcp_testground.Prelude.Strings.{str_order}
use cpp_grcp_testground.Util.Promises.{Promises}
use cpp_grcp_testground.Net.IPv4Address.{IPv4Address, default_address}
use cpp_grcp_testground.Async.Task.{Continuation, end_task, run_again_delayed}
use cpp_grcp_testground.Async.FutureResolver.{FutureResolver}
use cpp_grcp_testground.Async.Runner.{IoContext, TaskRunner, post}
use cpp_grcp_testground.Snmp.Values.{VarBind, Library}
use cpp_grcp_testground.Snmp.Oids.{if_table}
use cpp_grcp_testground.Snmp.Target.{Target, create_v2, set_port}
use cpp_grcp_testground.Snmp.Client.{
  SnmpClient, SnmpResult, Sent, Walked, finished, failed, unfinished, walk_async,
}

-- What the resolver logs.
pub data Log : Type 0 where
  answered : IPv4Address → List VarBind → Log
  failed_request : Log
  error_logged : Log

abbrev pub on_completion : SnmpResult → List Log → List Log
on_completion (ok item) log = log ++ (answered item.host item.variables ∷ [])
on_completion (err e) log = log ++ (failed_request ∷ [])

abbrev pub on_exception : List Log → List Log
on_exception log = log ++ (error_logged ∷ [])

-- `SnmpResolver`, with the default delay.
abbrev pub snmp_resolver : FutureResolver SnmpResult (List Log)
snmp_resolver = record {
  on_completion = λ item log. (on_completion item log, false);
  on_exception = on_exception;
  retry_delay = 1000;
}

-- The text `public`.
abbrev pub public_community : Str
public_community = 112 ∷ 117 ∷ 98 ∷ 108 ∷ 105 ∷ 99 ∷ []

abbrev pub with_port : Option ℕ → Target → Target
with_port none target = target
with_port (some port) target = set_port port target

module _ (decimal : ℕ → Str) (lib : Library) where
  -- The request, and the resolver of its future, which the default runner is given: a resolver is
  -- known by the number of its future.
  unfoldable pub request_system {ℓ} :
      {C : Type ℓ}
      → IoContext ℕ C
      → Str
      → IPv4Address
      → Option ℕ
      → SnmpClient
      → TaskRunner C
      → (SnmpClient × Sent) × TaskRunner C
  request_system io uuid host port c runner =
      let target = with_port port (create_v2 host public_community public_community) in
      (walk_async decimal lib uuid (if_table lib) target c, post io c.futures.next runner)

-- What a run of the resolver comes to after a reply, by what the walk comes to.
abbrev pub logged : Walked → List Log → List Log × Continuation
logged (finished variables) log = (log ++ (answered default_address variables ∷ []), end_task)
logged (failed variables) log = (log ++ (failed_request ∷ []), end_task)
logged (unfinished variables) log = (log, run_again_delayed 1000)
