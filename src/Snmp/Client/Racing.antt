-- ===== src/Snmp/Client/Racing.antt =====
-- The end of getAsync in SnmpClient.cpp, which takes the future of a request that was sent.
use cpp_grcp_testground.Prelude.Strings.{str_order}
use cpp_grcp_testground.Snmp.Target.{Target}
