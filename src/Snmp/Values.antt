-- ===== src/Snmp/Values.antt =====
-- core/core/net/snmp: Oid.h, VarBind.h and, of SnmpClient.cpp, `toOidValue` and `createPdu`.
--
-- The SNMP library's object identifier is the list of its numbers, and its `Vb` a record. The library's
-- own functions are arguments: `printable` writes an identifier, `parse` is `Oid::parse`, which asks
-- the library whether the text is one, `buffer` is what memory holds from the buffer on after the
-- library has copied octets into it, and `print_value` writes a value. `garbage` is what `*` reads of a
-- result that holds an error.
use cpp_grcp_testground.Prelude.{
  ℕ, ◌==◌, Bool, Option, some, List, [], ◌∷◌, map, if◌then◌else◌, Str, ErrorType, Result, value_or,
}
use cpp_grcp_testground.Models.Time.{ℤ}

-- `Snmp_pp::Oid`
abbrev pub Oid : Type 0
Oid = List ℕ

-- The value of a `Vb`, by its syntax; `no_other` is every other syntax.
pub data Syntax : Type 0 where
  int : ℤ → Syntax
  octets : List ℕ → Syntax
  cntr32 gauge32 timeticks cntr64 : ℕ → Syntax
  oid : Oid → Syntax
  end_of_mib_view other_syntax : Syntax

-- `Snmp_pp::Vb`
pub record Vb : Type 0 where
  pub oid : Oid
  pub valid : Bool
  pub value : Syntax

-- `OidValue`; `Counter32` and `Gauge32` are other names of `UInteger32`.
pub data OidValue : Type 0 where
  integer32 : ℤ → OidValue
  uinteger32 : ℕ → OidValue
  octet_string : Str → OidValue
  oid_type : Oid → OidValue
  counter64 time_ticks : ℕ → OidValue
  opaque : Str → OidValue

pub record VarBind : Type 0 where
  pub oid : Oid
  pub value : Option OidValue

unfoldable pub set_value : VarBind → OidValue → VarBind
set_value bind value = record bind { value = some value }

-- `std::string(octet)`: the bytes before the first zero.
unfoldable pub c_string : List ℕ → Str
c_string [] = []
c_string (b ∷ bs) = let rest = c_string bs in if b == 0 then [] else b ∷ rest

-- What the model takes of the SNMP library.
pub record Library : Type 0 where
  pub printable : Oid → Str
  pub parse : Str → Result Oid ErrorType
  pub buffer : List ℕ → List ℕ
  pub print_value : Syntax → Str
  pub garbage : Oid

-- `*Oid::parse(o.get_printable())`
abbrev pub reparse : Library → Oid → Oid
reparse lib o = value_or (lib.parse (lib.printable o)) lib.garbage

unfoldable pub to_oid_value : Library → Syntax → OidValue
to_oid_value lib (int i) = integer32 i
to_oid_value lib (octets bytes) = octet_string (c_string (lib.buffer bytes))
to_oid_value lib (cntr32 i) = uinteger32 i
to_oid_value lib (gauge32 i) = uinteger32 i
to_oid_value lib (timeticks i) = time_ticks i
to_oid_value lib (cntr64 i) = counter64 i
to_oid_value lib (oid o) = oid_type (reparse lib o)
to_oid_value lib end_of_mib_view = opaque (lib.print_value end_of_mib_view)
to_oid_value lib other_syntax = opaque (lib.print_value other_syntax)

-- The variable that is made of a `Vb`.
abbrev pub var_bind : Library → Vb → VarBind
var_bind lib vb = record { oid = reparse lib vb.oid; value = some (to_oid_value lib vb.value) }

-- `createPdu`: a `Vb` for each identifier, made of its text; the PDU is the list of them.
unfoldable pub create_pdu : Library → List Oid → List Str
create_pdu lib oids = map lib.printable oids
