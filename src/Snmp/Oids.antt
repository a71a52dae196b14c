-- ===== src/Snmp/Oids.antt =====
-- core/core/net/snmp: the identifiers that Oid.h names, the texts of values (Oid.h) and of variables
-- (VarBind.h), and the numbers of SnmpDefs.h.
use cpp_grcp_testground.Prelude.{
  ℕ, Bool, not, ◌+◌, none, some, List, [], ◌∷◌, ◌++◌, map, Str, value_or,
}
use cpp_grcp_testground.Models.Time.{ℤ}
use cpp_grcp_testground.Snmp.Values.{
  Oid, OidValue, integer32, uinteger32, octet_string, oid_type, counter64, time_ticks, opaque,
  VarBind, Library,
}

-- The enumerators of `Oid::Type` with a number of their own.
pub data OidType : Type 0 where
  integer32_type uinteger32_type octet_string_type oid_value_type : OidType
  counter64_type time_ticks_type opaque_type : OidType

-- The type of a value of the variant.
abbrev pub type_of : OidValue → OidType
type_of (integer32 _) = integer32_type
type_of (uinteger32 _) = uinteger32_type
type_of (octet_string _) = octet_string_type
type_of (oid_type _) = oid_value_type
type_of (counter64 _) = counter64_type
type_of (time_ticks _) = time_ticks_type
type_of (opaque _) = opaque_type

-- The text of numbers below ten with points in between.
abbrev pub dotted : List ℕ → Str
dotted [] = []
dotted (n ∷ []) = (48 + n) ∷ []
dotted (n ∷ m ∷ ns) = (48 + n) ∷ 46 ∷ dotted (m ∷ ns)

-- `*parse(oidString)`
abbrev pub define_oid : Library → Str → Oid
define_oid lib text = value_or (lib.parse text) lib.garbage

abbrev pub system : Library → Oid
system lib = define_oid lib (dotted (1 ∷ 3 ∷ 6 ∷ 1 ∷ 2 ∷ 1 ∷ 1 ∷ []))

-- An identifier of the system group, by its number.
abbrev pub system_item : ℕ → Library → Oid
system_item n lib = define_oid lib (dotted (1 ∷ 3 ∷ 6 ∷ 1 ∷ 2 ∷ 1 ∷ 1 ∷ n ∷ 0 ∷ []))

abbrev pub sys_descr : Library → Oid
sys_descr = system_item 1

abbrev pub sys_up_time : Library → Oid
sys_up_time = system_item 3

abbrev pub sys_contact : Library → Oid
sys_contact = system_item 4

abbrev pub sys_name : Library → Oid
sys_name = system_item 5

abbrev pub sys_location : Library → Oid
sys_location = system_item 6

abbrev pub system_tree : Library → List Oid
system_tree lib =
    map (λ item. item lib) (sys_descr ∷ sys_up_time ∷ sys_contact ∷ sys_name ∷ sys_location ∷ [])

abbrev pub if_table : Library → Oid
if_table lib = define_oid lib (dotted (1 ∷ 3 ∷ 6 ∷ 1 ∷ 2 ∷ 1 ∷ 2 ∷ 2 ∷ []))

-- The SNMP library's comparisons of identifiers, and the operators that are made of them.
pub record OidOrder : Type 0 where
  pub same_oid : Oid → Oid → Bool
  pub less_oid : Oid → Oid → Bool

module _ (order : OidOrder) where
  unfoldable pub equal : Oid → Oid → Bool
  equal a b = order.same_oid a b

  unfoldable pub not_equal : Oid → Oid → Bool
  not_equal a b = not (order.same_oid a b)

  unfoldable pub less : Oid → Oid → Bool
  less a b = order.less_oid a b

  unfoldable pub greater : Oid → Oid → Bool
  greater a b = order.less_oid b a

  unfoldable pub less_equal : Oid → Oid → Bool
  less_equal a b = not (order.less_oid b a)

  unfoldable pub greater_equal : Oid → Oid → Bool
  greater_equal a b = not (order.less_oid a b)

-- How the formatting library writes numbers, and what the enumeration library calls a type.
pub record Writer : Type 0 where
  pub signed : ℤ → Str
  pub unsigned : ℕ → Str
  pub name_of : OidType → Str

module _ (lib : Library) (w : Writer) where
  -- What is written for the value itself; an identifier is written by the SNMP library.
  abbrev plain : OidValue → Str
  plain (integer32 v) = w.signed v
  plain (uinteger32 v) = w.unsigned v
  plain (octet_string v) = v
  plain (oid_type v) = lib.printable v
  plain (counter64 v) = w.unsigned v
  plain (time_ticks v) = w.unsigned v
  plain (opaque v) = v

  -- `Value::toString`: the value, and its type in parentheses.
  unfoldable pub value_to_string : OidValue → Str
  value_to_string v = plain v ++ (32 ∷ 40 ∷ w.name_of (type_of v) ++ (41 ∷ []))

  -- `VarBind::toString`: the identifier, and the value or `None`.
  unfoldable pub var_bind_to_string : VarBind → Str
  var_bind_to_string bind = elim bind.value [
    | none ↦ lib.printable bind.oid ++ (58 ∷ 32 ∷ 78 ∷ 111 ∷ 110 ∷ 101 ∷ [])
    | some v ↦ lib.printable bind.oid ++ (58 ∷ 32 ∷ value_to_string v)
  ]

-- `SnmpSecurity`, `SnmpAuthProtocol` and `SnmpPrivProtocol`.
pub data SnmpSecurity : Type 0 where
  no_auth_no_priv auth_no_priv auth_priv : SnmpSecurity

pub data SnmpAuthProtocol : Type 0 where
  no_auth hmac_md5 hmac_sha hmac128_sha224 hmac192_sha256 hmac256_sha384 hmac384_sha512 :
      SnmpAuthProtocol

pub data SnmpPrivProtocol : Type 0 where
  no_priv des des3 aes128 idea aes192 aes256 aes128_3des aes192_3des aes256_3des : SnmpPrivProtocol

-- `static_cast<int>` of the protocols.
abbrev pub auth_number : SnmpAuthProtocol → ℕ
auth_number no_auth = 1
auth_number hmac_md5 = 2
auth_number hmac_sha = 3
auth_number hmac128_sha224 = 4
auth_number hmac192_sha256 = 5
auth_number hmac256_sha384 = 6
auth_number hmac384_sha512 = 7

abbrev pub priv_number : SnmpPrivProtocol → ℕ
priv_number no_priv = 1
priv_number des = 2
priv_number des3 = 3
priv_number aes128 = 4
priv_number idea = 9
priv_number aes192 = 20
priv_number aes256 = 21
priv_number aes128_3des = 22
priv_number aes192_3des = 23
priv_number aes256_3des = 24

-- `SnmpUserAuthentication`
pub record SnmpUserAuthentication : Type 0 where
  pub username : Str
  pub auth_protocol : SnmpAuthProtocol
  pub auth_password : Str
  pub priv_protocol : SnmpPrivProtocol
  pub priv_password : Str

-- The users of the security model `U` of the SNMP library, which the client adds to and removes from.
unfoldable pub add_user_authentication {ℓ} :
    {U : Type ℓ} → (Str → ℕ → ℕ → Str → Str → U → U) → SnmpUserAuthentication → U → U
add_user_authentication add_usm_user user usm =
    add_usm_user user.username (auth_number user.auth_protocol) (priv_number user.priv_protocol)
      user.auth_password user.priv_password usm

unfoldable pub remove_user_authentication {ℓ} : {U : Type ℓ} → (Str → U → U) → Str → U → U
remove_user_authentication delete_usm_user user usm = delete_usm_user user usm
