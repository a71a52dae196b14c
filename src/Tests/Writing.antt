-- ===== src/Tests/Writing.antt =====
-- The names of functions in the log, and the JSON of devices.
use cpp_grcp_testground.Prelude.{◌≡◌, refl, [], ◌∷◌, ◌++◌, Str, arith}
use cpp_grcp_testground.Util.Logger.{format, find}
use cpp_grcp_testground.Util.Logger.Shortening.{format-arguments}
use cpp_grcp_testground.Models.Time.{pos}
use cpp_grcp_testground.Models.Device.{Device, new_device}
use cpp_grcp_testground.Models.Device.Serializing.{serialize-injective}
use cpp_grcp_testground.Net.Scan.Laws.{upper_hex}
use cpp_grcp_testground.Tests.Data.{
  decimal, decimal-Rendering, host, host-IsValid, mac, mac-IsValid,
}

-- `f<` with twenty times `a`, and `>b`.
abbrev arguments : Str
arguments =
    97 ∷ 97 ∷ 97 ∷ 97 ∷ 97 ∷ 97 ∷ 97 ∷ 97 ∷ 97 ∷ 97 ∷ 97 ∷ 97 ∷ 97 ∷ 97 ∷ 97 ∷ 97 ∷ 97 ∷ 97 ∷ 97
    ∷ 97 ∷ []

-- The closing bracket is lost: `f<...>b`, where the bracket is that of the ellipsis.
format-arguments_example :
    format ((102 ∷ []) ++ (60 ∷ arguments ++ (62 ∷ 98 ∷ [])))
    ≡ 102 ∷ 60 ∷ 46 ∷ 46 ∷ 46 ∷ 62 ∷ 98 ∷ []
unfolding find
format-arguments_example =
    format-arguments ((102 ∷ []) ++ (60 ∷ arguments ++ (62 ∷ 98 ∷ []))) (102 ∷ []) arguments
      (98 ∷ []) refl refl (ground arith) (ground arith) (omega arith)

abbrev device : Device
device = new_device (pos 4) host mac

serialize-injective_example : host ≡ host
unfolding new_device
serialize-injective_example =
    (serialize-injective decimal upper_hex device device [] decimal-Rendering (λ n h. refl)
      host-IsValid host-IsValid mac-IsValid mac-IsValid refl).0
