-- ===== src/Discovery/Arp.antt =====
-- core/core/services: ArpScanner.h and ArpScanner.cpp, a scanner of which there is only its text.
use cpp_grcp_testground.Prelude.{Str, [], ◌∷◌}
use cpp_grcp_testground.Prelude.Map.{Map, insert}
use cpp_grcp_testground.Prelude.Strings.{codes, str_order}

-- The values of the JSON library that are written: texts, and objects of texts.
pub data Json : Type 0 where
  text : Str → Json
  texts : Map Str Str → Json

-- `serialize`; the JSON object is the argument, by default empty.
unfoldable pub serialize : Map Str Json → Map Str Json
serialize json = insert (codes "results") (texts ((codes "test", codes "answer") ∷ [])) json

-- `toString`, with the text that the JSON library writes.
unfoldable pub to_string : (Map Str Json → Str) → Str
to_string dump = dump (serialize [])
