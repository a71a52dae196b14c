-- ===== src/Async/Registry.antt =====
-- core/core/util/async/TaskContext.h: the registry of task contexts, by name.
--
-- A context is known by its number; `next` is that of the next one that is created. The mutex of the
-- registry is held for the whole of each operation.
use cpp_grcp_testground.Prelude.{
  ℕ, suc, ◌≡◌, Option, none, some, [], ◌∷◌, if◌then◌else◌, Str, arith, Option-cases, inl, inr,
}
use cpp_grcp_testground.Prelude.Map.{
  Map, lookup, has, insert, lookup-insert, lookup-insert_self, same,
}
use cpp_grcp_testground.Prelude.Strings.{str_order, str_same-eq}

pub record TaskContextRegistry : Type 0 where
  pub registry : Map Str ℕ
  pub next : ℕ

unfoldable pub create_and_start : Str → TaskContextRegistry → ℕ × TaskContextRegistry
create_and_start name r =
    (r.next, record { registry = insert name r.next r.registry; next = suc r.next })

abbrev use_or_create : Str → Option ℕ → TaskContextRegistry → ℕ × TaskContextRegistry
use_or_create name (some context) r = (context, r)
use_or_create name none r = create_and_start name r

unfoldable pub register_task_context : Str → TaskContextRegistry → ℕ × TaskContextRegistry
register_task_context name r = use_or_create name (lookup name r.registry) r

abbrev pub default_name : Str
default_name = b'd' ∷ b'e' ∷ b'f' ∷ b'a' ∷ b'u' ∷ b'l' ∷ b't' ∷ []

-- `none` is the exception of `map::at`.
unfoldable pub get_default : TaskContextRegistry → Option ℕ
get_default r = lookup default_name r.registry

abbrev or_else : Option ℕ → Option ℕ → Option ℕ
or_else (some context) second = some context
or_else none second = second

-- `none` is the null pointer.
unfoldable pub get_or_default : Str → Str → TaskContextRegistry → Option ℕ
get_or_default name fallback r = or_else (lookup name r.registry) (lookup fallback r.registry)

-- To register a name again gives the context that it has and changes nothing; other names keep what
-- they have. Afterwards the name leads to that context, whatever the fallback, and every name that
-- has none falls back on it.
pub register-get_or_default :
    (name other : Str) (r : TaskContextRegistry)
    → let (context, r') = register_task_context name r in
      (register_task_context name r' ≡ (context, r'))
      × (get_or_default name other r' ≡ some context)
      × (lookup other r'.registry
          ≡ (if same other name then some context else lookup other r.registry))
      × (get_or_default other name r'
          ≡ (if has other r'.registry then lookup other r'.registry else some context))
unfolding register_task_context get_or_default has create_and_start
register-get_or_default name other r = elim (Option-cases (lookup name r.registry)) [
  | inl absent ↦
      ground (
        arith,
        lookup-insert_self name r.next r.registry,
        lookup-insert other name r.next r.registry,
      )
  | inr (first, there) ↦ ground (arith, str_same-eq other name)
]
