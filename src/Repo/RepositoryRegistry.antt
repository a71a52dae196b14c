-- ===== src/Repo/RepositoryRegistry.antt =====
-- core/core/repo/RepositoryRegistry.h: one repository for each interface type.
--
-- The map by type is a function; a repository is known by its number.
use cpp_grcp_testground.Prelude.{
  ℕ, ◌≡◌, Bool, true, false, Option, ◌&&◌, not, Option-cases, inl, inr, none, some, if◌then◌else◌,
  ErrorType, Result, ok, err, arith, ◌==◌,
}
use cpp_grcp_testground.Prelude.ErrorType.{already_exists, not_found}

-- `std::type_index` and `std::shared_ptr<IRepository>`
abbrev pub TypeIndex : Type 0
TypeIndex = ℕ

abbrev pub RepoPtr : Type 0
RepoPtr = ℕ

-- `m_repos`
abbrev pub Repos : Type 0
Repos = TypeIndex → Option RepoPtr

unfoldable pub has : TypeIndex → Repos → Bool
has type repos = elim (repos type) [ none ↦ false | some _ ↦ true ]

-- `emplace` keeps an entry that is there.
abbrev emplace : TypeIndex → RepoPtr → Repos → Repos
emplace type repo repos =
    if has type repos then repos else (λ other. if other == type then some repo else repos other)

-- `get`; `at` is called only on a type that is there.
unfoldable pub get : TypeIndex → Repos → Result RepoPtr ErrorType
get type repos = elim (repos type) [ none ↦ err not_found | some repo ↦ ok repo ]

-- `registerRepository`, of a pointer or of arguments from which a repository is made.
unfoldable pub register_repository : TypeIndex → RepoPtr → Repos → Result RepoPtr ErrorType × Repos
register_repository type repo repos =
    if has type repos then (err already_exists, repos) else (ok repo, emplace type repo repos)

-- `injectRepository<Iface>()`: `with` and `registerRepository` of what it returns.
unfoldable pub inject_repository : TypeIndex → RepoPtr → Repos → Result RepoPtr ErrorType × Repos
inject_repository iface repo repos =
    if has iface repos then (err already_exists, repos) else (ok repo, emplace iface repo repos)

-- After a registration the type leads to one repository: the one it led to before, the registration
-- being refused, or else the new one. A second registration is refused and changes nothing, and no
-- other type is affected.
pub register-get :
    (type other : TypeIndex) (repo second : RepoPtr) (repos : Repos)
    → let (answer, repos') = register_repository type repo repos in
      (get type repos' ≡ (if has type repos then get type repos else ok repo))
      × (answer ≡ (if has type repos then err already_exists else ok repo))
      × (register_repository type second repos' ≡ (err already_exists, repos'))
      × (inject_repository type second repos' ≡ (err already_exists, repos'))
      × (repos' other ≡ (if other == type && not (has type repos) then some repo else repos other))
unfolding get register_repository inject_repository has
register-get type other repo second repos = elim (Option-cases (repos type)) [
  | inl absent ↦ ground arith
  | inr (first, there) ↦ ground arith
]
