-- ===== src/Cache/Watcher.antt =====
-- internal/cache/repositories.go: the repositories that are watched.
use gitstafette.Common.{
  String, ◌≡◌, refl, Bool, true, false, List, [], ◌∷◌, ◌++◌, ◌==◌, arith, member, if◌then◌else◌,
}

pub record RepositoryWatcher : Type 0 where
  pub repositories : List String

abbrev pub create_repository_watcher : RepositoryWatcher
create_repository_watcher = record { repositories = [] }

unfoldable pub add_repository : RepositoryWatcher → String → RepositoryWatcher
add_repository w repository_id = record { repositories = w.repositories ++ repository_id ∷ [] }

unfoldable pub watched_among : String → List String → Bool
watched_among repository_id [] = false
watched_among repository_id (value ∷ rest) =
    if value == repository_id then true else watched_among repository_id rest

unfoldable pub repository_is_watched : RepositoryWatcher → String → Bool
unfolding watched_among
repository_is_watched w repository_id = watched_among repository_id w.repositories

pub watched-eq-member :
    (w : RepositoryWatcher) (r : String) → repository_is_watched w r ≡ member r w.repositories
unfolding repository_is_watched
watched-eq-member w r = among r w.repositories
  where
    among : (x : String) (xs : List String) → watched_among x xs ≡ member x xs
    among x [] = refl
    among x (y ∷ xs) = ground (arith, among x xs)
