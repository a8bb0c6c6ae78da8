-- ===== src/Bcm/Diff/Paths.antt =====
-- What `path_matches` accepts, for absolute paths and prefixes.
use mcp_contract.Base.{◌≡◌, ◌≢◌, ◌⊎◌, List, [], ◌∷◌, ◌++◌, Text, txt, text_eq, nat_eq}
use mcp_contract.Posix.{components}
use mcp_contract.Posix.Under.{Extends}

-- What one round accepts, by how the normalized texts are spelled.
abbrev Spelled : Text → Text → Type 0
Spelled p q =
    (p ≡ q)
    ⊎ ((q ≡ txt "/") × ((r : Text) × (p ≡ txt "/" ++ r)))
    ⊎ ((q ≢ txt "/") × ((r : Text) × (p ≡ (q ++ txt "/") ++ r)))

-- An absolute path lies under an absolute prefix when the components that are left of it, once
-- "." and ".." are resolved, begin with the prefix's.
abbrev pub LiesUnder : Text → Text → Type 0
LiesUnder path prefix = Extends (components prefix) (components path)

-- The first prefix of the list under which the path lies, or a proof that there is none.
abbrev pub LiesUnderSome : Text → List Text → Type 0
LiesUnderSome path [] = ⊥
LiesUnderSome path (prefix ∷ prefixes) = LiesUnder path prefix ⊎ LiesUnderSome path prefixes
