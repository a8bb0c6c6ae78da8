-- ===== src/Tests/Containers.antt =====
-- The container of a policy: a run, and the laws at concrete inputs.
use mcp_contract.Base.{
  ◌≡◌, ◌≢◌, ◌↔◌, ◌⊎◌, refl, true, false, [], ◌∷◌, ◌++◌, map, none, some, txt, text_eq, nat_eq, ok,
}
use mcp_contract.Models.{fs_read, fs_write, inferred, id_eq, status_eq, class_eq, Policy, granted}
use mcp_contract.Proxy.Plan.{sort_texts, insert_text, deny}
use mcp_contract.Docker.{
  put_writable, put_readable, mount_all, values_of, mounts, find_mount, translate_policy_args,
  translate_network_args, drop_flag, without_network_flag, block,
}
use mcp_contract.Docker.Laws.{Opens, mounts_iff, Answered, block_iff}
use mcp_contract.Tests.Fixtures.{classification, capability, policy}

abbrev both : Policy
both = record policy {
  caps =
      capability fs_read inferred (txt "/data/" ∷ txt "/in" ∷ txt "rel" ∷ [])
      ∷ capability fs_write inferred (txt "/data" ∷ [])
      ∷ [];
}

mounts_test : mounts both ≡ (txt "/data", true) ∷ (txt "/in", false) ∷ []
unfolding classification mounts mount_all put_writable put_readable
mounts_test = refl

-- With no network granted, the flag of the policy is dropped and that of the plan is kept.
network_test :
    without_network_flag (translate_policy_args (record policy { caps = [] }) [])
      ++ translate_network_args (record { mode = deny; hosts = [] }) none
    ≡ map txt (
        "--rm" ∷ "-d" ∷ "--cap-drop" ∷ "ALL" ∷ "--security-opt" ∷ "no-new-privileges"
        ∷ "--pids-limit" ∷ "64" ∷ "--network" ∷ "none" ∷ [])
unfolding classification mounts mount_all sort_texts insert_text translate_policy_args
    translate_network_args drop_flag
network_test = refl

mounts_iff_example :
    ((find_mount (txt "/data") (mounts both) ≡ some true)
      ↔ Opens (txt "/data") (values_of (granted both fs_write)))
    × ((find_mount (txt "/data") (mounts both) ≢ none) ↔ (
        Opens (txt "/data") (values_of (granted both fs_write))
        ⊎ Opens (txt "/data") (values_of (granted both fs_read))))
mounts_iff_example = mounts_iff both (txt "/data")

block_iff_example :
    (block false (none ∷ some false ∷ []) ≡ ok tt)
    ↔ ((false ≡ true) ⊎ Answered 3 (none ∷ some false ∷ []) false)
block_iff_example = block_iff false (none ∷ some false ∷ [])
