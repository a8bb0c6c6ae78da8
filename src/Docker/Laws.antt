-- ===== src/Docker/Laws.antt =====
-- What a container may touch, and what the adapter believes of it, about `ral/docker.py`.
use mcp_contract.Base.{
  ℕ, zero, suc, ◌≡◌, ◌≢◌, ◌↔◌, ◌⊎◌, inl, inr, refl, ap, Bool, true, false, List, [], ◌∷◌, Option,
  none, some, ◌==◌, if◌then◌else◌, arith, In, subst, Text, txt, text_eq, nat_eq, starts_with, ok,
  Result-cases,
}
use mcp_contract.Models.{fs_read, fs_write, id_eq, status_eq, class_eq, Policy, granted}
use mcp_contract.Posix.{normpath}
use mcp_contract.Docker.{
  Mounts, put_writable, put_readable, mount_all, values_of, mounts, find_mount, running, block,
}

-- Some value of the list opens the path, which is absolute.
abbrev pub Opens : Text → List Text → Type 0
Opens q vs = (v : Text) × In v vs × (normpath v ≡ q) × (starts_with q (txt "/") ≡ true)

find-put_writable :
    (q path : Text) (ms : Mounts)
    → find_mount q (put_writable path ms) ≡ (if q == path then some true else find_mount q ms)
unfolding put_writable
find-put_writable q path [] = refl
find-put_writable q path ((p, m) ∷ ms) = ground (arith, find-put_writable q path ms)

abbrev kept_or : Option Bool → Option Bool
kept_or none = some false
kept_or (some m) = some m

find-put_readable :
    (q path : Text) (ms : Mounts)
    → find_mount q (put_readable path ms)
      ≡ (if q == path then kept_or (find_mount q ms) else find_mount q ms)
unfolding put_readable
find-put_readable q path [] = refl
find-put_readable q path ((p, m) ∷ ms) = ground (arith, find-put_readable q path ms)

Opens-cons :
    (q v : Text) (vs : List Text)
    → Opens q (v ∷ vs) ↔ (((normpath v ≡ q) × (starts_with q (txt "/") ≡ true)) ⊎ Opens q vs)
Opens-cons q v vs = (
  λ (w, i, e, s). elim i [
    | inl same ↦ inl (subst (λ w. normpath w ≡ q) same e, s)
    | inr j ↦ inr (w, j, e, s)
  ],
  λ o. elim o [ inl (e, s) ↦ (v, inl refl, e, s) | inr (w, j, e, s) ↦ (w, inr j, e, s) ],
)

writable-step :
    (q v : Text) (ms : Mounts)
    → (find_mount q
          (if starts_with (normpath v) (txt "/") then put_writable (normpath v) ms else ms)
        ≡ some true)
      ↔ (((normpath v ≡ q) × (starts_with q (txt "/") ≡ true)) ⊎ (find_mount q ms ≡ some true))
writable-step q v ms = ground (arith, find-put_writable q (normpath v) ms)

mount_all-writable :
    (q : Text) (ms : Mounts) (vs : List Text)
    → (find_mount q (mount_all put_writable ms vs) ≡ some true)
      ↔ (Opens q vs ⊎ (find_mount q ms ≡ some true))
unfolding mount_all
mount_all-writable q ms [] = (λ h. inr h, λ o. elim o [ inl (v, i, e, s) ↦ elim i [ ] | inr h ↦ h ])
mount_all-writable q ms (v ∷ vs) = ground (
  arith,
  mount_all-writable q
      (if starts_with (normpath v) (txt "/") then put_writable (normpath v) ms else ms) vs,
  writable-step q v ms,
  Opens-cons q v vs,
)

-- The daemon's answer: what the first attempt that it answers says.
abbrev pub Answered : ℕ → List (Option Bool) → Bool → Type 0
Answered zero answers b = ⊥
Answered (suc n) [] b = ⊥
Answered (suc n) (some a ∷ answers) b = a ≡ b
Answered (suc n) (none ∷ answers) b = Answered n answers b

running_iff :
    (n : ℕ) (answers : List (Option Bool)) (b : Bool)
    → (running n answers ≡ ok b) ↔ Answered n answers b
unfolding running
running_iff zero answers b = (λ h. cc, λ a. elim a [ ])
running_iff (suc n) [] b = (λ h. cc, λ a. elim a [ ])
running_iff (suc n) (some a ∷ answers) b = (λ h. cc, λ e. ap ok e)
running_iff (suc n) (none ∷ answers) b = running_iff n answers b

-- An action is blocked without an error exactly where the container is killed, or the daemon, asked
-- three times at most, first answers that it is not running.
pub block_iff :
    (killed : Bool) (answers : List (Option Bool))
    → (block killed answers ≡ ok tt) ↔ ((killed ≡ true) ⊎ Answered 3 answers false)
unfolding block
block_iff true answers = (λ h. inl refl, λ o. refl)
block_iff false answers = elim (Result-cases (running 3 answers)) [
  | inl (true, e) ↦
      rw e (λ h. cc, λ o. elim o [ inl k ↦ cc | inr a ↦ cc (e, (running_iff 3 answers false).1 a) ])
  | inl (false, e) ↦ rw e (λ h. inr ((running_iff 3 answers false).0 e), λ o. refl)
  | inr (x, e) ↦
      rw e (λ h. cc, λ o. elim o [ inl k ↦ cc | inr a ↦ cc (e, (running_iff 3 answers false).1 a) ])
]

writable-step_mounted :
    (q v : Text) (ms : Mounts)
    → (find_mount q
          (if starts_with (normpath v) (txt "/") then put_writable (normpath v) ms else ms)
        ≢ none)
      ↔ (((normpath v ≡ q) × (starts_with q (txt "/") ≡ true)) ⊎ (find_mount q ms ≢ none))
writable-step_mounted q v ms = ground (arith, find-put_writable q (normpath v) ms)

mount_all-writable_mounted :
    (q : Text) (ms : Mounts) (vs : List Text)
    → (find_mount q (mount_all put_writable ms vs) ≢ none) ↔ (Opens q vs ⊎ (find_mount q ms ≢ none))
unfolding mount_all
mount_all-writable_mounted q ms [] =
    (λ h. inr h, λ o. elim o [ inl (v, i, e, s) ↦ elim i [ ] | inr h ↦ h ])
mount_all-writable_mounted q ms (v ∷ vs) = ground (
  arith,
  mount_all-writable_mounted q
      (if starts_with (normpath v) (txt "/") then put_writable (normpath v) ms else ms) vs,
  writable-step_mounted q v ms,
  Opens-cons q v vs,
)

kept_or_cases : (o : Option Bool) → ((kept_or o ≡ some true) ↔ (o ≡ some true)) × (kept_or o ≢ none)
kept_or_cases none = (ground arith, λ e. cc)
kept_or_cases (some m) = ((λ h. h, λ h. h), λ e. cc)

readable-step :
    (q v : Text) (ms : Mounts)
    → let ms' = if starts_with (normpath v) (txt "/") then put_readable (normpath v) ms else ms in
      ((find_mount q ms' ≡ some true) ↔ (find_mount q ms ≡ some true))
      × ((find_mount q ms' ≢ none)
          ↔ (((normpath v ≡ q) × (starts_with q (txt "/") ≡ true)) ⊎ (find_mount q ms ≢ none)))
readable-step q v ms =
    ground (arith, find-put_readable q (normpath v) ms, kept_or_cases (find_mount q ms))

mount_all-readable :
    (q : Text) (ms : Mounts) (vs : List Text)
    → ((find_mount q (mount_all put_readable ms vs) ≡ some true) ↔ (find_mount q ms ≡ some true))
      × ((find_mount q (mount_all put_readable ms vs) ≢ none)
          ↔ (Opens q vs ⊎ (find_mount q ms ≢ none)))
unfolding mount_all
mount_all-readable q ms [] =
    ((λ h. h, λ h. h), (λ h. inr h, λ o. elim o [ inl (v, i, e, s) ↦ elim i [ ] | inr h ↦ h ]))
mount_all-readable q ms (v ∷ vs) = ground (
  arith,
  mount_all-readable q
      (if starts_with (normpath v) (txt "/") then put_readable (normpath v) ms else ms) vs,
  readable-step q v ms,
  Opens-cons q v vs,
)

-- A path is mounted writable exactly where a granted fs.write value names it, and mounted at all
-- exactly where a granted value of fs.write or fs.read does; only absolute paths are.
pub mounts_iff :
    (policy : Policy) (q : Text)
    → ((find_mount q (mounts policy) ≡ some true) ↔ Opens q (values_of (granted policy fs_write)))
      × ((find_mount q (mounts policy) ≢ none) ↔ (
          Opens q (values_of (granted policy fs_write))
          ⊎ Opens q (values_of (granted policy fs_read))))
unfolding mounts
mounts_iff policy q =
    let writes = values_of (granted policy fs_write) in
    let ms = mount_all put_writable [] writes in
    ground (
      arith,
      mount_all-readable q ms (values_of (granted policy fs_read)),
      mount_all-writable q [] writes,
      mount_all-writable_mounted q [] writes,
    )
