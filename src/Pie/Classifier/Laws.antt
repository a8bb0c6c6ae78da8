-- ===== src/Pie/Classifier/Laws.antt =====
-- What the rules offer for a grant, about `pie/classifier.py`.
use mcp_contract.Base.{
  ◌≡◌, ◌≢◌, ◌↔◌, ◌⊎◌, inl, inr, refl, sym, ◌∙◌, Bool, true, false, not, ◌&&◌, ◌||◌, List, [], ◌∷◌,
  ◌++◌, map, Option, none, some, if◌then◌else◌, is_empty, arith, In, All, All-intro, Bool-cases,
  Text, text_eq, nat_eq,
}
use mcp_contract.Models.{
  CapabilityId, fs_read, fs_write, inferred, needs_review, id_eq, status_eq, class_eq, Evidence,
  Capability, ToolIr,
}
use mcp_contract.Regex.{find_iter}
use mcp_contract.Regex.Matches.{IsMatch, find_iter-IsMatch}
use mcp_contract.Pie.Patterns.{Unicode, path_re}
use mcp_contract.Pie.Words.{dedupe_add, rstrip_dots, stripped, net_context, note_hit}
use mcp_contract.Pie.Net.Laws.{dedupe_add-All}
use mcp_contract.Pie.Classifier.{
  fs_class, is_path, add_paths, paths_in, read_evidence, write_evidence, fs_ids, direction_evidence,
  fs_status, fs_signal, classify_fs, flagged,
}

module _ (u : Unicode) (tool : ToolIr) where
  -- A path in the description outside of URLs, no bare root and no route template.
  abbrev pub PathLiteral : Text → Type 0
  PathLiteral v =
      (m rest : Text) × IsMatch (path_re u) (stripped u tool) m rest
      × (v ≡ rstrip_dots m)
      × (is_path u tool v rest ≡ true)

  abbrev IsPathMatch : Text × Text → Type 0
  IsPathMatch (m, rest) = IsMatch (path_re u) (stripped u tool) m rest

  add_paths-All :
      (paths : List Text) (evidence : List Evidence) (ms : List (Text × Text))
      → All PathLiteral paths
      → All IsPathMatch ms
      → All PathLiteral (add_paths u tool (paths, evidence) ms).0
  unfolding add_paths
  add_paths-All paths evidence [] a is = a
  add_paths-All paths evidence ((m, rest) ∷ ms) a (i, is) =
      elim (Bool-cases (is_path u tool (rstrip_dots m) rest)) [
        | inl path ↦ rw path (
            add_paths-All (dedupe_add paths (rstrip_dots m)) _ ms
              (dedupe_add-All PathLiteral paths (rstrip_dots m) a (λ _. (m, rest, i, refl, path)))
              is)
        | inr other ↦ rw other (add_paths-All paths evidence ms a is)
      ]

  paths_in-All : All PathLiteral (paths_in u tool).0
  unfolding paths_in
  paths_in-All = add_paths-All [] [] (find_iter (path_re u) (stripped u tool)) tt (
      All-intro IsPathMatch _
        (λ (m, rest) i. find_iter-IsMatch (path_re u) (stripped u tool) m rest i))

  -- An inferred signal for files: its values are path literals, at least one, its direction is
  -- evident, and nothing in the tool hints at the network.
  pub record IsFileGrant (c : Capability) : Type 0 where
    pub direction : (c.id ≡ fs_read) ⊎ (c.id ≡ fs_write)
    pub evident : direction_evidence u tool c.id ≢ []
    pub literal : All PathLiteral c.values
    pub some_path : c.values ≢ []
    pub offline : net_context u tool ≡ false

  -- The facts behind the status.
  inferred_facts :
      (paths reads writes net : Bool)
      → (if not paths && ((not reads || not writes) && not net) then inferred else needs_review)
        ≡ inferred
      → (paths ≡ false) × ((reads ≡ false) ⊎ (writes ≡ false)) × (net ≡ false)
  inferred_facts true reads writes net h = cc
  inferred_facts false true true net h = cc
  inferred_facts false true false true h = cc
  inferred_facts false true false false h = (refl, inr refl, refl)
  inferred_facts false false writes true h = cc
  inferred_facts false false writes false h = (refl, inl refl, refl)

  filled : {A : Type 0} (xs : List A) → is_empty xs ≡ false → xs ≢ []
  filled [] h = cc
  filled (x ∷ xs) h = λ e. cc

  -- Where some direction is known, only those known are signalled.
  one_known : {a b : Bool} → (a ≡ false) ⊎ (b ≡ false) → a ≡ true → b ≡ true → ⊥
  one_known k p q = ground arith

  abbrev Direction : Capability → Type 0
  Direction c =
      ((c.id ≡ fs_read) ⊎ (c.id ≡ fs_write))
      × (direction_evidence u tool c.id ≢ [])
      × (c.values ≡ (paths_in u tool).0)
      × (c.status ≡ fs_status u tool)

  only_read :
      (c : Capability)
      → is_empty (read_evidence u tool) ≡ false
      → In c (fs_signal u tool fs_read ∷ [])
      → Direction c
  only_read c r (inl same) = rw same (inl refl, filled (read_evidence u tool) r, refl, refl)
  only_read c r (inr i) = elim i [ ]

  only_write :
      (c : Capability)
      → is_empty (write_evidence u tool) ≡ false
      → In c (fs_signal u tool fs_write ∷ [])
      → Direction c
  only_write c w (inl same) = rw same (inr refl, filled (write_evidence u tool) w, refl, refl)
  only_write c w (inr i) = elim i [ ]

  signals_status :
      (c : Capability) (ids : List CapabilityId)
      → In c (map (fs_signal u tool) ids)
      → c.status ≡ fs_status u tool
  signals_status c [] i = elim i [ ]
  signals_status c (id ∷ ids) (inl same) = rw same refl
  signals_status c (id ∷ ids) (inr i) = signals_status c ids i

  known-Direction :
      (c : Capability)
      → (is_empty (read_evidence u tool) ≡ false) ⊎ (is_empty (write_evidence u tool) ≡ false)
      → In c (
          map (fs_signal u tool) (
            fs_ids u tool
              (not (is_empty (read_evidence u tool)))
              (not (is_empty (write_evidence u tool)))))
      → Direction c
  known-Direction c k i = elim (Bool-cases (is_empty (read_evidence u tool))) [
    | inl r ↦ elim (Bool-cases (is_empty (write_evidence u tool))) [
      | inl w ↦ absurd (one_known k r w)
      | inr w ↦ only_write c w (rw (r, w) at i)
    ]
    | inr r ↦ elim (Bool-cases (is_empty (write_evidence u tool))) [
      | inl w ↦ only_read c r (rw (r, w) at i)
      | inr w ↦ elim (rw (r, w) at i) [
        | inl same ↦ only_read c r (inl same)
        | inr j ↦ only_write c w j
      ]
    ]
  ]

  pub classify_fs-inferred :
      (c : Capability) → In c (classify_fs u tool) → c.status ≡ inferred → IsFileGrant c
  unfolding classify_fs
  classify_fs-inferred c i e = elim (Bool-cases (is_empty (fs_class u tool))) [
    | inl z ↦ absurd (rw z at i)
    | inr z ↦
        (let j = rw z at i in
          let (some_path, k, offline) = inferred_facts _ _ _ _ (sym (signals_status c _ j) ∙ e) in
          let (direction, evident, values, status) = known-Direction c k j in
          record {
            direction = direction;
            evident = evident;
            literal = rw values paths_in-All;
            some_path = rw values (filled (paths_in u tool).0 some_path);
            offline = offline;
          })
  ]

  pub flagged-review :
      (id : CapabilityId) (vs : List Text) (evidence : List Evidence) (c : Capability)
      → In c (flagged u tool id vs evidence)
      → (c.id ≡ id) × (c.status ≡ needs_review)
  flagged-review id vs [] c i = elim i [ ]
  flagged-review id vs (e ∷ es) c (inl same) = rw same (refl, refl)
  flagged-review id vs (e ∷ es) c (inr i) = elim i [ ]

  pub flagged-filled_iff :
      (id : CapabilityId) (vs : List Text) (evidence : List Evidence)
      → (flagged u tool id vs evidence ≢ []) ↔ (evidence ≢ [])
  flagged-filled_iff id vs [] = (λ h e. h refl, λ h e. h refl)
  flagged-filled_iff id vs (e ∷ es) = (λ h e. cc, λ h e. cc)

  pub notes-filled_iff :
      (a b : Option Text) (f g : Text → Evidence)
      → ((note_hit a f ++ note_hit b g) ≢ [])
        ↔ (((t : Text) × (a ≡ some t)) ⊎ ((t : Text) × (b ≡ some t)))
  notes-filled_iff none none f g = (λ h. absurd (h refl), λ h. ground arith)
  notes-filled_iff none (some t) f g = (λ h. inr (t, refl), λ h e. cc)
  notes-filled_iff (some t) b f g = (λ h. inl (t, refl), λ h e. cc)
