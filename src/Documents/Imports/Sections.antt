-- ===== src/Documents/Imports/Sections.antt =====
-- The sections of a foreign document, about `_import_foreign` of `policy/io.py`.
use mcp_contract.Base.{
  ◌≡◌, ◌≢◌, ◌↔◌, ◌⊎◌, inl, inr, refl, sym, ap, ◌∙◌, List, [], ◌∷◌, map, Option, none, some, subst,
  Bool-cases, Text, txt, text_eq, nat_eq, Value, null, str, arr, obj, Items, nil, cons, Fields, end,
  field, items, keys, get, get_or, truthy, Result, ok, err, value_error, ok-inj, bind-ok, iterate,
  Builtins,
}
use mcp_contract.Models.{id_eq, status_eq, class_eq}
use mcp_contract.Base.{or_value, chars}
use mcp_contract.Documents.Imports.{as_dict, grants, imported_permissions}
use mcp_contract.Documents.Imports.Loops.{Some}

-- The grants of a section: the objects of the list `allow` of the section of `permissions`.
abbrev pub Allows : Fields → Text → (Value → Type 0) → Type 0
Allows doc section P =
    (permissions : Fields) × (lists : Fields) × (vs : Items) × (get (txt "permissions") doc
      ≡ some (obj permissions))
    × (get section permissions ≡ some (obj lists))
    × (get (txt "allow") lists ≡ some (arr vs))
    × Some P (items vs)

or_dict-cases :
    (v : Value) (fs : Fields) → or_value v (obj end) ≡ obj fs → (v ≡ obj fs) ⊎ (fs ≡ end)
or_dict-cases v fs h = elim (Bool-cases (truthy v)) [
  | inl y ↦ inl (rw y at h)
  | inr n ↦ inr (let e : obj end ≡ obj fs = rw n at h in cc)
]

as_dict-ok : (v : Value) (fs : Fields) → as_dict v ≡ ok fs → v ≡ obj fs
as_dict-ok (obj gs) fs h = cc
as_dict-ok _ fs h = cc

imported_permissions-ok :
    (py : Builtins) (v : Value) (fs : Fields)
    → imported_permissions py v ≡ ok fs
    → or_value v (obj end) ≡ obj fs
imported_permissions-ok py v fs h = go (or_value v (obj end)) h
  where
    go : (w : Value) → (elim w [ obj gs ↦ Result.ok gs | _ ↦ err value_error ]) ≡ ok fs → w ≡ obj fs
    go (obj gs) k = cc
    go _ k = cc

get_or-some :
    (k : Text) (gs : Fields) (v : Value) → v ≢ null → get_or k null gs ≡ v → get k gs ≡ some v
get_or-some k gs v filled h = go (get k gs) refl
  where
    go : (o : Option Value) → get k gs ≡ o → get k gs ≡ some v
    go none e = absurd (filled (sym (rw (e, get_or) at h)))
    go (some w) e = (let same : w ≡ v = rw (e, get_or) at h in e ∙ ap some same)

or_dict-obj : (gs fs : Fields) → or_value (obj gs) (obj end) ≡ obj fs → gs ≡ fs
or_dict-obj end fs h = cc
or_dict-obj (field k v gs) fs h = cc

-- The mapping at a key, where what is missing or empty counts as empty.
dict_at :
    (k : Text) (gs fs : Fields)
    → or_value (get_or k null gs) (obj end) ≡ obj fs
    → ((get k gs ≡ some (obj fs)) ⊎ (fs ≡ end))
      × ((hs : Fields) → get k gs ≡ some (obj hs) → hs ≡ fs)
dict_at k gs fs h = (
  elim (or_dict-cases (get_or k null gs) fs h) [
    | inl e ↦ inl (get_or-some k gs (obj fs) (λ n. cc) e)
    | inr e ↦ inr e
  ],
  λ hs e. or_dict-obj hs fs (rw (e, get_or) at h),
)

module _ (P : Value → Type 0) (only : (v : Value) → P v → (fs : Fields) × (v ≡ obj fs)) where
  no_texts : (ts : List Text) → ¬ (Some P (map str ts))
  no_texts [] x = elim x [ ]
  no_texts (t ∷ ts) (inl p) = (let (fs, e) = only (str t) p in cc)
  no_texts (t ∷ ts) (inr x) = no_texts ts x

  no_chars : (s : Text) → ¬ (Some P (chars s))
  no_chars [] x = elim x [ ]
  no_chars (c ∷ s) (inl p) = (let (fs, e) = only (str (c ∷ [])) p in cc)
  no_chars (c ∷ s) (inr x) = no_chars s x

  iterate-Some :
      (v : Value) (vs : List Value)
      → iterate v ≡ ok vs
      → Some P vs
      → (ws : Items) × (v ≡ arr ws) × Some P (items ws)
  iterate-Some (arr ws) vs h x = (ws, refl, subst (Some P) (sym (ok-inj h)) x)
  iterate-Some (str s) vs h x = absurd (no_chars s (subst (Some P) (sym (ok-inj h)) x))
  iterate-Some (obj fs) vs h x = absurd (no_texts (keys fs) (subst (Some P) (sym (ok-inj h)) x))
  iterate-Some _ vs h x = cc

  iterate-items :
      (ws : Items) (vs : List Value)
      → iterate (or_value (arr ws) (arr nil)) ≡ ok vs
      → Some P (items ws)
      → Some P vs
  iterate-items nil vs h x = elim x [ ]
  iterate-items (cons w ws) vs h x = subst (Some P) (ok-inj h) x

  iterate-list :
      (v : Value) (vs : List Value)
      → iterate (or_value v (arr nil)) ≡ ok vs
      → Some P vs
      → (ws : Items) × (v ≡ arr ws) × Some P (items ws)
  iterate-list v vs h x = elim (Bool-cases (truthy v)) [
    | inl y ↦ iterate-Some v vs (rw y at h) x
    | inr n ↦ (let e : ok [] ≡ ok vs = rw n at h in absurd (subst (Some P) (sym (ok-inj e)) x))
  ]

  -- The grants that the code reads of a section are those of the section.
  pub grants-Allows :
      (py : Builtins) (doc permissions : Fields) (section : Text) (vs : List Value)
      → imported_permissions py (get_or (txt "permissions") null doc) ≡ ok permissions
      → grants section permissions ≡ ok vs
      → Some P vs ↔ Allows doc section P
  unfolding grants
  grants-Allows py doc permissions section vs p h =
      let (given, only_given) =
        dict_at (txt "permissions") doc permissions
          (imported_permissions-ok py (get_or (txt "permissions") null doc) permissions p) in
      let (lists, a, b) =
        bind-ok (as_dict (or_value (get_or section null permissions) (obj end))) _ vs h in
      let (listed, only_listed) =
        dict_at section permissions lists
          (as_dict-ok (or_value (get_or section null permissions) (obj end)) lists a) in
      (
        λ x.
            let (ws, e, y) = iterate-list (get_or (txt "allow") null lists) vs b x in
            let allow = get_or-some (txt "allow") lists (arr ws) (λ n. cc) e in
            elim listed [
              | inr none_listed ↦
                  (let q : get (txt "allow") end ≡ some (arr ws) = rw none_listed at allow in cc)
              | inl l ↦ elim given [
                | inr none_given ↦
                    (let q : get section end ≡ some (obj lists) = rw none_given at l in cc)
                | inl g ↦ (permissions, lists, ws, g, l, allow, y)
              ]
            ],
        λ (permissions', lists', ws, g, l, allow, y).
            let l' : get section permissions ≡ some (obj lists') =
              rw (only_given permissions' g) at l in
            let allow' : get (txt "allow") lists ≡ some (arr ws) =
              rw (only_listed lists' l') at allow in
            iterate-items ws vs (rw (allow', get_or) at b) y,
      )
