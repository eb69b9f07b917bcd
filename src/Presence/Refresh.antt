-- ===== src/Presence/Refresh.antt =====
-- The loops of src/core/presenceManager.js over a map that change or delete its entries.
use metrice.JsMap
use metrice.JsMap.Laws.{Distinct, get-eq_none}
use metrice.Presence.{refresh}
use metrice.Base.{
  true, false, ◌≡◌, refl, sym, ap, subst, ◌∙◌, inl, inr, Option, none, some, List, [], ◌∷◌, Str,
  str_eq, str_eq_iff, str_eq_inst, Bool-cases, Option-cases,
}

module _ {V : Type 0} (change : Str → V → Option V) where
  refresh_gone :
      (j : Str) (v : V) (m : List (Str × V))
      → change j v ≡ none
      → refresh change ((j, v) ∷ m) ≡ refresh change m
  unfolding refresh
  refresh_gone j v m h = rw (h, refresh) refl

  refresh_kept :
      (j : Str) (v w : V) (m : List (Str × V))
      → change j v ≡ some w
      → refresh change ((j, v) ∷ m) ≡ (j, w) ∷ refresh change m
  unfolding refresh
  refresh_kept j v w m h = rw (h, refresh) refl

  has-refresh :
      (k : Str) (m : List (Str × V))
      → JsMap.has k m ≡ false
      → JsMap.has k (refresh change m) ≡ false
  unfolding JsMap.has
  has-refresh k [] h = unfold refresh in refl
  has-refresh k ((j, v) ∷ m) h = elim (Bool-cases (str_eq j k)) [
    | inl same ↦ let found : true ≡ false = rw same at h in absurd (cc found)
    | inr other ↦
        let rest = has-refresh k m (rw other at h) in
        elim (Option-cases (change j v)) [
          | inl gone ↦ rw (refresh_gone j v m gone) rest
          | inr (w, kept) ↦ rw (refresh_kept j v w m kept, other) rest
        ]
  ]

  pub refresh-Distinct : (m : List (Str × V)) → Distinct m → Distinct (refresh change m)
  refresh-Distinct [] d = unfold refresh in tt
  refresh-Distinct ((j, v) ∷ m) (fresh, d) = elim (Option-cases (change j v)) [
    | inl gone ↦ subst Distinct (sym (refresh_gone j v m gone)) (refresh-Distinct m d)
    | inr (w, kept) ↦
        subst Distinct (sym (refresh_kept j v w m kept))
          (has-refresh j m fresh, refresh-Distinct m d)
  ]

  -- What the loop makes of a map is, key by key, what it makes of the value, if no key stands twice.
  pub get-refresh :
      (k : Str) (m : List (Str × V))
      → Distinct m
      → JsMap.get k (refresh change m) ≡ elim (JsMap.get k m) [ none ↦ none | some v ↦ change k v ]
  unfolding JsMap.get
  get-refresh k [] d = unfold refresh in refl
  get-refresh k ((j, v) ∷ m) (fresh, d) = elim (Bool-cases (str_eq j k)) [
    | inl same ↦
        let key = (str_eq_iff j k).0 same in
        elim (Option-cases (change j v)) [
          | inl gone ↦
              rw (refresh_gone j v m gone, same)
                (get-eq_none k (refresh change m) (has-refresh k m (rw key at fresh))
                  ∙ (sym gone ∙ ap (λ t. change t v) key))
          | inr (w, kept) ↦
              rw (refresh_kept j v w m kept, same) (sym kept ∙ ap (λ t. change t v) key)
        ]
    | inr other ↦ elim (Option-cases (change j v)) [
      | inl gone ↦ rw (refresh_gone j v m gone, other) (get-refresh k m d)
      | inr (w, kept) ↦ rw (refresh_kept j v w m kept, other) (get-refresh k m d)
    ]
  ]
