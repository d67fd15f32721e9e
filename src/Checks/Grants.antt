-- ===== src/Checks/Grants.antt =====
-- checks.py: `apply_grants` as a pointwise operation.
use mathlib.Core.Path.{fun_ext}
use hermeskill.Common.{
  Option-cases, ℕ, String, ◌≡◌, refl, sym, ap, ◌∙◌, inl, inr, Bool, true, false, not, ◌||◌, ◌&&◌,
  Option, none, some, List, [], ◌∷◌, map, arith, any, keep_if, contains, string_eq,
}
use hermeskill.Policy.{SymptomType, value}
use hermeskill.Watcher.{Grant}
use hermeskill.Checks.{
  Verdict, finding_of, is_terminal, by_symptom, demote, demote_all, apply_grants,
}

abbrev pub symptom_of_verdict : Verdict → SymptomType
symptom_of_verdict v = (finding_of v).symptom

-- Some grant of the list names the verdict's symptom.
abbrev pub is_granted : List Grant → Verdict → Bool
is_granted gs v = any (λ g. contains g.symptoms (value (symptom_of_verdict v))) gs

abbrev is_warning : Verdict → Bool
is_warning (Verdict.warning f) = true
is_warning _ = false

abbrev grant_for : List Grant → Verdict → Option Grant
grant_for gs v = by_symptom gs (value (symptom_of_verdict v))

-- The verdict after the grants.
abbrev demoted : List Grant → Verdict → Verdict
demoted gs v = demote (grant_for gs v) v

demote-none : (v : Verdict) → demote none v ≡ v
unfolding demote
demote-none (Verdict.terminal f) = refl
demote-none _ = refl

demote_all-map : (vs : List Verdict) (gs : List Grant) → demote_all vs gs ≡ map (demoted gs) vs
unfolding demote_all
demote_all-map [] gs = refl
demote_all-map (v ∷ vs) gs = ap (◌∷◌ (demoted gs v)) (demote_all-map vs gs)

map-demoted-nil : (vs : List Verdict) → vs ≡ map (demoted []) vs
unfolding by_symptom
map-demoted-nil [] = refl
map-demoted-nil (v ∷ vs) = cc (demote-none v, map-demoted-nil vs)

-- The shortcut for an empty cache changes nothing.
apply_grants-map : (vs : List Verdict) (gs : List Grant) → apply_grants vs gs ≡ map (demoted gs) vs
unfolding apply_grants
apply_grants-map vs [] = map-demoted-nil vs
apply_grants-map vs (g ∷ gs) = demote_all-map vs (g ∷ gs)

abbrev is_some {ℓ} : {A : Type ℓ} → Option A → Bool
is_some none = false
is_some (some a) = true

by_symptom-any :
    (gs : List Grant) (name : String)
    → is_some (by_symptom gs name) ≡ any (λ g. contains g.symptoms name) gs
unfolding by_symptom
by_symptom-any [] name = refl
by_symptom-any (g ∷ gs) name = ground (arith, by_symptom-any gs name)

is_terminal-demote :
    (o : Option Grant) (v : Verdict) → is_terminal (demote o v) ≡ (is_terminal v && not (is_some o))
unfolding demote
is_terminal-demote none (Verdict.terminal f) = refl
is_terminal-demote none _ = refl
is_terminal-demote (some g) (Verdict.terminal f) = refl
is_terminal-demote (some g) _ = refl

kept :
    (gs : List Grant) (vs : List Verdict)
    → keep_if is_terminal (map (demoted gs) vs)
      ≡ keep_if (λ v. is_terminal v && not (is_granted gs v)) vs
kept gs [] = refl
kept gs (v ∷ vs) = elim (Option-cases (grant_for gs v)) [
  | inl e ↦
      ground (arith, e, demote-none v, by_symptom-any gs (value (symptom_of_verdict v)), kept gs vs)
  | inr (g, e) ↦ ground (
    arith,
    e,
    is_terminal-demote (some g) v,
    by_symptom-any gs (value (symptom_of_verdict v)),
    kept gs vs,
  )
]

-- The Terminals that are left are those whose symptom no grant names, in their order.
pub terminals-apply_grants :
    (vs : List Verdict) (gs : List Grant)
    → keep_if is_terminal (apply_grants vs gs)
      ≡ keep_if (λ v. is_terminal v && not (is_granted gs v)) vs
terminals-apply_grants vs gs = ap (keep_if is_terminal) (apply_grants-map vs gs) ∙ kept gs vs

symptom-demote :
    (o : Option Grant) (v : Verdict) → symptom_of_verdict (demote o v) ≡ symptom_of_verdict v
unfolding demote
symptom-demote none (Verdict.terminal f) = refl
symptom-demote none _ = refl
symptom-demote (some g) (Verdict.terminal f) = refl
symptom-demote (some g) _ = refl

demote_idem : (o : Option Grant) (v : Verdict) → demote o (demote o v) ≡ demote o v
unfolding demote
demote_idem none (Verdict.terminal f) = refl
demote_idem none _ = refl
demote_idem (some g) (Verdict.terminal f) = refl
demote_idem (some g) _ = refl

-- Every verdict keeps its place and its symptom.
pub symptoms-apply_grants :
    (vs : List Verdict) (gs : List Grant)
    → map symptom_of_verdict (apply_grants vs gs) ≡ map symptom_of_verdict vs
symptoms-apply_grants vs gs = ap (map symptom_of_verdict) (apply_grants-map vs gs) ∙ same vs
  where
    same :
        (ws : List Verdict)
        → map symptom_of_verdict (map (demoted gs) ws) ≡ map symptom_of_verdict ws
    same [] = refl
    same (w ∷ ws) = cc (symptom-demote (grant_for gs w) w, same ws)

demoted_idem : (gs : List Grant) (v : Verdict) → demoted gs (demoted gs v) ≡ demoted gs v
demoted_idem gs v =
    ap (λ s. demote (by_symptom gs (value s)) (demoted gs v)) (symptom-demote (grant_for gs v) v)
    ∙ demote_idem (grant_for gs v) v

-- A second application of the same grants changes nothing.
pub apply_grants_idem :
    (vs : List Verdict) (gs : List Grant)
    → apply_grants (apply_grants vs gs) gs ≡ apply_grants vs gs
apply_grants_idem vs gs =
    rw (apply_grants-map (apply_grants vs gs) gs, apply_grants-map vs gs) (again vs)
  where
    again : (ws : List Verdict) → map (demoted gs) (map (demoted gs) ws) ≡ map (demoted gs) ws
    again [] = refl
    again (w ∷ ws) = cc (demoted_idem gs w, again ws)

abbrev pub with_expiry : Option ℕ → Grant → Grant
with_expiry e g = record g { expires_at = e }

is_granted_expiry :
    (gs : List Grant) (e : Option ℕ) (v : Verdict)
    → is_granted (map (with_expiry e) gs) v ≡ is_granted gs v
is_granted_expiry [] e v = refl
is_granted_expiry (g ∷ gs) e v =
    ap (◌||◌ (contains g.symptoms (value (symptom_of_verdict v)))) (is_granted_expiry gs e v)

-- Giving all cached grants another expiry time, one for all of them, leaves the same Terminals.
pub terminals-apply_grants_expiry :
    (vs : List Verdict) (gs : List Grant) (e : Option ℕ)
    → keep_if is_terminal (apply_grants vs (map (with_expiry e) gs))
      ≡ keep_if is_terminal (apply_grants vs gs)
terminals-apply_grants_expiry vs gs e =
    terminals-apply_grants vs (map (with_expiry e) gs)
    ∙ ap (λ (f : Verdict → Bool). keep_if (λ v. is_terminal v && not (f v)) vs)
        (fun_ext (is_granted_expiry gs e))
    ∙ sym (terminals-apply_grants vs gs)
