-- ===== src/Config/Overrides/Laws.antt =====
-- What the overrides change and what they report.
use eebus_ha_bridge.Prelude.{
  List, [], ◌∷◌, ◌++◌, none, some, Result, ok, err, ◌≡◌, refl, Option, sym, ap, ◌⊎◌, inl, inr,
  subst, >>=-eq-ok,
}
use mathlib.Core.List.{append-nil, append_assoc}
use eebus_ha_bridge.Store.{or_zero}
use eebus_ha_bridge.Ski.{Text}
use eebus_ha_bridge.Config.{Config, EnvKey, ConfigError, Host}
use eebus_ha_bridge.Config.Overrides.{Override, run_override, run_overrides, note_key}

pub keys_of : List Override → List EnvKey
keys_of [] = []
keys_of (o ∷ l) = o.key ∷ keys_of l

-- The variables of a list that are set, in its order.
pub set_keys : Host → List Override → List EnvKey
set_keys host [] = []
set_keys host (o ∷ l) = elim (host.lookup_env o.key) [
  | none ↦ set_keys host l
  | some _ ↦ o.key ∷ set_keys host l
]

-- A setter keeps a predicate, whatever its variable says.
abbrev pub Keeps : (Config → Type 0) → Override → Type 0
Keeps P o = (v : Text) (cfg cfg' : Config) → P cfg → o.set v cfg ≡ ok cfg' → P cfg'

note_key-eq-ok :
    (applied : List EnvKey) (r : Result ConfigError Config) {s : Config × List EnvKey}
    → note_key applied r ≡ ok s
    → (r ≡ ok s.0) × (s.1 ≡ applied)
note_key-eq-ok applied (ok cfg) h = (cc, cc)
note_key-eq-ok applied (err e) h = (cc, cc)

-- What a step that does not fail has done.
IsDone : Host → Override → Config → List EnvKey → Config × List EnvKey → Type 0
IsDone host o cfg applied s =
    ((host.lookup_env o.key ≡ none) × (s ≡ (cfg, applied)))
    ⊎ ((v : Text) × (host.lookup_env o.key ≡ some v)
        × (o.set v cfg ≡ ok s.0)
        × (s.1 ≡ applied ++ o.key ∷ []))

run_override-eq-ok :
    (host : Host) (o : Override) (cfg : Config) (applied : List EnvKey) (u : Option Text)
    {s : Config × List EnvKey}
    → host.lookup_env o.key ≡ u
    → run_override host o cfg applied ≡ ok s
    → IsDone host o cfg applied s
unfolding run_override IsDone
run_override-eq-ok host o cfg applied none {s} e h =
    let h' : ◌≡◌ {A = Result (List EnvKey × ConfigError) (Config × List EnvKey)} (ok (cfg, applied))
        (ok s) =
      rw (← h, e, run_override) refl in
    inl (e, cc)
run_override-eq-ok host o cfg applied (some v) {s} e h =
    let h' : note_key (applied ++ o.key ∷ []) (o.set v cfg) ≡ ok s =
      rw (← h, e, run_override) refl in
    let (set, keys) = note_key-eq-ok _ (o.set v cfg) h' in inr (v, e, set, keys)

infixr 5 ◌▸◌
pub data AllKeep (P : Config → Type 0) : List Override → Type 0 where
  done : AllKeep P []
  ◌▸◌ : {o : Override} {l : List Override} → Keeps P o → AllKeep P l → AllKeep P (o ∷ l)

pub run_overrides-keeps :
    (P : Config → Type 0) (host : Host) (l : List Override)
    → AllKeep P l
    → (cfg : Config) (applied : List EnvKey) {s : Config × List EnvKey} → P cfg
    → run_overrides host l cfg applied ≡ ok s
    → P s.0
unfolding run_overrides IsDone
run_overrides-keeps P host [] done cfg applied {s} p h =
    subst (λ (t : Config × List EnvKey). P t.0) {x = (cfg, applied)} {y = s} (cc) p
run_overrides-keeps P host (o ∷ l) (k ▸ keep) cfg applied {s} p h =
    let (t, first, rest) = >>=-eq-ok (run_override host o cfg applied) _ h in
    run_overrides-keeps P host l keep t.0 t.1
      (elim (run_override-eq-ok host o cfg applied _ refl first) [
        | inl (_, same) ↦
            subst (λ (t : Config × List EnvKey). P t.0) {x = (cfg, applied)} {y = t} (sym same) p
        | inr (v, _, set, _) ↦ k v cfg t.0 p set
      ])
      rest

set_keys-cons-none :
    (host : Host) (o : Override) (l : List Override)
    → host.lookup_env o.key ≡ none
    → set_keys host (o ∷ l) ≡ set_keys host l
unfolding set_keys
set_keys-cons-none host o l e = rw (e, set_keys) refl

set_keys-cons-some :
    (host : Host) (o : Override) (l : List Override) {v : Text}
    → host.lookup_env o.key ≡ some v
    → set_keys host (o ∷ l) ≡ o.key ∷ set_keys host l
unfolding set_keys
set_keys-cons-some host o l e = rw (e, set_keys) refl

pub run_overrides-set_keys :
    (host : Host) (l : List Override) (cfg : Config) (applied : List EnvKey)
    {s : Config × List EnvKey}
    → run_overrides host l cfg applied ≡ ok s
    → s.1 ≡ applied ++ set_keys host l
unfolding run_overrides IsDone set_keys
run_overrides-set_keys host [] cfg applied {s} h = cc (h, append-nil applied)
run_overrides-set_keys host (o ∷ l) cfg applied {s} h =
    let (t, first, rest) = >>=-eq-ok (run_override host o cfg applied) _ h in
    let ih = run_overrides-set_keys host l t.0 t.1 rest in
    (elim (run_override-eq-ok host o cfg applied _ refl first) [
      | inl (e, same) ↦ cc (ih, same, set_keys-cons-none host o l e)
      | inr (v, e, set, keys) ↦ cc (
        ih,
        keys,
        set_keys-cons-some host o l e,
        append_assoc applied (o.key ∷ []) (set_keys host l),
      )
    ])

run_overrides-append :
    (host : Host) (before after : List Override) (cfg : Config) (applied : List EnvKey)
    {s : Config × List EnvKey}
    → run_overrides host (before ++ after) cfg applied ≡ ok s
    → (t : Config × List EnvKey) × (run_overrides host before cfg applied ≡ ok t)
      × (run_overrides host after t.0 t.1 ≡ ok s)
unfolding run_overrides
run_overrides-append host [] after cfg applied h = ((cfg, applied), refl, h)
run_overrides-append host (b ∷ before) after cfg applied h =
    let (u, first, rest) = >>=-eq-ok (run_override host b cfg applied) _ h in
    let (t, left, right) = run_overrides-append host before after u.0 u.1 rest in
    (t, rw (first) left, right)

-- A setting that only one variable writes, where the setter writes the variable's value.
pub run_overrides-setting :
    (f : Config → Text) (host : Host) (before : List Override) (o : Override)
    (after : List Override)
    → ((a : Text) → AllKeep (λ c. f c ≡ a) before)
    → ((a : Text) → AllKeep (λ c. f c ≡ a) after)
    → ((v : Text) (cfg cfg' : Config) → o.set v cfg ≡ ok cfg' → f cfg' ≡ v)
    → (cfg : Config) (applied : List EnvKey) {s : Config × List EnvKey}
    → run_overrides host (before ++ o ∷ after) cfg applied ≡ ok s
    → f s.0 ≡ or_zero (f cfg) (host.lookup_env o.key)
unfolding run_overrides IsDone
run_overrides-setting f host before o after keep keep' sets cfg applied {s} h =
    let (t, left, right) = run_overrides-append host before (o ∷ after) cfg applied h in
    let (u, first, rest) = >>=-eq-ok (run_override host o t.0 t.1) _ right in
    let old =
      run_overrides-keeps (λ c. f c ≡ f cfg) host before (keep (f cfg)) cfg applied refl left in
    let new = run_overrides-keeps (λ c. f c ≡ f u.0) host after (keep' (f u.0)) u.0 u.1 refl rest in
    elim (run_override-eq-ok host o t.0 t.1 _ refl first) [
      | inl (e, same) ↦ cc (new, old, ap (λ (x : Config × List EnvKey). f x.0) same, e)
      | inr (v, e, set, _) ↦ cc (new, sets v t.0 u.0 set, e)
    ]
