-- ===== src/Core/Series/History.antt =====
-- Runs of the registry: what no sequence of requests can undo.
use open_control_historian.Base.{
  List, Option, [], ap, arith, err, false→holds, none, ok, refl, some, some-injective, subst, sym,
  true→holds, ℕ, ◌++◌, ◌∙◌, ◌∷◌, ◌≡◌,
}
use open_control_historian.Base.Map.{Bytes, Bytes-discrete, insert, lookup, update}
use open_control_historian.Base.Map.Laws.{lookup-insert, lookup-update}
use open_control_historian.Core.Error.{Checked, ModelError}
use open_control_historian.Core.Bounded.{Uuid}
use open_control_historian.Core.Declaration.{
  DeclarationEvidence, SeriesBinding, SeriesDeclaration, SeriesDeclarationPayload, SeriesHistory,
  SeriesRetirement,
}
use open_control_historian.Core.Series.{
  SeriesRegistry, SeriesRegistryLimits, declarations_of, find_revision, new, register, resolve,
}
use open_control_historian.Core.Series.Cases.{register_cases, retire_cases, revise_cases}
use open_control_historian.Core.Series.Invariant.{register-IsValid, retire-IsValid, revise-IsValid}
use open_control_historian.Core.Series.Chain.{IsValid, new-IsValid}
use open_control_historian.Core.Series.Revision.{retire, revise}

pub data Request : Type 0 where
  registers : Uuid → SeriesBinding → SeriesDeclarationPayload → DeclarationEvidence → Request
  revises : Uuid → ℕ → SeriesDeclarationPayload → DeclarationEvidence → Request
  retires : Uuid → ℕ → DeclarationEvidence → Request

abbrev failure {ℓ} : {A : Type ℓ} → Checked A → Option ModelError
failure (ok a) = none
failure (err e) = some e

-- The registry after a request, and the request's error.
unfoldable pub serve : SeriesRegistry → Request → SeriesRegistry × Option ModelError
serve r (registers id binding p e) = let o = register r id binding p e in (o.0, failure o.1)
serve r (revises id expected p e) = let o = revise r id expected p e in (o.0, failure o.1)
serve r (retires id expected e) = let o = retire r id expected e in (o.0, failure o.1)

unfoldable pub run : SeriesRegistry → List Request → SeriesRegistry
run r [] = r
run r (q ∷ qs) = run (serve r q).0 qs

serve-IsValid : (r : SeriesRegistry) (q : Request) → IsValid r → IsValid (serve r q).0
unfolding serve
serve-IsValid r (registers id binding p e) v = register-IsValid r id binding p e v
serve-IsValid r (revises id expected p e) v = revise-IsValid r id expected p e v
serve-IsValid r (retires id expected e) v = retire-IsValid r id expected e v

run-IsValid : (r : SeriesRegistry) (qs : List Request) → IsValid r → IsValid (run r qs)
unfolding run
run-IsValid r [] v = v
run-IsValid r (q ∷ qs) v = run-IsValid (serve r q).0 qs (serve-IsValid r q v)

-- Whatever is asked of a new registry, it stays within both bounds, counts its declarations
-- exactly, keeps its keys in order, and numbers and links each series' declarations from one on.
pub run-new-IsValid :
    (store : Uuid) (limits : SeriesRegistryLimits) (qs : List Request)
    → IsValid (run (new store limits) qs)
run-new-IsValid store limits qs = run-IsValid (new store limits) qs (new-IsValid store limits)

-- A request that is refused, for whatever reason, leaves the registry as it was.
pub serve_refused :
    (r : SeriesRegistry) (q : Request) (x : ModelError) → (serve r q).1 ≡ some x → (serve r q).0 ≡ r
unfolding serve
serve_refused r (registers id binding p e) x =
    register_cases r id p e (λ o. failure o.1 ≡ some x → o.0 ≡ r) binding (λ _ _. refl)
      (λ _ _ _. refl) (λ _ _ _ k. cc)
serve_refused r (revises id expected p e) x =
    revise_cases r id p e (λ o. failure o.1 ≡ some x → o.0 ≡ r) expected (λ _ _. refl)
      (λ _ _ _ _ _ _ _ _ _. refl) (λ _ _ _ _ _ _ _ k. cc)
serve_refused r (retires id expected e) x =
    retire_cases r id expected e (λ o. failure o.1 ≡ some x → o.0 ≡ r) (λ _ _. refl)
      (λ _ _ _ _ _. refl) (λ _ _ _ _ _ _ k. cc)

find_revision-append :
    (n : ℕ) (ds es : List SeriesDeclaration) (d : SeriesDeclaration)
    → find_revision n ds ≡ some d
    → find_revision n (ds ++ es) ≡ some d
unfolding find_revision
find_revision-append n [] es d h = cc
find_revision-append n (a ∷ ds) es d h = ground (arith, find_revision-append n ds es d)

-- Resolution in a map with one history written anew.
abbrev Resolves : Option SeriesHistory → ℕ → SeriesDeclaration → Type 0
Resolves h n d = find_revision n (declarations_of h) ≡ some d

Resolves-update :
    (id j : Uuid) (h g : SeriesHistory) (m : List (Bytes × SeriesHistory)) (n : ℕ)
    (d : SeriesDeclaration)
    → lookup id m ≡ some g
    → (Resolves (some g) n d → Resolves (some h) n d)
    → Resolves (lookup j m) n d
    → Resolves (lookup j (update id h m)) n d
Resolves-update id j h g m n d found grow k = elim (Bytes-discrete id j) [
  | yes e ↦
      rw (lookup-update id j h g m found, true→holds (Bytes-discrete id j) e)
        (grow (subst (λ x. Resolves x n d) (ap (λ i. lookup i m) (sym e) ∙ found) k))
  | no e ↦ rw (lookup-update id j h g m found, false→holds (Bytes-discrete id j) e) k
]

Resolves-insert :
    (id j : Uuid) (h : SeriesHistory) (m : List (Bytes × SeriesHistory)) (n : ℕ)
    (d : SeriesDeclaration)
    → lookup id m ≡ none
    → Resolves (lookup j m) n d
    → Resolves (lookup j (insert id h m)) n d
unfolding find_revision
Resolves-insert id j h m n d fresh k = elim (Bytes-discrete id j) [
  | yes e ↦ cc (subst (λ x. Resolves x n d) (ap (λ i. lookup i m) (sym e) ∙ fresh) k)
  | no e ↦ rw (lookup-insert id j h m, false→holds (Bytes-discrete id j) e) k
]

-- A declaration that once resolves does so after every later request, revision by revision.
pub resolve-serve :
    (r : SeriesRegistry) (q : Request) (j : Uuid) (n : ℕ) (d : SeriesDeclaration)
    → resolve r j n ≡ some d
    → resolve (serve r q).0 j n ≡ some d
unfolding resolve serve
resolve-serve r (registers id binding p e) j n d =
    register_cases r id p e (λ o. resolve r j n ≡ some d → resolve o.0 j n ≡ some d) binding
      (λ _ k. k) (λ _ _ k. k) (λ fresh _ _. Resolves-insert id j _ r.series n d fresh)
resolve-serve r (revises id expected p e) j n d =
    revise_cases r id p e (λ o. resolve r j n ≡ some d → resolve o.0 j n ≡ some d) expected
      (λ _ k. k) (λ _ _ _ _ _ _ _ _ k. k)
      (λ h current found _ _ _ _.
        Resolves-update id j _ h r.series n d found (find_revision-append n h.declarations _ d))
resolve-serve r (retires id expected e) j n d =
    retire_cases r id expected e (λ o. resolve r j n ≡ some d → resolve o.0 j n ≡ some d) (λ _ k. k)
      (λ _ _ _ _ k. k)
      (λ h current found _ _ _. Resolves-update id j _ h r.series n d found (λ k. k))

-- A history that is closed is not the one that an active series has.
closed-update :
    (id j : Uuid) (h g f : SeriesHistory) (m : List (Bytes × SeriesHistory)) (t : SeriesRetirement)
    → lookup id m ≡ some g
    → g.retirement ≡ none
    → f.retirement ≡ some t
    → lookup j m ≡ some f
    → lookup j (update id h m) ≡ some f
closed-update id j h g f m t found live gone k = elim (Bytes-discrete id j) [
  | yes e ↦
      let same : g ≡ f = some-injective g f (sym found ∙ ap (λ i. lookup i m) e ∙ k) in
      cc (live, gone, ap (λ (x : SeriesHistory). x.retirement) same)
  | no e ↦ rw (lookup-update id j h g m found, false→holds (Bytes-discrete id j) e) k
]

other-insert :
    (id j : Uuid) (h f : SeriesHistory) (m : List (Bytes × SeriesHistory))
    → lookup id m ≡ none
    → lookup j m ≡ some f
    → lookup j (insert id h m) ≡ some f
other-insert id j h f m fresh k = elim (Bytes-discrete id j) [
  | yes e ↦ cc (sym fresh ∙ ap (λ i. lookup i m) e ∙ k)
  | no e ↦ rw (lookup-insert id j h m, false→holds (Bytes-discrete id j) e) k
]

-- Retirement is terminal: no request changes the history of a retired series.
pub serve_retired :
    (r : SeriesRegistry) (q : Request) (j : Uuid) (f : SeriesHistory) (t : SeriesRetirement)
    → lookup j r.series ≡ some f
    → f.retirement ≡ some t
    → lookup j (serve r q).0.series ≡ some f
unfolding serve
serve_retired r (registers id binding p e) j f t k gone =
    register_cases r id p e (λ o. lookup j o.0.series ≡ some f) binding (λ _. k) (λ _ _. k)
      (λ fresh _ _. other-insert id j _ f r.series fresh k)
serve_retired r (revises id expected p e) j f t k gone =
    revise_cases r id p e (λ o. lookup j o.0.series ≡ some f) expected (λ _. k)
      (λ _ _ _ _ _ _ _ _. k)
      (λ h current found live _ _ _. closed-update id j _ h f r.series t found live gone k)
serve_retired r (retires id expected e) j f t k gone =
    retire_cases r id expected e (λ o. lookup j o.0.series ≡ some f) (λ _. k) (λ _ _ _ _. k)
      (λ h current found live _ _. closed-update id j _ h f r.series t found live gone k)

-- The history of a retired series is the same after any sequence of requests: nothing is added to it,
-- and neither its declarations nor its tombstone change.
pub run_retired :
    (r : SeriesRegistry) (qs : List Request) (j : Uuid) (f : SeriesHistory) (t : SeriesRetirement)
    → lookup j r.series ≡ some f
    → f.retirement ≡ some t
    → lookup j (run r qs).series ≡ some f
unfolding run
run_retired r [] j f t k gone = k
run_retired r (q ∷ qs) j f t k gone =
    run_retired (serve r q).0 qs j f t (serve_retired r q j f t k gone) gone

-- A declaration that resolves under a series and a revision number resolves to the same declaration
-- after any sequence of requests.
pub resolve-run :
    (r : SeriesRegistry) (qs : List Request) (j : Uuid) (n : ℕ) (d : SeriesDeclaration)
    → resolve r j n ≡ some d
    → resolve (run r qs) j n ≡ some d
unfolding run
resolve-run r [] j n d k = k
resolve-run r (q ∷ qs) j n d k = resolve-run (serve r q).0 qs j n d (resolve-serve r q j n d k)
