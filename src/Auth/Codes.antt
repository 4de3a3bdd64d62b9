-- ===== src/Auth/Codes.antt =====
-- The authorization codes over a history of calls: what a code was issued for, and how often it is
-- accepted.
use Prim.Native.Nat.{ℕ, ◌+◌, ◌≤◌}
use Prim.Native.String.{String}
use text.Mathlib.Text.{◌==◌}
use text.Mathlib.TextEquality.{eq_iff}
use text.Mathlib.TextPositions.{eq_refl}
use mathlib.Core.Path.{subst, ◌≡◌, refl, sym, ap, ◌∙◌}
use mathlib.Core.Logic.{◌⊎◌, inl, inr}
use mathlib.Core.Bool.{Bool, true, false, ◌&&◌}
use mathlib.Core.Option.{Option, none, some}
use mathlib.Core.List.{List, [], ◌∷◌}
use native.Mathlib.Omega.{arith}
use roostos.Prelude.{any, eqb, ltb, is_some, or_else, Bool-cases, if◌then◌else◌}
use roostos.Prelude.Dict
use roostos.Prelude.Dict.{get-put, get-pop, get-pop-some, get-put-some}
use roostos.Models.{truthy}
use roostos.Auth.{
  CodeRecord, Codes, new_record, generate_authorization_code, validate_authorization_record,
  validate_found, same_uri,
}

-- A call: at a time, with the code that `secrets` draws, for a user, a page and an authority; or at a
-- time, with the code and the page that a client sends.
pub data Call : Type 0 where
  generate : ℕ → String → String → String → Option String → Call
  validate : ℕ → String → String → Call

unfoldable pub step : Call → Codes → Codes
step (generate now code username redirect_uri authority) codes =
    (generate_authorization_code now code username redirect_uri authority codes).1
step (validate now code redirect_uri) codes =
    (validate_authorization_record now code redirect_uri codes).1

unfoldable pub run : List Call → Codes → Codes
run [] codes = codes
run (c ∷ cs) codes = run cs (step c codes)

abbrev pub held : String → Codes → ℕ
held code codes = if is_some (Dict.get code codes) then 1 else 0

abbrev pub made_by : String → Call → ℕ
made_by code (generate now drawn username redirect_uri authority) = if drawn == code then 1 else 0
made_by code _ = 0

abbrev pub accepted_by : String → Call → Codes → ℕ
accepted_by code (validate now sent redirect_uri) codes =
    if sent == code && is_some (validate_authorization_record now sent redirect_uri codes).0
    then 1
    else 0
accepted_by code _ codes = 0

-- How often a history makes a code, and how often it accepts it.
unfoldable pub made : String → List Call → ℕ
made code [] = 0
made code (c ∷ cs) = made_by code c + made code cs

unfoldable pub accepted : String → List Call → Codes → ℕ
accepted code [] codes = 0
accepted code (c ∷ cs) codes = accepted_by code c codes + accepted code cs (step c codes)

-- An answer of `validate_authorization_record` gives a record that stands under the code, that has
-- not expired and that is for the same page; the code is taken then.
module _ {ℓ} where
  validate_found-cases :
      (now : ℕ) (code uri : String) (o : Option CodeRecord) (codes : Codes)
      (P : Option CodeRecord × Codes → Type ℓ)
      → (o ≡ none → P (none, codes))
      → ((r : CodeRecord) → o ≡ some r → P (none, Dict.pop code codes))
      → ((r : CodeRecord)
          → o ≡ some r
          → ltb r.expires_at now ≡ false
          → same_uri r.redirect_uri uri ≡ true
          → P (some r, Dict.pop code codes))
      → ((r : CodeRecord) → o ≡ some r → P (none, codes))
      → P (validate_found now code uri o codes)
  validate_found-cases now code uri none codes P missing expired accepts other = missing refl
  validate_found-cases now code uri (some r) codes P missing expired accepts other =
      elim (Bool-cases (ltb r.expires_at now)) [
        | inl e ↦ rw e (expired r refl)
        | inr e ↦ rw e (elim (Bool-cases (same_uri r.redirect_uri uri)) [
          | inl q ↦ rw q (accepts r refl e q)
          | inr q ↦ rw q (other r refl)
        ])
      ]

module _ (code : String) where
  step-held :
      (c : Call) (codes : Codes)
      → accepted_by code c codes + held code (step c codes) ≤ held code codes + made_by code c
  unfolding step generate_authorization_code validate_authorization_record
  step-held (generate now drawn username uri authority) codes =
      ground (arith, get-put drawn code (new_record now username uri authority) codes)
  step-held (validate now sent uri) codes =
      validate_found-cases now sent uri (Dict.get sent codes) codes
        (λ (r : Option CodeRecord × Codes).
          (if sent == code && is_some r.0 then 1 else 0) + held code r.1 ≤ held code codes + 0)
        (λ e. ground arith) (λ r e. ground (arith, get-pop sent code codes))
        (λ r e late same. elim (Bool-cases (sent == code)) [
          | inl s ↦
              let there : Dict.get code codes ≡ some r =
                ap (λ k. Dict.get k codes) (sym ((eq_iff sent code).0 s)) ∙ e in
              ground (arith, get-pop sent code codes, s, there)
          | inr s ↦ ground (arith, get-pop sent code codes, s)
        ])
        (λ r e. ground arith)

  -- In any history of calls, an authorization code is accepted no more often than it was made, and
  -- once more if it was held at the start: a code that is made once is accepted at most once.
  pub run-single :
      (cs : List Call) (codes : Codes)
      → accepted code cs codes + held code (run cs codes) ≤ held code codes + made code cs
  unfolding run accepted made
  run-single [] codes = omega arith
  run-single (c ∷ cs) codes =
      let rest = run-single cs (step c codes) in
      let first = step-held c codes in omega (arith, rest, first)

-- Whether a call issues a record under a code.
abbrev pub issues : String → CodeRecord → Call → Bool
issues code r (generate now drawn username redirect_uri authority) =
    drawn == code
    && (r.username == username
        && (r.redirect_uri == redirect_uri
            && (r.authority == or_else (truthy authority) "local" && eqb r.expires_at (now + 300))))
issues code r _ = false

module _ (code : String) (r : CodeRecord) where
  step-issued :
      (c : Call) (codes : Codes)
      → Dict.get code (step c codes) ≡ some r
      → (Dict.get code codes ≡ some r) ⊎ (issues code r c ≡ true)
  unfolding step generate_authorization_code validate_authorization_record
  step-issued (generate now drawn username uri authority) codes h =
      elim (get-put-some drawn code (new_record now username uri authority) r codes h) [
        | inl (e, q) ↦ inr (
            rw (sym q) (
              ground (
                arith,
                e,
                eq_refl username,
                eq_refl uri,
                eq_refl (or_else (truthy authority) "local"),
              )))
        | inr q ↦ inl q
      ]
  step-issued (validate now sent uri) codes h =
      validate_found-cases now sent uri (Dict.get sent codes) codes
        (λ (x : Option CodeRecord × Codes).
          Dict.get code x.1 ≡ some r → (Dict.get code codes ≡ some r) ⊎ (false ≡ true))
        (λ e h. inl h) (λ q e h. inl (get-pop-some sent code r codes h))
        (λ q e late same h. inl (get-pop-some sent code r codes h)) (λ q e h. inl h) h

  run-issued :
      (cs : List Call) (codes : Codes)
      → Dict.get code (run cs codes) ≡ some r
      → (Dict.get code codes ≡ some r) ⊎ (any (issues code r) cs ≡ true)
  unfolding run any
  run-issued [] codes h = inl h
  run-issued (c ∷ cs) codes h = elim (run-issued cs (step c codes) h) [
    | inl e ↦ elim (step-issued c codes e) [ inl q ↦ inl q | inr q ↦ inr (ground (arith, q)) ]
    | inr e ↦ inr (ground (arith, e))
  ]

issued_anew :
    (code : String) (r : CodeRecord) (cs : List Call)
    → Dict.get code (run cs []) ≡ some r
    → any (issues code r) cs ≡ true
unfolding Dict.get
issued_anew code r cs h = elim (run-issued code r cs [] h) [ inl e ↦ absurd cc | inr e ↦ e ]

-- A code that is accepted after any history that starts without codes was issued in that history
-- with the record that is answered: for this user and authority, for the same page up to slashes at
-- its end, and with an expiry, five minutes after the issue, that is not past.
pub validate-issued :
    (cs : List Call) (now : ℕ) (code uri : String) (r : CodeRecord)
    → (validate_authorization_record now code uri (run cs [])).0 ≡ some r
    → (any (issues code r) cs ≡ true) × (now ≤ r.expires_at) × (same_uri r.redirect_uri uri ≡ true)
unfolding validate_authorization_record
validate-issued cs now code uri r =
    validate_found-cases now code uri (Dict.get code (run cs [])) (run cs [])
      (λ (x : Option CodeRecord × Codes).
        x.0 ≡ some r
        → (any (issues code r) cs ≡ true)
          × (now ≤ r.expires_at)
          × (same_uri r.redirect_uri uri ≡ true))
      (λ e h. cc) (λ q e h. cc)
      (λ q e late same h.
        let p : q ≡ r = cc in
        (
          issued_anew code r cs (e ∙ h),
          subst (λ (x : CodeRecord). now ≤ x.expires_at) p (ground arith),
          subst (λ (x : CodeRecord). same_uri x.redirect_uri uri ≡ true) p same,
        ))
      (λ q e h. cc)
