-- ===== src/Api/Auth.antt =====
-- internal/api/server.go: `authMiddleware`, and handlers.go: `handleHealth`, which needs no token. The
-- comparison in constant time is the one of the bytes.
use sipreaper.Common.{
  ℕ, ◌≡◌, ◌≢◌, refl, ap, ◌∙◌, ◌==◌, if◌then◌else◌, Bool, true, false, not, ◌&&◌, ◌||◌, List, [],
  ◌∷◌, ◌++◌, Text, codes, text_eq, text_eq_iff, text_eq_refl, has_prefix, is_empty, length, drop,
  arith, ==_iff, ==_refl, Bool-cases, inl, inr,
}
use sipreaper.Api.{Reply, failure, Site}

abbrev pub bearer : Text
bearer = codes "Bearer "

unfoldable pub is_authorized : Text → Text → Bool
unfolding text_eq has_prefix
is_authorized token auth =
    let got = drop 7 auth in
    is_empty token || (has_prefix auth bearer && (length got == length token && text_eq got token))

-- `authMiddleware`: `auth` is the header `Authorization`, empty where there is none.
unfoldable pub auth_middleware :
    {W A : Type 0} → Text → Text → (Site W → Site W × Reply A) → Site W → Site W × Reply A
unfolding is_authorized
auth_middleware token auth next st =
    if is_authorized token auth then next st else (st, failure 401 (codes "unauthorized"))

has_prefix-append : (s p : Text) → has_prefix s p ≡ true → s ≡ p ++ drop (length p) s
unfolding has_prefix
has_prefix-append s [] h = refl
has_prefix-append [] (b ∷ p) h = cc h
has_prefix-append (c ∷ s) (b ∷ p) h = ground (arith, has_prefix-append s p, ==_iff c b, h)

append-has_prefix : (p s : Text) → has_prefix (p ++ s) p ≡ true
unfolding has_prefix
append-has_prefix [] [] = refl
append-has_prefix [] (c ∷ s) = refl
append-has_prefix (b ∷ p) s = ground (arith, append-has_prefix p s)

accepted : (token : Text) → is_authorized token (bearer ++ token) ≡ true
unfolding is_authorized
accepted token =
    ground (arith, append-has_prefix bearer token, text_eq_refl token, ==_refl (length token))

refused :
    (token auth : Text)
    → is_empty token ≡ false
    → auth ≢ bearer ++ token
    → is_authorized token auth ≡ false
unfolding is_authorized
refused token auth needed wrong = elim (Bool-cases (has_prefix auth bearer)) [
  | inr bare ↦ rw (is_authorized, needed, bare) refl
  | inl tagged ↦ elim (Bool-cases (text_eq (drop 7 auth) token)) [
    | inr other ↦ ground (arith, needed, tagged, other)
    | inl same ↦ absurd (
        wrong (
          has_prefix-append auth bearer tagged
          ∙ ap (λ t. bearer ++ t) ((text_eq_iff (drop 7 auth) token).0 same)))
  ]
]

-- With a token set, a request whose header is anything but "Bearer " and the token changes nothing
-- and is answered 401, and one with that header is handled.
pub auth_middleware-token :
    {W A : Type 0} (token auth : Text) (next : Site W → Site W × Reply A) (st : Site W)
    → is_empty token ≡ false
    → auth ≢ bearer ++ token
    → (auth_middleware token auth next st ≡ (st, failure 401 (codes "unauthorized")))
      × (auth_middleware token (bearer ++ token) next st ≡ next st)
unfolding auth_middleware is_authorized
auth_middleware-token token auth next st needed wrong =
    (rw (is_authorized, refused token auth needed wrong) refl, rw (accepted token) refl)

-- A check's verdict: up, degraded, or down.
abbrev pub is_soft : Text → Bool
is_soft v = has_prefix v (codes "ok") || has_prefix v (codes "degraded")

pub record Health : Type 0 where
  pub overall : ℕ
  pub degraded : Bool

-- The loop over the checks, in the order that Go gives them.
unfoldable pub judge : Health → List (Text × Text) → Health
unfolding text_eq has_prefix
judge h [] = h
judge h ((name, v) ∷ checks) =
    judge
      (if text_eq v (codes "ok")
        then h
        else if is_soft v
        then record h { degraded = true }
        else record h { overall = 503 })
      checks

-- The status code, and the word for it.
unfoldable pub health_status : List (Text × Text) → ℕ × Text
unfolding judge
health_status checks =
    let h = judge (record { overall = 200; degraded = false }) checks in
    (
      h.overall,
      if not (h.overall == 200)
          then codes "unhealthy"
          else if h.degraded
          then codes "degraded"
          else codes "ok",
    )

abbrev pub is_down : Text × Text → Bool
is_down (name, v) = not (text_eq v (codes "ok")) && not (is_soft v)

abbrev pub is_degraded : Text × Text → Bool
is_degraded (name, v) = not (text_eq v (codes "ok")) && is_soft v
