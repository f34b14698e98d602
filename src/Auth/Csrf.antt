-- ===== src/Auth/Csrf.antt =====
-- internal/auth/csrf.go: the double-submit cookie. A request is what the middleware reads of it; a
-- header that is not set is the empty text, as for `Header.Get`.
use back_orbit.Base.{
  Bool, true, ◌||◌, Option, none, some, [], Bytes, codes, ◌==◌, if◌then◌else◌, ◌≡◌, ◌≢◌, ◌↔◌, ◌⊎◌,
  inl, inr, arith, Option-cases,
}
use back_orbit.Base.Text.{bytes_eq, bytes_beq_iff}

pub record Request : Type 0 where
  pub method : Bytes
  pub csrf_cookie : Option Bytes
  pub csrf_header : Bytes

pub data Verdict : Type 0 where
  passed missing_cookie invalid_token : Verdict

unfoldable pub is_safe_method : Bytes → Bool
is_safe_method m = m == codes "GET" || m == codes "HEAD" || m == codes "OPTIONS"

-- `CSRFProtect`, up to the call of the next handler.
unfoldable pub csrf_protect : Request → Verdict
csrf_protect r = if is_safe_method r.method then passed else elim r.csrf_cookie [
  | none ↦ missing_cookie
  | some value ↦
      if value == []
      then missing_cookie
      else if r.csrf_header == []
      then invalid_token
      else if r.csrf_header == value
      then passed
      else invalid_token
]

-- `EnsureCSRFCookie`: the cookie to set, if any; `none` is the internal error.
unfoldable pub ensure_csrf_cookie : Option Bytes → Request → Option (Option Bytes)
ensure_csrf_cookie random r = elim r.csrf_cookie [
  | some _ ↦ some none
  | none ↦ elim random [ none ↦ none | some token ↦ some (some token) ]
]

-- A request passes exactly when its method is safe, or its header repeats a cookie that is not empty.
pub csrf_protect-passed :
    (r : Request)
    → (csrf_protect r ≡ passed) ↔ (
        (is_safe_method r.method ≡ true)
        ⊎ ((r.csrf_cookie ≡ some r.csrf_header) × (r.csrf_header ≢ [])))
unfolding csrf_protect
csrf_protect-passed r = elim (Option-cases r.csrf_cookie) [
  | inl e ↦ (λ h. ground (arith, e), λ h. ground (arith, e))
  | inr (v, e) ↦ (
    λ h. ground (arith, e, bytes_beq_iff r.csrf_header [], bytes_beq_iff r.csrf_header v),
    λ h. ground (
      arith,
      e,
      bytes_beq_iff r.csrf_header [],
      bytes_beq_iff r.csrf_header v,
      bytes_beq_iff v [],
    ),
  )
]
