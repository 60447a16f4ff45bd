-- ===== src/Pin/Fetch/Retry.antt =====
-- How often `httpGet` asks, and which of the answers it returns.
use mathlib.Core.Logic.{⊎_elim}
use distroless.Prelude.{
  ℕ, zero, suc, ◌+◌, ◌-◌, ◌^◌, ◌≤◌, ◌<◌, Bool, true, false, ◌&&◌, ◌||◌, ◌==◌, leb, ltb,
  if◌then◌else◌, none, some, Result, ok, err, List, [], ◌∷◌, ◌≡◌, ◌⊎◌, inl, inr, refl, sym, ap,
  arith, Bool-cases,
}
use distroless.Strings.{Bytes}
use distroless.Pin.Fetch.{
  Answer, no_response, response, HttpError, transport_error, read_error, http_status, read_body,
  http_get_once, settled, may_retry, Fetched, get_from, http_get,
}

abbrev pub powers : ℕ → ℕ → List ℕ
powers attempt zero = []
powers attempt (suc n) = 2 ^ (attempt - 1) ∷ powers (attempt + 1) n

-- a failure that may pass: no response, a status of the 500s, or a body that breaks off
abbrev pub may_pass : Answer → Bool
may_pass no_response = true
may_pass (response status none) = leb 500 status && ltb status 600 || status == 200
may_pass (response status (some body)) = leb 500 status && ltb status 600

-- the body of a response of status 200, or what failed
abbrev pub body_of : Answer → Result HttpError Bytes
body_of no_response = err transport_error
body_of (response status none) = if status == 200 then err read_error else err (http_status status)
body_of (response status (some body)) = if status == 200 then ok body else err (http_status status)

may_retry-may_pass : (a : Answer) → may_retry (http_get_once a) ≡ may_pass a
unfolding may_retry http_get_once read_body
may_retry-may_pass no_response = refl
may_retry-may_pass (response status none) = ground arith
may_retry-may_pass (response status (some body)) = ground arith

settled-body_of : (a : Answer) → settled (http_get_once a) ≡ body_of a
unfolding settled http_get_once read_body
settled-body_of no_response = refl
settled-body_of (response status none) = ground arith
settled-body_of (response status (some body)) = ground arith

-- The answers come one after another: the state counts the requests that were sent.
module _ (answers : ℕ → Answer) where
  abbrev pub ask_next : ℕ → Answer × ℕ
  ask_next n = (answers n, suc n)

  -- `k` attempts were repeated, and attempt `k` settled the result
  pub record Tried (first left attempt : ℕ) (out : Fetched × ℕ) : Type 0 where
    pub repeats : ℕ
    pub within : repeats ≤ left
    pub retried : (i : ℕ) → i < repeats → may_pass (answers (first + i)) ≡ true
    pub last : (repeats ≡ left) ⊎ (may_pass (answers (first + repeats)) ≡ false)
    pub outcome :
        out ≡ ((body_of (answers (first + repeats)), powers attempt repeats), suc (first + repeats))

  settled_at_once :
      (first left attempt : ℕ)
      → (left ≡ 0) ⊎ (may_pass (answers first) ≡ false)
      → Tried first left attempt ((body_of (answers first), []), suc first)
  settled_at_once first left attempt last =
      let e : first + 0 ≡ first = omega arith in
      record {
        repeats = 0;
        within = omega arith;
        retried = λ i h. absurd (omega arith);
        last = rw e (⊎_elim (λ z. inl (sym z)) inr last);
        outcome = rw e;
      }

  retried_below :
      (first i n : ℕ)
      → may_pass (answers first) ≡ true
      → ((j : ℕ) → j < n → may_pass (answers (suc first + j)) ≡ true)
      → i < suc n
      → may_pass (answers (first + i)) ≡ true
  retried_below first zero n here below h = let e : first + 0 ≡ first = omega arith in rw e here
  retried_below first (suc i) n here below h =
      let e : first + suc i ≡ suc first + i = omega arith in rw e (below i (omega arith))

  repeated :
      (first left attempt : ℕ) (out : Fetched × ℕ)
      → may_pass (answers first) ≡ true
      → Tried (suc first) left (attempt + 1) out
      → Tried first (suc left) attempt ((out.0.0, 2 ^ (attempt - 1) ∷ out.0.1), out.1)
  repeated first left attempt out again t =
      let e : first + suc t.repeats ≡ suc first + t.repeats = omega arith in
      record {
        repeats = suc t.repeats;
        within = omega (arith, t.within);
        retried = λ i h. retried_below first i t.repeats again t.retried h;
        last = rw e (⊎_elim (λ l. inl (ap suc l)) inr t.last);
        outcome = rw (e, t.outcome);
      }

  get_from-Tried :
      (left attempt first : ℕ) → Tried first left attempt (get_from ask_next left attempt first)
  unfolding get_from
  get_from-Tried zero attempt first =
      rw (settled-body_of (answers first)) (settled_at_once first 0 attempt (inl refl))
  get_from-Tried (suc left) attempt first = elim (Bool-cases (may_pass (answers first))) [
    | inl again ↦
        rw (may_retry-may_pass (answers first), again)
          (repeated first left attempt (get_from ask_next left (attempt + 1) (suc first)) again
            (get_from-Tried left (attempt + 1) (suc first)))
    | inr over ↦
        rw (may_retry-may_pass (answers first), over, settled-body_of (answers first))
          (settled_at_once first (suc left) attempt (inr over))
  ]

  -- httpGet asks at most three times: it repeats while there is no response, or one of the statuses 500 to
  -- 599, or a body of status 200 that breaks off, and attempts are left; it waits 1 and then 2 units in
  -- between, and returns the body of its last attempt if that has the status 200 and can be read.
  pub http_get-Tried : (first : ℕ) → Tried first 2 1 (http_get ask_next first)
  unfolding http_get
  http_get-Tried first = get_from-Tried 2 1 first
