-- ===== src/Extract/Payload/Kept.antt =====
-- The whole walk: what is in the tar at the end.
use distroless.Prelude.{
  ◌+◌, Bool, true, ◌&&◌, Option, none, some, List, [], ◌∷◌, ◌≡◌, refl, sym, ◌∙◌, ap, arith, inl,
  inr, Bool-cases, ok, ok-injective, >>=-eq-ok, ltb, ◌==◌,
}
use distroless.Strings.{Bytes}
use distroless.Strings.Count.{count, count-append}
use distroless.Extract.Payload.{
  Entry, filesize, Header, State, is_cpio_regular, write_cpio_entry_as_tar, after_entry,
  write_through, kept_step, destination, step_to, step, walk,
}
use distroless.Extract.Payload.Writes.{write_cpio_entry_lem}
use distroless.Extract.Payload.Names.{
  kept_name, kept_names, total, Written-names, total-stripped_step, total-hold_back,
  total-after_entry,
}

pub count_nil : (n : Bytes) → count n [] ≡ 0
unfolding count
count_nil n = refl

pub and_first : (a b : Bool) → (a && b) ≡ true → a ≡ true
and_first a b h = ground arith

module _ (accepts : Header → Bool) (n : Bytes) where
  total-write_through :
      (e : Entry) (name : Bytes) (s s' : State)
      → write_through accepts e name s ≡ ok s'
      → total n s' ≡ total n s + count n (kept_name e (some name))
  unfolding write_through
  total-write_through e name s s' h =
      let (t, w, r) =
        >>=-eq-ok (write_cpio_entry_as_tar accepts e name s.tar) (after_entry accepts e name s) h in
      omega (
        arith,
        total-after_entry accepts n e name s s' t r,
        Written-names n e.kind name s.tar t (write_cpio_entry_lem accepts e name s.tar t w),
      )

  total-kept_step :
      (e : Entry) (name : Bytes) (s s' : State)
      → kept_step accepts e name s ≡ ok s'
      → total n s' ≡ total n s + count n (kept_name e (some name))
  unfolding kept_step
  total-kept_step e name s s' h =
      elim (Bool-cases (is_cpio_regular e && (ltb 1 e.nlink && filesize e == 0))) [
        | inl c ↦
            ap (total n) (sym (ok-injective (rw (c, kept_step) at h)))
            ∙ total-hold_back accepts n e name s
                (and_first (is_cpio_regular e) (ltb 1 e.nlink && filesize e == 0) c)
        | inr c ↦ total-write_through e name s s' (rw (c, kept_step) at h)
      ]

  total-step_to :
      (e : Entry) (o : Option Bytes) (s s' : State)
      → step_to accepts e o s ≡ ok s'
      → total n s' ≡ total n s + count n (kept_name e o)
  unfolding step_to
  total-step_to e none s s' h = omega (arith, total-stripped_step accepts n e s s' h, count_nil n)
  total-step_to e (some name) s s' h = total-kept_step e name s s' h

  pub total-walk :
      (es : List Entry) (s s' : State)
      → walk accepts es s ≡ ok s'
      → total n s' ≡ total n s + count n (kept_names es)
  unfolding walk step
  total-walk [] s s' h = omega (arith, ap (total n) (ok-injective h), count_nil n)
  total-walk (e ∷ es) s s' h =
      let o = destination e.filename in
      let (t, w, r) = >>=-eq-ok (step_to accepts e o s) (walk accepts es) h in
      omega (
        arith,
        total-walk es t s' r,
        total-step_to e o s t w,
        count-append n (kept_name e o) (kept_names es),
      )
