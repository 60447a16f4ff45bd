-- ===== src/CaBundle/Anchors/Exact.antt =====
-- Which certificates the bundle has.
use distroless.Prelude.{
  ℕ, Bool, true, false, ◌||◌, ◌&&◌, not, Option, none, some, List, [], ◌∷◌, ◌++◌, ◌≡◌, ◌≢◌, refl,
  sym, ap, ◌∙◌, arith, if◌then◌else◌, any, any-append, Result, ok, err, ok-injective, >>=-eq-ok,
  ◌>>=◌, Bool-cases, inl, inr,
}
use distroless.Prelude.Dict.{lookup, insert, lookup-insert, or_else, or_else_assoc, or_else-none}
use distroless.Strings.{Bytes, codes, str_eq}
use distroless.Strings.Order.{bytes_eq}
use distroless.CaBundle.Value.{BundleError, Dates, distrusted_for_servers_at}
use distroless.CaBundle.Object.{PemBlock, P11Object}
use distroless.CaBundle.Anchors.{
  Encodings, ByKey, attr, restricts, note_keys, forbidden, is_trusted, allows_servers,
  server_auth_by_key, subject_public_key_info, object_anchors, trusted_anchors, anchors,
  server_anchors,
}

abbrev pub has : Bytes → List Bytes → Bool
has cert = any (λ (c : Bytes). str_eq c cert)

abbrev pub is_ok_true : Result BundleError Bool → Bool
is_ok_true (ok b) = b
is_ok_true (err e) = false

abbrev pub is_ok_false : Result BundleError Bool → Bool
is_ok_false (ok b) = not b
is_ok_false (err e) = false

-- the object names the key
abbrev pub names_key : Bytes → List PemBlock → Bool
names_key spki = any (λ (b : PemBlock). str_eq b.kind (codes "PUBLIC KEY") && str_eq b.bytes spki)

-- what a restriction says, if there is one
abbrev pub unbarred : Option Bool → Bool
unbarred none = true
unbarred (some allowed) = allowed

not-forbidden : (restricted : Option Bool) → not (forbidden restricted) ≡ unbarred restricted
unfolding forbidden
not-forbidden none = refl
not-forbidden (some true) = refl
not-forbidden (some false) = refl

err_ok : {A : Type 0} {e : BundleError} {a : A} → ◌≢◌ {A = Result BundleError A} (err e) (ok a)
err_ok h = cc

lookup-note_keys :
    (spki : Bytes) (allowed : Bool) (blocks : List PemBlock) (keys : ByKey)
    → lookup spki (note_keys allowed blocks keys)
      ≡ or_else (if names_key spki blocks then some allowed else none) (lookup spki keys)
unfolding note_keys
lookup-note_keys spki allowed [] keys = refl
lookup-note_keys spki allowed (b ∷ blocks) keys =
    elim (Bool-cases (str_eq b.kind (codes "PUBLIC KEY"))) [
      | inl public ↦
          rw
            (
              public,
              lookup-note_keys spki allowed blocks (insert b.bytes allowed keys),
              lookup-insert b.bytes spki allowed keys,
            )
            (joined (names_key spki blocks) (str_eq b.bytes spki) (lookup spki keys))
      | inr other ↦ rw other (lookup-note_keys spki allowed blocks keys)
    ]
  where
    joined :
        (later here : Bool) (old : Option Bool)
        → or_else (if later then some allowed else none) (if here then some allowed else old)
          ≡ or_else (if here || later then some allowed else none) old
    joined true true old = refl
    joined true false old = refl
    joined false true old = refl
    joined false false old = refl

module _ (enc : Encodings) where
  -- what the last object that restricts the usage of a key says
  abbrev pub restriction : Bytes → List P11Object → Option Bool
  restriction spki [] = none
  restriction spki (o ∷ objects) = or_else (restriction spki objects) (
      if restricts o && names_key spki o.pems
      then some (is_ok_true (allows_servers enc o))
      else none)

  noted_restriction :
      (spki : Bytes) (o : P11Object) (allowed : Bool)
      → restricts o ≡ true
      → allows_servers enc o ≡ ok allowed
      → (if names_key spki o.pems then some allowed else none) ≡ (
          if restricts o && names_key spki o.pems
          then some (is_ok_true (allows_servers enc o))
          else none)
  noted_restriction spki o allowed bound a = rw (bound, a) refl

  free_restriction :
      (spki : Bytes) (o : P11Object)
      → restricts o ≡ false
      → none ≡ (
          if restricts o && names_key spki o.pems
          then some (is_ok_true (allows_servers enc o))
          else none)
  free_restriction spki o free = rw free refl

  lookup-server_auth_by_key :
      (spki : Bytes) (objects : List P11Object) (keys found : ByKey)
      → server_auth_by_key enc objects keys ≡ ok found
      → lookup spki found ≡ or_else (restriction spki objects) (lookup spki keys)
  unfolding server_auth_by_key
  lookup-server_auth_by_key spki [] keys found h = ap (lookup spki) (sym (ok-injective h))
  lookup-server_auth_by_key spki (o ∷ objects) keys found h = elim (Bool-cases (restricts o)) [
    | inl bound ↦
        let (allowed, a, h') =
          >>=-eq-ok (allows_servers enc o)
            (λ allowed. server_auth_by_key enc objects (note_keys allowed o.pems keys))
            (rw bound at h) in
        lookup-server_auth_by_key spki objects (note_keys allowed o.pems keys) found h'
        ∙ ap (or_else (restriction spki objects)) (lookup-note_keys spki allowed o.pems keys)
        ∙ sym (
            or_else_assoc (restriction spki objects)
              (if names_key spki o.pems then some allowed else none) (lookup spki keys))
        ∙ ap
            (λ (r : Option Bool). or_else (or_else (restriction spki objects) r) (lookup spki keys))
            (noted_restriction spki o allowed bound a)
    | inr free ↦
        lookup-server_auth_by_key spki objects keys found (rw free at h)
        ∙ ap (λ (r : Option Bool). or_else r (lookup spki keys))
            (sym (or_else-none (restriction spki objects)))
        ∙ ap
            (λ (r : Option Bool). or_else (or_else (restriction spki objects) r) (lookup spki keys))
            (free_restriction spki o free)
  ]

  -- the key can be read from the certificate, and no restriction bars it
  abbrev permits : (Bytes → Option Bool) → Result BundleError Bytes → Bool
  permits allowed (ok spki) = unbarred (allowed spki)
  permits allowed (err e) = false

  -- the block is this certificate, for a key that servers may use
  abbrev is_anchor : (Bytes → Option Bool) → Bytes → PemBlock → Bool
  is_anchor allowed cert b =
      str_eq b.kind (codes "CERTIFICATE")
      && (str_eq b.bytes cert && permits allowed (subject_public_key_info enc b.bytes))

  has-kept :
      (cert : Bytes) (keys : ByKey) (b : PemBlock) (spki : Bytes) (cs : List Bytes)
      → str_eq b.kind (codes "CERTIFICATE") ≡ true
      → subject_public_key_info enc b.bytes ≡ ok spki
      → has cert (if forbidden (lookup spki keys) then cs else b.bytes ∷ cs)
        ≡ (is_anchor (λ k. lookup k keys) cert b || has cert cs)
  has-kept cert keys b spki cs certificate a = elim (Bool-cases (forbidden (lookup spki keys))) [
    | inl barred ↦
        rw (certificate, a, sym (not-forbidden (lookup spki keys)), barred) (ground arith)
    | inr free ↦ rw (certificate, a, sym (not-forbidden (lookup spki keys)), free) (ground arith)
  ]

  has-object_anchors :
      (cert : Bytes) (keys : ByKey) (blocks : List PemBlock) (certs : List Bytes)
      → object_anchors enc keys blocks ≡ ok certs
      → has cert certs ≡ any (is_anchor (λ k. lookup k keys) cert) blocks
  unfolding object_anchors
  has-object_anchors cert keys [] certs h = ap (has cert) (sym (ok-injective h))
  has-object_anchors cert keys (b ∷ blocks) certs h =
      elim (Bool-cases (str_eq b.kind (codes "CERTIFICATE"))) [
        | inl certificate ↦
            let (spki, a, h') =
              >>=-eq-ok (subject_public_key_info enc b.bytes)
                (λ spki. object_anchors enc keys blocks >>= λ cs.
                  ok (if forbidden (lookup spki keys) then cs else b.bytes ∷ cs))
                (rw certificate at h) in
            let (cs, e, h'') =
              >>=-eq-ok (object_anchors enc keys blocks)
                (λ cs. ok (if forbidden (lookup spki keys) then cs else b.bytes ∷ cs)) h' in
            ap (has cert) (sym (ok-injective h''))
            ∙ has-kept cert keys b spki cs certificate a
            ∙ ap (λ (x : Bool). is_anchor (λ k. lookup k keys) cert b || x)
                (has-object_anchors cert keys blocks cs e)
        | inr other ↦ rw other (has-object_anchors cert keys blocks certs (rw other at h))
      ]

  module _ (dates : Dates) (now : ℕ) where
    -- the object is trusted at the time, and anchors this certificate
    abbrev pub anchors_cert : (Bytes → Option Bool) → Bytes → P11Object → Bool
    anchors_cert allowed cert o =
        is_trusted o
        && (is_ok_false
              (distrusted_for_servers_at dates now (attr o (codes "nss-server-distrust-after")))
            && any (is_anchor allowed cert) o.pems)

    has-trusted_anchors :
        (cert : Bytes) (keys : ByKey) (o : P11Object) (certs : List Bytes)
        → trusted_anchors enc dates now keys o ≡ ok certs
        → has cert certs ≡ (
            is_ok_false
              (distrusted_for_servers_at dates now (attr o (codes "nss-server-distrust-after")))
            && any (is_anchor (λ k. lookup k keys) cert) o.pems)
    unfolding trusted_anchors
    has-trusted_anchors cert keys o certs h =
        by_date (distrusted_for_servers_at dates now (attr o (codes "nss-server-distrust-after"))) h
      where
        by_date :
            (r : Result BundleError Bool)
            → (r >>= λ dead. if dead then ok [] else object_anchors enc keys o.pems) ≡ ok certs
            → has cert certs ≡ (is_ok_false r && any (is_anchor (λ k. lookup k keys) cert) o.pems)
        by_date (err e) k = absurd (err_ok k)
        by_date (ok true) k = ap (has cert) (sym (ok-injective k))
        by_date (ok false) k = has-object_anchors cert keys o.pems certs k

    with_trust :
        (o : P11Object) (cert : Bytes) (allowed : Bytes → Option Bool)
        → is_trusted o ≡ true
        → (is_ok_false
              (distrusted_for_servers_at dates now (attr o (codes "nss-server-distrust-after")))
            && any (is_anchor allowed cert) o.pems)
          ≡ anchors_cert allowed cert o
    with_trust o cert allowed trusted = rw trusted refl

    has-anchors :
        (cert : Bytes) (keys : ByKey) (objects : List P11Object) (certs : List Bytes)
        → anchors enc dates now keys objects ≡ ok certs
        → has cert certs ≡ any (anchors_cert (λ k. lookup k keys) cert) objects
    unfolding anchors
    has-anchors cert keys [] certs h = ap (has cert) (sym (ok-injective h))
    has-anchors cert keys (o ∷ objects) certs h = elim (Bool-cases (is_trusted o)) [
      | inl trusted ↦
          let (here, a, h') =
            >>=-eq-ok (trusted_anchors enc dates now keys o)
              (λ here. anchors enc dates now keys objects >>= λ rest. ok (here ++ rest))
              (rw trusted at h) in
          let (rest, e, h'') =
            >>=-eq-ok (anchors enc dates now keys objects) (λ rest. ok (here ++ rest)) h' in
          ap (has cert) (sym (ok-injective h''))
          ∙ any-append (λ (c : Bytes). str_eq c cert) here rest
          ∙ ap (λ (x : Bool). has cert here || x) (has-anchors cert keys objects rest e)
          ∙ ap (λ (x : Bool). x || any (anchors_cert (λ k. lookup k keys) cert) objects)
              (has-trusted_anchors cert keys o here a
                ∙ with_trust o cert (λ k. lookup k keys) trusted)
      | inr other ↦ rw other (has-anchors cert keys objects certs (rw other at h))
    ]

    anchors_cert-same :
        (f g : Bytes → Option Bool) (cert : Bytes) (objects : List P11Object)
        → ((k : Bytes) → f k ≡ g k)
        → any (anchors_cert f cert) objects ≡ any (anchors_cert g cert) objects
    anchors_cert-same f g cert objects same =
        ap (λ (x : Bytes → Option Bool). any (anchors_cert x cert) objects) (λ i k. same k i)

    -- Where a trust source's objects give a bundle, a certificate is in it exactly if an object has
    -- it that is trusted, not distrusted, and not past its date for servers, and whose key the last
    -- object that restricts it, if there is one, allows for servers.
    pub server_anchors-has :
        (objects : List P11Object) (certs : List Bytes) (cert : Bytes)
        → server_anchors enc dates now objects ≡ ok certs
        → has cert certs ≡ any (anchors_cert (λ k. restriction k objects) cert) objects
    unfolding server_anchors lookup
    server_anchors-has objects certs cert h =
        let (keys, a, h') =
          >>=-eq-ok (server_auth_by_key enc objects []) (λ keys. anchors enc dates now keys objects)
            h in
        has-anchors cert keys objects certs h'
        ∙ anchors_cert-same (λ k. lookup k keys) (λ k. restriction k objects) cert objects
            (λ k.
              lookup-server_auth_by_key k objects [] keys a ∙ or_else-none (restriction k objects))
