-- ===== src/Mirror/Ledger/Whole.antt =====
-- A ledger is read whole or not at all.
use mathlib.Core.Path.{subst}
use distroless.Prelude.{
  ℕ, suc, true, false, some, List, [], ◌∷◌, ◌≡◌, ◌≢◌, ◌↔◌, refl, ap, if◌then◌else◌, Result, ok, err,
  ok-injective, >>=-eq-ok, ◌>>=◌, Bool-cases, Option-cases, inl, inr,
}
use distroless.Strings.{Bytes, codes, str_eq, has_prefix}
use distroless.Strings.Split.{split}
use distroless.Strings.Space.{trim_space}
use distroless.Mirror.Record.{LedgerEvent, Codec}
use distroless.Mirror.Attached.{MirrorError}
use distroless.Mirror.Ledger.{Move, checked_move, move_of, decode_line, decode_lines, decode_ledger}

-- the lines that are not blank
abbrev pub texts : List Bytes → List Bytes
texts [] = []
texts (l ∷ lines) = if str_eq (trim_space l) [] then texts lines else trim_space l ∷ texts lines

abbrev pub made : LedgerEvent → ℕ → Move
made event at = record { at = at; tag = event.tag; digest = event.digest; run = event.run }

err_ok : {e : MirrorError} {m : Move} → ◌≢◌ {A = Result MirrorError Move} (err e) (ok m)
err_ok h = cc

nil_cons : {m : Move} {ms : List Move} → ◌≢◌ {A = List Move} [] (m ∷ ms)
nil_cons h = cc

module _ (codec : Codec) where
  -- a text is an event with a time, a tag and a SHA-256 digest, and this is its move
  pub record IsMove (text : Bytes) (move : Move) : Type 0 where
    pub event : LedgerEvent
    pub time : ℕ
    pub reads : codec.decode_event text ≡ some event
    pub timed : codec.parse_time event.at ≡ some time
    pub tagged : str_eq event.tag [] ≡ false
    pub digested : has_prefix event.digest (codes "sha256:") ≡ true
    pub same : made event time ≡ move

  -- each text is the move at its place
  abbrev pub Each : List Bytes → List Move → Type 0
  Each [] [] = Unit
  Each [] (m ∷ ms) = ⊥
  Each (t ∷ ts) [] = ⊥
  Each (t ∷ ts) (m ∷ ms) = IsMove t m × Each ts ms

  decode_line-IsMove :
      (line : ℕ) (text : Bytes) (move : Move)
      → decode_line codec line text ≡ ok move
      → IsMove text move
  unfolding decode_line move_of checked_move
  decode_line-IsMove line text move h = elim (Option-cases (codec.decode_event text)) [
    | inl a ↦ absurd (err_ok (rw a at h))
    | inr (event, a) ↦ elim (Option-cases (codec.parse_time event.at)) [
      | inl b ↦ absurd (err_ok (rw (a, b) at h))
      | inr (time, b) ↦ elim (Bool-cases (str_eq event.tag [])) [
        | inl d ↦ absurd (err_ok (rw (a, b, d) at h))
        | inr d ↦ elim (Bool-cases (has_prefix event.digest (codes "sha256:"))) [
          | inl f ↦ record {
            event = event;
            time = time;
            reads = a;
            timed = b;
            tagged = d;
            digested = f;
            same = ok-injective (rw (a, b, d, f) at h);
          }
          | inr f ↦ absurd (err_ok (rw (a, b, d, f) at h))
        ]
      ]
    ]
  ]

  IsMove-decode_line :
      (line : ℕ) (text : Bytes) (move : Move)
      → IsMove text move
      → decode_line codec line text ≡ ok move
  unfolding decode_line move_of checked_move
  IsMove-decode_line line text move m = rw (m.reads, m.timed, m.tagged, m.digested) (ap ok m.same)

  -- a text that is not blank, before lines for which this has been shown
  event-Each :
      (line : ℕ) (text : Bytes) (lines : List Bytes)
      → ((ms : List Move) → (decode_lines codec (suc line) lines ≡ ok ms) ↔ Each (texts lines) ms)
      → (ms : List Move)
      → ((do
        move ← decode_line codec line text
        moves ← decode_lines codec (suc line) lines
        ok (move ∷ moves))
          ≡ ok ms)
        ↔ Each (text ∷ texts lines) ms
  event-Each line text lines rest ms = (
    λ h.
        let (move, a, h') =
          >>=-eq-ok (decode_line codec line text)
            (λ move. decode_lines codec (suc line) lines >>= λ moves. ok (move ∷ moves)) h in
        let (moves, b, h'') =
          >>=-eq-ok (decode_lines codec (suc line) lines) (λ moves. ok (move ∷ moves)) h' in
        subst (Each (text ∷ texts lines)) (ok-injective h'')
          (decode_line-IsMove line text move a, (rest moves).0 b),
    back ms,
  )
    where
      back :
          (ns : List Move)
          → Each (text ∷ texts lines) ns
          → (do
            move ← decode_line codec line text
            moves ← decode_lines codec (suc line) lines
            ok (move ∷ moves))
            ≡ ok ns
      back [] h = absurd h
      back (m ∷ ns) h = rw (IsMove-decode_line line text m h.0, (rest ns).1 h.1) refl

  decode_lines-Each :
      (line : ℕ) (lines : List Bytes) (ms : List Move)
      → (decode_lines codec line lines ≡ ok ms) ↔ Each (texts lines) ms
  unfolding decode_lines
  decode_lines-Each line [] [] = (λ h. tt, λ h. refl)
  decode_lines-Each line [] (m ∷ ms) = (λ h. absurd (nil_cons (ok-injective h)), λ h. absurd h)
  decode_lines-Each line (l ∷ lines) ms = elim (Bool-cases (str_eq (trim_space l) [])) [
    | inl blank ↦ rw blank (decode_lines-Each (suc line) lines ms)
    | inr filled ↦
        rw filled (event-Each line (trim_space l) lines (decode_lines-Each (suc line) lines) ms)
  ]

  -- decodeLedger returns moves exactly if each line that is not blank is an event of a time, a tag
  -- and a SHA-256 digest, and the moves are those of these lines in their order.
  pub decode_ledger-Each :
      (blob : Bytes) (ms : List Move)
      → (decode_ledger codec blob ≡ ok ms) ↔ Each (texts (split b'\n' blob)) ms
  unfolding decode_ledger
  decode_ledger-Each blob ms = decode_lines-Each 1 (split b'\n' blob) ms
