-- ===== src/Mirror/Ledger.antt =====
-- `decodeLedger` of web/internal/mirror/history.go, on ledgers whose lines fit the scanner's buffer.
pub mod Whole
use distroless.Prelude.{
  ℕ, suc, ◌||◌, Option, none, some, List, [], ◌∷◌, if◌then◌else◌, not, Result, ok, err, ◌>>=◌,
}
use distroless.Strings.{Bytes, codes, str_eq, has_prefix}
use distroless.Strings.Split.{split}
use distroless.Strings.Space.{trim_space}
use distroless.Mirror.Record.{LedgerEvent, Codec}
use distroless.Mirror.Attached.{MirrorError, bad_line}

-- directory.Move
pub record Move : Type 0 where
  pub at : ℕ
  pub tag : Bytes
  pub digest : Bytes
  pub run : Bytes

unfoldable pub checked_move : ℕ → LedgerEvent → Option ℕ → Result MirrorError Move
checked_move line event none = err (bad_line line)
checked_move line event (some at) =
    if str_eq event.tag [] || not (has_prefix event.digest (codes "sha256:"))
    then err (bad_line line)
    else ok (record { at = at; tag = event.tag; digest = event.digest; run = event.run })

module _ (codec : Codec) where
  unfoldable pub move_of : ℕ → Option LedgerEvent → Result MirrorError Move
  move_of line none = err (bad_line line)
  move_of line (some event) = checked_move line event (codec.parse_time event.at)

  unfoldable pub decode_line : ℕ → Bytes → Result MirrorError Move
  decode_line line text = move_of line (codec.decode_event text)

  -- the loop from line number `line`
  unfoldable pub decode_lines : ℕ → List Bytes → Result MirrorError (List Move)
  decode_lines line [] = ok []
  decode_lines line (l ∷ lines) =
      let blank = decode_lines (suc line) lines in
      let event = (do
        move ← decode_line line (trim_space l)
        moves ← decode_lines (suc line) lines
        ok (move ∷ moves)) in
      if str_eq (trim_space l) [] then blank else event

  unfoldable pub decode_ledger : Bytes → Result MirrorError (List Move)
  decode_ledger blob = decode_lines 1 (split b'\n' blob)
