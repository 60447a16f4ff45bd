-- ===== src/Scans/Severity/Labels.antt =====
-- Reading a severity back from its label.
use distroless.Prelude.{ℕ, zero, suc, ◌<◌, ◌≡◌, refl, arith}
use distroless.Strings.{Bytes, str_eq}
use distroless.Strings.Space.{to_lower, lower}
use distroless.Scans.Severity.{severity_from, parse_severity, severity_string}

-- A label that is, but for the case of its letters, what String gives for a level is read as that
-- level.
pub parse_severity-severity_string :
    (s : ℕ) (label : Bytes)
    → s < 6
    → to_lower label ≡ to_lower (severity_string s)
    → parse_severity label ≡ s
unfolding parse_severity severity_from severity_string to_lower lower str_eq
parse_severity-severity_string zero label h e = rw e refl
parse_severity-severity_string (suc zero) label h e = rw e refl
parse_severity-severity_string (suc (suc zero)) label h e = rw e refl
parse_severity-severity_string (suc (suc (suc zero))) label h e = rw e refl
parse_severity-severity_string (suc (suc (suc (suc zero)))) label h e = rw e refl
parse_severity-severity_string (suc (suc (suc (suc (suc zero))))) label h e = rw e refl
parse_severity-severity_string (suc (suc (suc (suc (suc (suc s)))))) label h e =
    absurd (omega arith)
