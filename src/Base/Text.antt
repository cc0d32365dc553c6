-- ===== src/Base/Text.antt =====
-- `std::string` operations over native texts: `rfind("-")`, `find`, `substr`. Positions count
-- bytes.
use Prim.Native.Nat.{ℕ, ◌+◌}
use Prim.Native.Char.{Char, code}
use Prim.Native.String.{String, [], ◌∷◌, ◌++◌, len, slice}
use mathlib.Core.Path.{◌≡◌, refl, ap, ◌∙◌}
use mathlib.Core.Logic.{◌≢◌}
use mathlib.Core.Option.{Option, none, some}
use mathlib.Core.List.{List}
use native.Mathlib.Omega.{arith}
use native.Mathlib.Nat.{zero-add, add_assoc}
use text.Mathlib.Text.{◌==◌}
use text.Mathlib.TextLemmas.{nil-append, cons-append, append_assoc}
use text.Mathlib.TextPositions.{len-append, slice-append_left, slice-append_right}
use mathlib.Core.Bool.{Bool}
use mesos_framework.Base.Tests.{eqb, if◌then◌else◌}

abbrev pub is_empty : String → Bool
is_empty s = s == ""

abbrev singleton : Char → String
singleton c = c ∷ []

abbrev last_dash : Char → Option ℕ → Option ℕ
last_dash c (some p) = some (len (singleton c) + p)
last_dash c none = if eqb (code c) b'-' then some 0 else none

-- `s.rfind("-")`; `none` is `npos`.
unfoldable pub rfind : String → Option ℕ
rfind [] = none
rfind (c ∷ s) = last_dash c (rfind s)

-- `s.substr(from, count)`
abbrev pub substr : String → ℕ → ℕ → String
substr s from count = slice s from (from + count)

-- `s.substr(from)`
abbrev pub substr_from : String → ℕ → String
substr_from s from = slice s from (len s)

-- A text with no dash.
abbrev pub NoDash : String → Type 0
NoDash [] = Unit
NoDash (c ∷ s) = (code c ≢ b'-') × NoDash s

rfind-NoDash : (s : String) → NoDash s → rfind s ≡ none
unfolding rfind
rfind-NoDash [] h = refl
rfind-NoDash (c ∷ s) (h, k) = ground (arith, rfind-NoDash s k)

-- The last dash of a text is the one before a part that has none.
pub rfind-append : (s t : String) → NoDash t → rfind (s ++ ("-" ++ t)) ≡ some (len s)
unfolding rfind
rfind-append [] t h = rw (nil-append, cons-append, nil-append, rfind-NoDash t h) refl
rfind-append (c ∷ s) t h =
    rw (cons-append, rfind-append s t h, ← len-append (singleton c) s, cons-append, nil-append) refl

-- What stands before the last dash, and behind it.
pub substr-append_left : (s t : String) → substr (s ++ ("-" ++ t)) 0 (len s) ≡ s
substr-append_left s t = rw (zero-add) (slice-append_left s ("-" ++ t))

pub substr_from-append : (s t : String) → substr_from (s ++ ("-" ++ t)) (len s + 1) ≡ t
substr_from-append s t =
    ap (slice (s ++ ("-" ++ t)) (len s + 1)) (len-append s ("-" ++ t))
    ∙ rw (len-append "-" t, ← append_assoc)
        (rw (← add_assoc) (whole (s ++ "-") t (len-append s "-")))
  where
    whole : (u v : String) {n : ℕ} → len u ≡ n → slice (u ++ v) n (n + len v) ≡ v
    whole u v e = rw (← e) (slice-append_right u v)

-- What an output stream holds after it was sent these texts.
abbrev pub concat : List String → String
concat List.[] = ""
concat (List.◌∷◌ s ss) = s ++ concat ss
