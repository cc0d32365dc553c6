-- ===== src/Executor/Mounts.antt =====
-- executor/executor.cpp: the reading of a line of /proc/mounts.

use Prim.Native.String.{String, ◌++◌}
use Prim.Native.Char.{code}
use text.Mathlib.TextLemmas.{append_assoc, append-nil, nil-append, cons-append}
use mesos_framework.Base.{
  ◌≡◌, refl, ◌≢◌, ◌∙◌, false, ◌||◌, ◌∷◌, none, some, ◌==◌, arith, eq_iff, if◌then◌else◌,
}
use mesos_framework.Base.Int.{is_space}
use mesos_framework.Base.Text.{is_empty}
use mesos_framework.Executor.{words_from, mount_point}

-- A text without blanks.
abbrev pub NoSpace : String → Type 0
NoSpace String.[] = Unit
NoSpace (String.◌∷◌ c s) = (is_space (code c) ≡ false) × NoSpace s

-- A word: a text without blanks that is not empty.
abbrev pub IsWord : String → Type 0
IsWord w = (w ≢ "") × NoSpace w

words_from-append :
    (cur w rest : String)
    → NoSpace w
    → (cur ++ w) ≢ ""
    → words_from cur (w ++ (" " ++ rest)) ≡ (cur ++ w) ∷ words_from "" rest
unfolding words_from
words_from-append cur String.[] rest h filled =
    let some_text : cur ≢ "" = rw append-nil at filled in
    let unfinished : is_empty cur ≡ false = ground (arith, eq_iff cur "") in
    rw (nil-append, append-nil, cons-append, nil-append, unfinished) refl
words_from-append cur (String.◌∷◌ c w) rest (h, k) filled =
    let same : (cur ++ String.◌∷◌ c String.[]) ++ w ≡ cur ++ String.◌∷◌ c w =
      rw (append_assoc, cons-append, nil-append) refl in
    rw (cons-append, h)
      (words_from-append (cur ++ String.◌∷◌ c String.[]) w rest k (rw same filled) ∙ rw same refl)

words_from-word :
    (w rest : String) → IsWord w → words_from "" (w ++ (" " ++ rest)) ≡ w ∷ words_from "" rest
words_from-word w rest (filled, h) =
    words_from-append "" w rest h (rw nil-append filled) ∙ rw nil-append refl

-- A line of /proc/mounts that starts with three words, each of them followed by one blank, is taken
-- for a mount of the second word where the third is ext4 or xfs, and for none where it is not.
pub mount_point-append :
    (what mount type rest : String)
    → IsWord what
    → IsWord mount
    → IsWord type
    → mount_point (what ++ (" " ++ (mount ++ (" " ++ (type ++ (" " ++ rest))))))
      ≡ (if type == "ext4" || type == "xfs" then some mount else none)
unfolding mount_point
mount_point-append what mount type rest a b c =
    rw
      (
        words_from-word what (mount ++ (" " ++ (type ++ (" " ++ rest)))) a,
        words_from-word mount (type ++ (" " ++ rest)) b,
        words_from-word type rest c,
      )
      refl
