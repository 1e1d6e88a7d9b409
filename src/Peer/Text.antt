-- ===== src/Peer/Text.antt =====
-- Texts as the bytes of their characters.
pub mod Entries
use Prim.Native.Char.{code}
use Prim.Native.String.{String}
use sprinter_3c509b.Base.{
  ℕ, zero, suc, ◌+◌, ◌-◌, ◌/◌, ◌%◌, ◌&&◌, ◌==◌, not, Option, none, some, List, [], ◌∷◌, ◌++◌, ltb,
  leb, if◌then◌else◌, Bytes, equal,
}

-- `String(n)`; a number has fewer digits than it counts, so `n + 1` is enough fuel.
abbrev pub digits : ℕ → ℕ → Bytes → Bytes
digits zero n behind = behind
digits (suc fuel) n behind =
    let rest = digits fuel (n / 10) ((48 + n % 10) ∷ behind) in
    if ltb n 10 then (48 + n) ∷ behind else rest

unfoldable pub decimal : ℕ → Bytes
decimal n = digits (suc n) n []

-- `toUpperCase` of a character of Latin-1: a letter moves down by 32, µ and ÿ leave Latin-1, and ß
-- becomes SS.
abbrev pub upper_of : ℕ → Bytes
upper_of c =
    if leb 97 c && leb c 122
    then (c - 32) ∷ []
    else if leb 0xe0 c && leb c 0xfe && not (c == 0xf7)
    then (c - 32) ∷ []
    else if c == 0xb5
    then 0x39c ∷ []
    else if c == 0xff
    then 0x178 ∷ []
    else if c == 0xdf
    then 83 ∷ 83 ∷ []
    else c ∷ []

-- `toUpperCase`, on a text of such characters.
abbrev pub upper : Bytes → Bytes
upper [] = []
upper (c ∷ cs) = upper_of c ++ upper cs

-- The value under a name, whatever the case of its letters.
abbrev pub named : Bytes → List (Bytes × Bytes) → Option Bytes
named name [] = none
named name ((key, value) ∷ entries) =
    if equal (upper key) (upper name) then some value else named name entries

-- `object[name]`, `object[name] = value` and `delete object[name]`, on the texts under their names.
abbrev pub value_of : Bytes → List (Bytes × Bytes) → Option Bytes
value_of name [] = none
value_of name ((key, value) ∷ entries) =
    if equal key name then some value else value_of name entries

abbrev pub with_value : Bytes → Bytes → List (Bytes × Bytes) → List (Bytes × Bytes)
with_value name value [] = (name, value) ∷ []
with_value name value ((key, old) ∷ entries) =
    let others = with_value name value entries in
    if equal key name then (key, value) ∷ entries else (key, old) ∷ others

abbrev pub without_value : Bytes → List (Bytes × Bytes) → List (Bytes × Bytes)
without_value name [] = []
without_value name ((key, value) ∷ entries) =
    let others = without_value name entries in
    if equal key name then others else (key, value) ∷ others

-- A literal of the source, which is ASCII.
abbrev pub codes : String → Bytes
codes String.[] = []
codes (String.◌∷◌ c s) = code c ∷ codes s

-- The line up to its first space, and what is behind that space.
abbrev pub word_of : Bytes → Bytes
word_of [] = []
word_of (c ∷ cs) = if c == 32 then [] else c ∷ word_of cs

abbrev pub argument_of : Bytes → Bytes
argument_of [] = []
argument_of (c ∷ cs) = if c == 32 then cs else argument_of cs

-- `a || b` at a text: an empty one counts as missing.
abbrev pub or_text : Bytes → Bytes → Bytes
or_text [] b = b
or_text (c ∷ cs) b = c ∷ cs

abbrev pub joined : List Bytes → Bytes
joined [] = []
joined (chunk ∷ chunks) = chunk ++ joined chunks
