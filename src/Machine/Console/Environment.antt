-- ===== src/Machine/Console/Environment.antt =====
-- SETENV and GETENV.
use sprinter_3c509b.Base.{
  ◌≡◌, refl, ap, ◌∙◌, false, Option, none, some, [], ◌∷◌, ◌++◌, ◌==◌, if◌then◌else◌, if_false,
  Bool-cases, inl, inr, Bytes, equal, arith,
}
use sprinter_3c509b.Machine.{done}
use sprinter_3c509b.Machine.Console.{
  Console, add_to_name, split_assignment, get_env, put_value, assign_split, assign,
}
use sprinter_3c509b.Peer.Tcp.Drain.{is_nil, includes}
use sprinter_3c509b.Peer.Text.{upper}
use sprinter_3c509b.Peer.Text.Entries.{value_of-with, value_of-without}

-- An assignment splits at its first `=`.
split_assignment-append :
    (name value : Bytes)
    → includes name 61 ≡ false
    → split_assignment (name ++ (61 ∷ value)) ≡ some (name, value)
split_assignment-append [] value h = refl
split_assignment-append (c ∷ cs) value h =
    let first : c == 61 ≡ false = ground arith in
    let others : includes cs 61 ≡ false = ground arith in
    if_false (c == 61) (some ([], cs ++ (61 ∷ value)))
      (add_to_name c (split_assignment (cs ++ (61 ∷ value)))) first
    ∙ ap (add_to_name c) (split_assignment-append cs value others)

-- What a name reads once another has been set.
abbrev pub read_back : Bytes → Bytes → Bytes → Console → Option Bytes
read_back name value other c =
    if equal (upper name) (upper other)
    then (if is_nil value then none else some value)
    else get_env other c

put_value-get_env :
    (name value other : Bytes) (c : Console)
    → get_env other (put_value name value c) ≡ read_back name value other c
unfolding get_env
put_value-get_env name value other c = elim (Bool-cases (is_nil value)) [
  | inl e ↦ rw e (value_of-without (upper name) (upper other) c.environment)
  | inr e ↦ rw e (value_of-with (upper name) value (upper other) c.environment)
]

-- What SETENV sets, GETENV reads: after `name=value` the name has that value, or none where the
-- value is empty, and every other name has the value that it had. Names are the same whatever the
-- case of their letters, those of Latin-1 included; the name is not empty, and has no `=`.
pub assign-get_env :
    (name value : Bytes) (c : Console)
    → is_nil name ≡ false
    → includes name 61 ≡ false
    → (d : Console) × (assign (name ++ (61 ∷ value)) c ≡ done d)
      × ((other : Bytes) → get_env other d ≡ read_back name value other c)
unfolding assign
assign-get_env name value c named no_sign = (
  put_value name value c,
  ap (assign_split c) (split_assignment-append name value no_sign)
      ∙ if_false (is_nil name) _ (done (put_value name value c)) named,
  λ other. put_value-get_env name value other c,
)
