-- ===== src/Environ/Laws.antt =====
-- Which variable has which effect.
use ctfuzz.Base.{
  ℕ, zero, suc, ◌≡◌, refl, ap, ap₂, ◌∙◌, Bool, true, false, Bool-cases, inl, inr, some, List, [],
  ◌∷◌, ◌++◌, ◌==◌, ==_iff, if◌then◌else◌, if-true, if-false, length, get_elem?, All, arith,
}
use mathlib.Core.Path.{sym, subst}
use ctfuzz.Base.Text.{codes}
use ctfuzz.State.{Text}
use ctfuzz.Environ.{Settings, Rule, apply, chain, first_rules, second_rules, last_rules}
use ctfuzz.Environ.Read.{
  strncmp_eq, equals_sign, is_named, find_name, find_rule, Outside, read_afl, read_entry,
}

abbrev pub has_equals : Text → Bool
has_equals [] = false
has_equals (c ∷ cs) = if c == equals_sign then true else has_equals cs

-- `name=value`
abbrev pub assigned : Text → Text → Text
assigned name value = name ++ equals_sign ∷ value

-- The rule is the one that the chain takes for the name of its literal.
abbrev IsOwn : Rule → Type 0
IsOwn r =
    (value : Text)
    → (find_rule (assigned r.0 value) (length r.0) chain ≡ r.1)
      × (strncmp_eq 4 (assigned r.0 value) (codes "ALF_") ≡ false)
      × (strncmp_eq 4 (assigned r.0 value) (codes "USE_") ≡ false)
      × (strncmp_eq 4 (assigned r.0 value) (codes "AFL_") ≡ true)
      × (has_equals r.0 ≡ false)

first-IsOwn : All IsOwn first_rules
unfolding find_rule strncmp_eq
first-IsOwn = ground arith

second-IsOwn : All IsOwn second_rules
unfolding find_rule strncmp_eq
second-IsOwn = ground arith

last-IsOwn : All IsOwn last_rules
unfolding find_rule strncmp_eq
last-IsOwn = ground arith

All-append : {A : Type 0} (P : A → Type 0) (xs ys : List A) → All P xs → All P ys → All P (xs ++ ys)
All-append P [] ys hx hy = hy
All-append P (x ∷ xs) ys hx hy = (hx.0, All-append P xs ys hx.1 hy)

All-get_elem? :
    {A : Type 0} (P : A → Type 0) (xs : List A) (i : ℕ) (x : A)
    → All P xs
    → get_elem? xs i ≡ some x
    → P x
All-get_elem? P [] i x h e = cc
All-get_elem? P (y ∷ ys) zero x h e = subst P {x = y} {y = x} (cc e) h.0
All-get_elem? P (y ∷ ys) (suc i) x h e = All-get_elem? P ys i x h.1 e

chain-IsOwn : (i : ℕ) (r : Rule) → get_elem? chain i ≡ some r → IsOwn r
chain-IsOwn i r e =
    All-get_elem? IsOwn chain i r
      (All-append IsOwn first_rules (second_rules ++ last_rules) first-IsOwn
        (All-append IsOwn second_rules last_rules second-IsOwn last-IsOwn))
      e

is_named_self : (name value : Text) → is_named (assigned name value) name ≡ true
unfolding is_named strncmp_eq
is_named_self [] value = refl
is_named_self (c ∷ cs) value = ground (arith, is_named_self cs value)

-- A name without `=` is the whole text in front of the first `=`.
is_named_eq :
    (name other value : Text)
    → has_equals name ≡ false
    → has_equals other ≡ false
    → is_named (assigned name value) other ≡ true
    → other ≡ name
unfolding is_named strncmp_eq
is_named_eq [] [] value h h' e = refl
is_named_eq [] (d ∷ ds) value h h' e = ground arith
is_named_eq (c ∷ cs) [] value h h' e = ground arith
is_named_eq (c ∷ cs) (d ∷ ds) value h h' e = elim (Bool-cases (c == d)) [
  | inl same ↦
      ap₂ ◌∷◌ (sym ((==_iff c d).0 same))
        (is_named_eq cs ds value (ground (arith, h)) (ground (arith, h')) (rw same at e))
  | inr other ↦ cc (rw other at e)
]

find_name_lem :
    (names : List Text) (j : ℕ) (name value : Text)
    → has_equals name ≡ false
    → All (λ n. has_equals n ≡ false) names
    → get_elem? names j ≡ some name
    → find_name (assigned name value) names ≡ some name
unfolding find_name
find_name_lem [] j name value h all e = cc
find_name_lem (n ∷ ns) zero name value h all e =
    let same : n ≡ name = cc e in
    if-true (is_named (assigned name value) n) (some n) (find_name (assigned name value) ns)
      (rw same (is_named_self name value))
    ∙ ap some same
find_name_lem (n ∷ ns) (suc j) name value h all e =
    elim (Bool-cases (is_named (assigned name value) n)) [
      | inl found ↦ if-true _ _ _ found ∙ ap some (is_named_eq name n value h all.0 found)
      | inr other ↦ if-false _ _ _ other ∙ find_name_lem ns j name value h all.1 e
    ]

module _ (out : Outside) where
  -- A variable whose name stands in the table and in the chain takes the branch that compares with
  -- its own name, and no other: the comparisons with longer or earlier names do not shadow it. The
  -- names of the table hold no `=`.
  pub read_entry-rule :
      (i j : ℕ) (r : Rule) (value : Text) (s : Settings)
      → get_elem? chain i ≡ some r
      → get_elem? out.variables j ≡ some r.0
      → All (λ n. has_equals n ≡ false) out.variables
      → read_entry out (assigned r.0 value) s ≡ apply out.atoi r.1 (out.get_afl_env r.0) s
  unfolding read_entry read_afl
  read_entry-rule i j r value s in_chain in_table clean =
      let own = chain-IsOwn i r in_chain value in
      let named = find_name_lem out.variables j r.0 value own.4 clean in_table in
      if-false _ _ _ own.1
      ∙ if-false _ _ _ own.2
      ∙ if-true _ _ _ own.3
      ∙ rw (read_afl, named) (ap (λ act. apply out.atoi act (out.get_afl_env r.0) s) own.0)
