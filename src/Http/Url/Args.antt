-- ===== src/Http/Url/Args.antt =====
-- What `parseArgs` makes of a query string or of a form's body.
use crosspoint_simulator.Prelude.{
  ℕ, ◌+◌, Bool, true, false, List, [], ◌∷◌, ◌++◌, Bytes, map, find, all, drop, ◌≡◌, not,
  starts_with, ◌==◌, refl, length, All, ap, take-append, arith, ◌∙◌, ap₂,
}
use crosspoint_simulator.Http.Url.{
  items, arg_at, arg_of, args_of, parse_args, some, is_empty, suc, url_decode,
}
use crosspoint_simulator.Http.Url.Spelling.{Spelling, value, spelled, url_decode-spelled}

-- A field of a form: a name and a value, with their spelling.
abbrev pub Field : Type 0
Field = List Spelling × List Spelling

abbrev pub not_amp : ℕ → Bool
not_amp c = not (c == b'&')

abbrev pub in_name : ℕ → Bool
in_name c = not (c == b'=')

-- The name's spelling has no `=` and no `&`, the value's no `&`.
abbrev pub Framed : Field → Type 0
Framed (name, val) =
    (all in_name (spelled name) ≡ true)
    × (all not_amp (spelled name) ≡ true)
    × (all not_amp (spelled val) ≡ true)

abbrev pub field_text : Field → Bytes
field_text (name, val) = spelled name ++ b'=' ∷ spelled val

abbrev pub form_text : List Field → Bytes
form_text [] = []
form_text (f ∷ []) = field_text f
form_text (f ∷ g ∷ fs) = field_text f ++ b'&' ∷ form_text (g ∷ fs)

abbrev pub field_value : Field → Bytes × Bytes
field_value (name, val) = (map value name, map value val)

pub find-name :
    (name rest : Bytes)
    → all in_name name ≡ true
    → find (b'=' ∷ []) (name ++ b'=' ∷ rest) ≡ some (length name)
unfolding find starts_with
find-name [] rest h = refl
find-name (c ∷ name) rest h = ground (arith, find-name name rest)

items-one : (item : Bytes) → all not_amp item ≡ true → items item ≡ item ∷ []
unfolding items
items-one [] h = refl
items-one (c ∷ item) h = ground (arith, items-one item)

items-more :
    (item rest : Bytes) → all not_amp item ≡ true → items (item ++ b'&' ∷ rest) ≡ item ∷ items rest
unfolding items
items-more [] rest h = refl
items-more (c ∷ item) rest h = ground (arith, items-more item rest)

all-append :
    (p : ℕ → Bool) (xs ys : Bytes) → all p xs ≡ true → all p ys ≡ true → all p (xs ++ ys) ≡ true
all-append p [] ys h k = k
all-append p (x ∷ xs) ys h k = ground (arith, all-append p xs ys)

pub drop-name : (name rest : Bytes) (c : ℕ) → drop (length name + 1) (name ++ c ∷ rest) ≡ rest
drop-name [] rest c = refl
drop-name (b ∷ name) rest c =
    ap (λ n. drop n (b ∷ name ++ c ∷ rest)) {x = suc (length name) + 1} {y = suc (length name + 1)}
      (omega arith)
    ∙ drop-name name rest c

is_empty-append : (xs ys : Bytes) (c : ℕ) → is_empty (xs ++ c ∷ ys) ≡ false
is_empty-append [] ys c = refl
is_empty-append (x ∷ xs) ys c = refl

arg_of-field : (f : Field) → Framed f → arg_of (field_text f) ≡ field_value f
unfolding arg_of arg_at
arg_of-field (name, val) h =
    let n = spelled name in
    let v = spelled val in
    ap (arg_at (n ++ b'=' ∷ v)) (find-name n v h.0)
    ∙ ap₂ (λ (a b : Bytes). (a, b))
        (ap url_decode (take-append n (b'=' ∷ v)) ∙ url_decode-spelled name)
        (ap url_decode (drop-name n v b'=') ∙ url_decode-spelled val)

pub field-not_amp : (f : Field) → Framed f → all not_amp (field_text f) ≡ true
field-not_amp (name, val) h = all-append not_amp (spelled name) (b'=' ∷ spelled val) h.1 h.2

args_of-cons :
    (f : Field) (rest : List Bytes)
    → Framed f
    → args_of (field_text f ∷ rest) ≡ field_value f ∷ args_of rest
unfolding args_of
args_of-cons (name, val) rest h =
    rw (is_empty-append (spelled name) (spelled val) b'=', arg_of-field (name, val) h) refl

-- A query string or form of fields joined by `&`, each a spelled name, an equals sign and a spelled
-- value, is parsed into the names and values that were spelled, in order: empty names and values
-- too, and whatever bytes they hold. No name spells an equals sign by itself and nothing an
-- ampersand.
pub parse_args-form :
    (fs : List Field) → All Framed fs → parse_args (form_text fs) ≡ map field_value fs
unfolding parse_args
parse_args-form [] h = refl
parse_args-form (f ∷ []) h =
    ap args_of (items-one (field_text f) (field-not_amp f h.0)) ∙ args_of-cons f [] h.0
parse_args-form (f ∷ g ∷ fs) h =
    ap args_of (items-more (field_text f) (form_text (g ∷ fs)) (field-not_amp f h.0))
    ∙ args_of-cons f (items (form_text (g ∷ fs))) h.0
    ∙ ap (◌∷◌ (field_value f)) (parse_args-form (g ∷ fs) h.1)
