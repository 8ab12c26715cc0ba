-- ===== src/Fetch/Shell.antt =====
-- What a POSIX shell makes of the command: the arguments, each as it was given.
use crosspoint_simulator.Prelude.{
  if◌then◌else◌, Bool, List, [], ◌∷◌, ◌++◌, Option, none, some, ◌==◌, if◌then◌else◌, any, Bytes,
  codes, ◌≡◌, ℕ, ap, sym, append-nil, refl, Bool-cases, append_assoc, ◌∙◌, inl, ==_iff, inr,
}
use crosspoint_simulator.Fetch.{quote_bytes, shell_quote}

-- The characters that a shell does not take as themselves outside quotes, but for the space, the
-- single quote and the backslash.
abbrev special : Bytes
special = codes "\"$`|&;<>()*?[]#~=!{}\t\n"

abbrev pub is_special : ℕ → Bool
is_special c = any (λ s. c == s) special

abbrev pub word_before : Bytes → Option (List Bytes) → Option (List Bytes)
word_before w none = none
word_before w (some ws) = some (w ∷ ws)

-- Between words, inside a word, behind a backslash, or inside single quotes.
pub data Mode : Type 0 where
  between : Mode
  within escaped quoted : Bytes → Mode

-- The words of a simple command by the rules of the shell's grammar; `none` where a character means
-- more than itself or a quote is not closed.
unfoldable pub words_in : Mode → Bytes → Option (List Bytes)
words_in between [] = some []
words_in (within w) [] = some (w ∷ [])
words_in (escaped w) [] = none
words_in (quoted w) [] = none
words_in between (c ∷ cs) =
    if c == b' '
    then words_in between cs
    else if c == b'\''
    then words_in (quoted []) cs
    else if c == b'\\'
    then words_in (escaped []) cs
    else if is_special c
    then none
    else words_in (within (c ∷ [])) cs
words_in (within w) (c ∷ cs) =
    if c == b' '
    then word_before w (words_in between cs)
    else if c == b'\''
    then words_in (quoted w) cs
    else if c == b'\\'
    then words_in (escaped w) cs
    else if is_special c
    then none
    else words_in (within (w ++ c ∷ [])) cs
words_in (escaped w) (c ∷ cs) = words_in (within (w ++ c ∷ [])) cs
words_in (quoted w) (c ∷ cs) =
    if c == b'\'' then words_in (within w) cs else words_in (quoted (w ++ c ∷ [])) cs

quoted-quote_bytes :
    (v w rest : Bytes)
    → words_in (quoted w) (quote_bytes v ++ b'\'' ∷ rest) ≡ words_in (within (w ++ v)) rest
unfolding words_in quote_bytes
quoted-quote_bytes [] w rest = ap (λ u. words_in (within u) rest) (sym (append-nil w))
quoted-quote_bytes (c ∷ v) w rest = elim (Bool-cases (c == b'\'')) [
  | inl h ↦ rw h (
      quoted-quote_bytes v (w ++ b'\'' ∷ []) rest
      ∙ ap (λ u. words_in (within u) rest)
          (append_assoc w (b'\'' ∷ []) v ∙ ap (λ d. w ++ d ∷ v) (sym ((==_iff c b'\'').0 h))))
  | inr h ↦
      rw (h, h)
        (quoted-quote_bytes v (w ++ c ∷ []) rest
          ∙ ap (λ u. words_in (within u) rest) (append_assoc w (c ∷ []) v))
]

-- Inside a word, a quoted value adds itself to the word.
within-shell_quote :
    (v w rest : Bytes)
    → words_in (within w) (shell_quote v ++ rest) ≡ words_in (within (w ++ v)) rest
unfolding words_in shell_quote
within-shell_quote v w rest =
    ap (λ u. words_in (quoted w) u) (append_assoc (quote_bytes v) (b'\'' ∷ []) rest)
    ∙ quoted-quote_bytes v w rest

-- The rest of a command reads as the words of `r`, whatever word comes before it.
abbrev pub Reads : Bytes → Option (List Bytes) → Type 0
Reads rest r = (w : Bytes) → words_in (within w) rest ≡ word_before w r

abbrev pub words_before : List Bytes → Option (List Bytes) → Option (List Bytes)
words_before [] r = r
words_before (w ∷ ws) r = word_before w (words_before ws r)

-- A part of a command adds the words `ws`.
abbrev pub Adds : Bytes → List Bytes → Type 0
Adds part ws =
    (rest : Bytes) (r : Option (List Bytes))
    → Reads rest r
    → Reads (part ++ rest) (words_before ws r)

pub Adds-nil : Adds [] []
Adds-nil rest r h = h

words_before-append :
    (xs ys : List Bytes) (r : Option (List Bytes))
    → words_before xs (words_before ys r) ≡ words_before (xs ++ ys) r
words_before-append [] ys r = refl
words_before-append (x ∷ xs) ys r = ap (word_before x) (words_before-append xs ys r)

pub Adds-append :
    (p q : Bytes) (xs ys : List Bytes) → Adds p xs → Adds q ys → Adds (p ++ q) (xs ++ ys)
Adds-append p q xs ys h k rest r e w =
    ap (words_in (within w)) (append_assoc p q rest)
    ∙ h (q ++ rest) (words_before ys r) (k rest r e) w
    ∙ ap (word_before w) (words_before-append xs ys r)

-- A space and a quoted value.
pub argument-Adds : (v : Bytes) → Adds (b' ' ∷ shell_quote v) (v ∷ [])
unfolding words_in shell_quote
argument-Adds v rest r e w = ap (word_before w) (
    ap (words_in (quoted [])) (append_assoc (quote_bytes v) (b'\'' ∷ []) rest)
    ∙ quoted-quote_bytes v [] rest
    ∙ e v)
