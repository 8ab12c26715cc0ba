-- ===== src/Fetch/Command.antt =====
-- The curl command as the shell reads it.
use crosspoint_simulator.Prelude.{
  if-both, if◌then◌else◌, is_empty, bytes_eq, List, [], ◌∷◌, ◌++◌, Option, none, some,
  if◌then◌else◌, Bytes, codes, ◌≡◌, ap, sym, append-nil, refl, ◌∙◌,
}
use crosspoint_simulator.Fetch.Shell.{
  between, within, words_in, word_before, words_before, Adds, Adds-nil, Adds-append, argument-Adds,
}
use crosspoint_simulator.Fetch.{
  shell_quote, header_part, curl_command, method_part, auth_part, body_part,
}

x-Adds : (v : Bytes) → Adds (codes " -X " ++ shell_quote v) (codes "-X" ∷ v ∷ [])
unfolding words_in
x-Adds v rest r e w = ap (word_before w) (argument-Adds v rest r e (codes "-X"))

h-Adds : (v : Bytes) → Adds (codes " -H " ++ shell_quote v) (codes "-H" ∷ v ∷ [])
unfolding words_in
h-Adds v rest r e w = ap (word_before w) (argument-Adds v rest r e (codes "-H"))

u-Adds : (v : Bytes) → Adds (codes " -u " ++ shell_quote v) (codes "-u" ∷ v ∷ [])
unfolding words_in
u-Adds v rest r e w = ap (word_before w) (argument-Adds v rest r e (codes "-u"))

data-Adds :
    (v : Bytes) → Adds (codes " --data-binary " ++ shell_quote v) (codes "--data-binary" ∷ v ∷ [])
unfolding words_in
data-Adds v rest r e w = ap (word_before w) (argument-Adds v rest r e (codes "--data-binary"))

code-Adds : Adds (codes " -w '%{http_code}'") (codes "-w" ∷ codes "%{http_code}" ∷ [])
unfolding words_in
code-Adds rest r e w =
    ap (λ o. word_before w (word_before (codes "-w") o)) (e (codes "%{http_code}"))

-- The arguments that each part stands for.
abbrev pub method_words : Option Bytes → List Bytes
method_words none = []
method_words (some method) = if bytes_eq method (codes "GET") then [] else codes "-X" ∷ method ∷ []

abbrev pub header_words : List (Bytes × Bytes) → List Bytes
header_words [] = []
header_words ((name, val) ∷ rest) =
    (codes "-H" ∷ (name ++ (codes ": " ++ val)) ∷ []) ++ header_words rest

abbrev pub auth_words : Bytes → List Bytes
auth_words auth = if is_empty auth then [] else codes "-u" ∷ auth ∷ []

abbrev pub body_words : Option Bytes → List Bytes
body_words none = []
body_words (some body) = codes "--data-binary" ∷ body ∷ []

method_part-Adds : (method : Option Bytes) → Adds (method_part method) (method_words method)
unfolding method_part
method_part-Adds none = Adds-nil
method_part-Adds (some method) =
    if-both (λ p ws. Adds p ws) (bytes_eq method (codes "GET")) (λ _. Adds-nil) (λ _. x-Adds method)

header_part-Adds :
    (headers : List (Bytes × Bytes)) → Adds (header_part headers) (header_words headers)
unfolding header_part
header_part-Adds [] = Adds-nil
header_part-Adds ((name, val) ∷ rest) =
    let line = name ++ (codes ": " ++ val) in
    Adds-append (codes " -H " ++ shell_quote line) (header_part rest) (codes "-H" ∷ line ∷ [])
      (header_words rest) (h-Adds line) (header_part-Adds rest)

auth_part-Adds : (auth : Bytes) → Adds (auth_part auth) (auth_words auth)
unfolding auth_part
auth_part-Adds auth = if-both (λ p ws. Adds p ws) (is_empty auth) (λ _. Adds-nil) (λ _. u-Adds auth)

body_part-Adds : (body : Option Bytes) → Adds (body_part body) (body_words body)
unfolding body_part
body_part-Adds none = Adds-nil
body_part-Adds (some body) = data-Adds body

abbrev pub curl_words :
    Bytes → Bytes → Option Bytes → List (Bytes × Bytes) → Bytes → Option Bytes → List Bytes
curl_words out_path url method headers auth body =
    codes "curl"
    ∷ codes "-L"
    ∷ codes "-sS"
    ∷ codes "--connect-timeout"
    ∷ codes "10"
    ∷ codes "--speed-limit"
    ∷ codes "1"
    ∷ codes "--speed-time"
    ∷ codes "60"
    ∷ codes "-o"
    ∷ out_path
    ∷ codes "-w"
    ∷ codes "%{http_code}"
    ∷ (method_words method
        ++ (header_words headers ++ (auth_words auth ++ (body_words body ++ url ∷ []))))

words_before-some : (ws : List Bytes) → words_before ws (some []) ≡ some ws
words_before-some [] = refl
words_before-some (w ∷ ws) = ap (word_before w) (words_before-some ws)

-- Adds with nothing behind it.
Adds-end :
    (part w : Bytes) (ws : List Bytes) → Adds part ws → words_in (within w) part ≡ some (w ∷ ws)
unfolding words_in
Adds-end part w ws h =
    ap (words_in (within w)) (sym (append-nil part))
    ∙ h [] (some []) (λ v. refl) w
    ∙ ap (word_before w) (words_before-some ws)

abbrev curl_and_options : List Bytes
curl_and_options =
    codes "curl"
    ∷ codes "-L"
    ∷ codes "-sS"
    ∷ codes "--connect-timeout"
    ∷ codes "10"
    ∷ codes "--speed-limit"
    ∷ codes "1"
    ∷ codes "--speed-time"
    ∷ codes "60"
    ∷ []

abbrev options : Bytes → Bytes → Option Bytes → List (Bytes × Bytes) → Bytes → Option Bytes → Bytes
options out_path url method headers auth body =
    (b' ' ∷ shell_quote out_path)
    ++ (codes " -w '%{http_code}'"
        ++ (method_part method
            ++ (header_part headers
                ++ (auth_part auth ++ (body_part body ++ b' ' ∷ shell_quote url)))))

options-Adds :
    (out_path url : Bytes) (method : Option Bytes) (headers : List (Bytes × Bytes)) (auth : Bytes)
    (body : Option Bytes)
    → Adds (options out_path url method headers auth body) (
        out_path
        ∷ codes "-w"
        ∷ codes "%{http_code}"
        ∷ (method_words method
            ++ (header_words headers ++ (auth_words auth ++ (body_words body ++ url ∷ [])))))
options-Adds out_path url method headers auth body =
    let u = b' ' ∷ shell_quote url in
    let p1 = body_part body ++ u in
    let w1 = body_words body ++ url ∷ [] in
    let p2 = auth_part auth ++ p1 in
    let w2 = auth_words auth ++ w1 in
    let p3 = header_part headers ++ p2 in
    let w3 = header_words headers ++ w2 in
    let p4 = method_part method ++ p3 in
    let w4 = method_words method ++ w3 in
    let code = codes " -w '%{http_code}'" in
    let code_words = codes "-w" ∷ codes "%{http_code}" ∷ [] in
    Adds-append (b' ' ∷ shell_quote out_path) (code ++ p4) (out_path ∷ []) (code_words ++ w4)
      (argument-Adds out_path)
      (Adds-append code p4 code_words w4 code-Adds (
        Adds-append (method_part method) p3 (method_words method) w3 (method_part-Adds method) (
          Adds-append (header_part headers) p2 (header_words headers) w2 (header_part-Adds headers)
            (Adds-append (auth_part auth) p1 (auth_words auth) w1 (auth_part-Adds auth) (
              Adds-append (body_part body) u (body_words body) (url ∷ []) (body_part-Adds body)
                (argument-Adds url))))))

-- Whatever bytes the paths, headers, credentials, body and URL hold, quotes and line ends included,
-- the text of the command, read by the shell's rules, is one call of curl with exactly these
-- arguments: no value ends its quotes, becomes two arguments or runs anything else. (The text is
-- handed over as a C string, so a value with a NUL byte would cut it short.)
pub curl_command-words :
    (out_path url : Bytes) (method : Option Bytes) (headers : List (Bytes × Bytes)) (auth : Bytes)
    (body : Option Bytes)
    → words_in between (curl_command out_path url method headers auth body)
      ≡ some (curl_words out_path url method headers auth body)
unfolding words_in curl_command
curl_command-words out_path url method headers auth body = ap (words_before curl_and_options) (
    Adds-end (options out_path url method headers auth body) (codes "-o") _
      (options-Adds out_path url method headers auth body))
