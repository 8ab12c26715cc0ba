-- ===== src/Fetch.antt =====
-- src/SimHttpFetch.h: the curl command line of the host's HTTP client.
pub mod Shell
pub mod Command
pub mod Fixtures
mod Tests
use crosspoint_simulator.Prelude.{
  Bool, not, List, [], ◌∷◌, ◌++◌, Option, none, some, ◌==◌, if◌then◌else◌, is_empty, Bytes, codes,
  bytes_eq,
}

unfoldable pub quote_bytes : Bytes → Bytes
quote_bytes [] = []
quote_bytes (c ∷ cs) =
    let rest = quote_bytes cs in
    if c == b'\'' then b'\'' ∷ b'\\' ∷ b'\'' ∷ b'\'' ∷ rest else c ∷ rest

unfoldable pub shell_quote : Bytes → Bytes
unfolding quote_bytes
shell_quote value = b'\'' ∷ quote_bytes value ++ b'\'' ∷ []

-- A null pointer or `GET` adds no method.
unfoldable pub method_part : Option Bytes → Bytes
unfolding shell_quote
method_part none = []
method_part (some method) =
    if bytes_eq method (codes "GET") then [] else codes " -X " ++ shell_quote method

-- The headers in the order of the map.
unfoldable pub header_part : List (Bytes × Bytes) → Bytes
unfolding shell_quote
header_part [] = []
header_part ((name, val) ∷ rest) =
    (codes " -H " ++ shell_quote (name ++ (codes ": " ++ val))) ++ header_part rest

unfoldable pub auth_part : Bytes → Bytes
unfolding shell_quote
auth_part auth = if is_empty auth then [] else codes " -u " ++ shell_quote auth

unfoldable pub body_part : Option Bytes → Bytes
unfolding shell_quote
body_part none = []
body_part (some body) = codes " --data-binary " ++ shell_quote body

unfoldable pub curl_command :
    Bytes → Bytes → Option Bytes → List (Bytes × Bytes) → Bytes → Option Bytes → Bytes
unfolding method_part header_part auth_part body_part
curl_command out_path url method headers auth body =
    codes "curl -L -sS --connect-timeout 10 --speed-limit 1 --speed-time 60 -o"
    ++ ((b' ' ∷ shell_quote out_path)
        ++ (codes " -w '%{http_code}'"
            ++ (method_part method
                ++ (header_part headers
                    ++ (auth_part auth ++ (body_part body ++ (b' ' ∷ shell_quote url)))))))
