-- ===== src/ReadingLog/Line.antt =====
-- The identity of a configuration and the lines of the log of src/ReadingLog.h. A `const char *` is the
-- bytes in front of its NUL, a null pointer the empty text; an `int` that the source casts to `unsigned`
-- is the number that it is cast to.
pub mod Clean
use crosspoint_simulator.Prelude.{
  ℕ, zero, suc, ◌+◌, ◌-◌, ◌*◌, ◌/◌, ◌%◌, ◌^◌, bit_xor, Bool, true, false, List, [], ◌∷◌, ◌++◌, ltb,
  ◌==◌, not, if◌then◌else◌, Bytes, codes, ℤ, pos, negsuc,
}
use crosspoint_simulator.Http.Response.{show_number}

-- `ReadingPageSample`.
pub record ReadingPageSample : Type 0 where
  pub book_key : ℕ
  pub spine_index : ℤ
  pub page_in_spine : ℤ
  pub format : Bytes
  pub words : ℕ
  pub chars : ℕ
  pub lines : ℕ
  pub font_family : Bytes
  pub font_point_size : ℕ
  pub font_size_slot : ℕ
  pub line_spacing : ℕ
  pub line_grid_enabled : ℕ
  pub justify_threshold_chars : ℕ
  pub ligatures_enabled : ℕ
  pub ligatures_off : Bytes
  pub line_break_mode : ℕ
  pub screen_margin : ℕ

pub record HostSnapshot : Type 0 where
  pub device : Bytes
  pub render_scale : ℕ
  pub panel_w : ℕ
  pub panel_h : ℕ
  pub dark : Bool
  pub ink : ℕ
  pub paper : ℕ
  pub experiment : Bytes
  pub arm : Bytes
  pub arm_seed : ℕ

-- FNV-1a.
unfoldable pub fnv_bytes : ℕ → Bytes → ℕ
fnv_bytes h [] = h
fnv_bytes h (b ∷ bs) = fnv_bytes ((bit_xor h b * 16777619) % 2 ^ 32) bs

unfoldable pub fnv_str : ℕ → Bytes → ℕ
unfolding fnv_bytes
fnv_str h s = fnv_bytes (fnv_bytes h s) (0 ∷ [])

-- The bytes of the number in memory, the lowest first.
unfoldable pub fnv_u32 : ℕ → ℕ → ℕ
unfolding fnv_bytes
fnv_u32 h v = fnv_bytes h (v % 256 ∷ v / 256 % 256 ∷ v / 256 ^ 2 % 256 ∷ v / 256 ^ 3 % 256 ∷ [])

pub data Hashed : Type 0 where
  str : Bytes → Hashed
  u32 : ℕ → Hashed

unfoldable pub hash : ℕ → List Hashed → ℕ
hash h [] = h
hash h (str s ∷ parts) = hash (fnv_str h s) parts
hash h (u32 v ∷ parts) = hash (fnv_u32 h v) parts

abbrev pub flag : Bool → ℕ
flag b = if b then 1 else 0

abbrev pub hashed : ReadingPageSample → HostSnapshot → List Hashed
hashed s h =
    str s.font_family
    ∷ u32 s.font_point_size
    ∷ u32 s.font_size_slot
    ∷ u32 s.line_spacing
    ∷ u32 s.line_grid_enabled
    ∷ u32 s.justify_threshold_chars
    ∷ u32 s.ligatures_enabled
    ∷ str s.ligatures_off
    ∷ u32 s.line_break_mode
    ∷ u32 s.screen_margin
    ∷ str h.device
    ∷ u32 h.render_scale
    ∷ u32 h.panel_w
    ∷ u32 h.panel_h
    ∷ u32 (flag h.dark)
    ∷ u32 h.ink
    ∷ u32 h.paper
    ∷ str h.experiment
    ∷ str h.arm
    ∷ u32 (h.arm_seed % 2 ^ 32)
    ∷ u32 (h.arm_seed / 2 ^ 32)
    ∷ []

abbrev pub never_zero : ℕ
never_zero = 0x52444347

abbrev pub or_never_zero : ℕ → ℕ
or_never_zero v = if v == 0 then never_zero else v

unfoldable pub config_id : ReadingPageSample → HostSnapshot → ℕ
unfolding hash
config_id s h = or_never_zero (hash 2166136261 (hashed s h))

abbrev pub needs_config_line : ℕ → ℕ → Bool
needs_config_line prev cur = not (prev == cur)

-- A digit of `%X` or `%x`.
abbrev pub nibble : Bool → ℕ → ℕ
nibble upper d = if ltb d 10 then b'0' + d else (if upper then b'A' else b'a') + (d - 10)

-- The last digits of a number in base 16.
unfoldable pub hex_text : Bool → ℕ → ℕ → Bytes
hex_text upper zero v = []
hex_text upper (suc n) v = hex_text upper n (v / 16) ++ nibble upper (v % 16) ∷ []

unfoldable pub escaped_byte : ℕ → Bytes
unfolding hex_text
escaped_byte c =
    if c == b'"'
    then codes "\\\""
    else if c == b'\\'
    then codes "\\\\"
    else if c == b'\n'
    then codes "\\n"
    else if c == b'\r'
    then codes "\\r"
    else if c == b'\t'
    then codes "\\t"
    else if ltb c 32
    then codes "\\u" ++ hex_text false 4 c
    else c ∷ []

unfoldable pub escaped : Bytes → Bytes
escaped [] = []
escaped (c ∷ cs) = escaped_byte c ++ escaped cs

abbrev pub key_text : Bytes → Bytes
key_text key = codes ",\"" ++ key ++ codes "\":"

unfoldable pub add_u : Bytes → ℕ → Bytes
add_u key v = key_text key ++ show_number v

abbrev pub signed : ℤ → Bytes
signed (pos n) = show_number n
signed (negsuc n) = b'-' ∷ show_number (n + 1)

unfoldable pub add_i : Bytes → ℤ → Bytes
add_i key v = key_text key ++ signed v

unfoldable pub add_s : Bytes → Bytes → Bytes
unfolding escaped
add_s key v = key_text key ++ (b'"' ∷ escaped v ++ b'"' ∷ [])

unfoldable pub add_hex : Bytes → ℕ → Bytes
unfolding hex_text
add_hex key rgb = key_text key ++ (b'"' ∷ hex_text true 6 rgb ++ b'"' ∷ [])
