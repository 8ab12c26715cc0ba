-- ===== src/ReadingLog/Publish/Explained.antt =====
-- Which configuration a page of the log of src/ReadingLog.h was shown under.
use crosspoint_simulator.Prelude.{
  ℤ, ℕ, ◌≡◌, ◌≢◌, ◌∙◌, refl, sym, ap, true, false, List, [], ◌∷◌, ◌++◌, Option, none, some, arith,
  if◌then◌else◌, codes, bytes_eq, if-cases,
}
use crosspoint_simulator.ReadingLog.Line.{
  ReadingPageSample, HostSnapshot, config_id, needs_config_line, or_never_zero, hash, hashed,
}
use crosspoint_simulator.ReadingLog.Publish.{
  Line, config, page, event, Call, publish_page, publish_boot, publish_sleep, publish_screen,
  publish_under, publish, publish_all,
}

-- Where `current` is the id of the configuration that is known: a line with a configuration has its id
-- and names another one than the last, a page was shown under the configuration that is known, and after
-- the start of the reader none is known.
unfoldable pub Explained : Option ℕ → List Line → Type 0
Explained current [] = Unit
Explained current (config s h cfg ts ms ∷ lines) =
    (cfg ≡ config_id s h) × (current ≢ some cfg) × Explained (some cfg) lines
Explained current (page s cfg ts ms ∷ lines) =
    (current ≡ some cfg) × ((h : HostSnapshot) × (cfg ≡ config_id s h)) × Explained current lines
Explained current (event kind why ts ms ∷ lines) =
    Explained (if bytes_eq kind (codes "boot") then none else current) lines

or_never_zero-positive : (v : ℕ) → or_never_zero v ≢ 0
or_never_zero-positive v e = ground (arith, e)

config_id-positive : (s : ReadingPageSample) (h : HostSnapshot) → config_id s h ≢ 0
unfolding config_id
config_id-positive s h = or_never_zero-positive (hash 2166136261 (hashed s h))

-- The last configuration of the source: 0 is none.
abbrev Agrees : Option ℕ → ℕ → Type 0
Agrees none last_config = last_config ≡ 0
Agrees (some cfg) last_config = last_config ≡ cfg

abbrev id_of : Option ℕ → ℕ
id_of none = 0
id_of (some cfg) = cfg

Agrees-known :
    (current : Option ℕ) (last_config cfg : ℕ)
    → cfg ≢ 0
    → Agrees current last_config
    → last_config ≡ cfg
    → current ≡ some cfg
Agrees-known none last_config cfg positive agrees same = elim (positive (sym same ∙ agrees)) [ ]
Agrees-known (some cfg') last_config cfg positive agrees same = ap some (sym agrees ∙ same)

Agrees-other :
    (current : Option ℕ) (last_config cfg : ℕ)
    → Agrees current last_config
    → last_config ≢ cfg
    → current ≢ some cfg
Agrees-other none last_config cfg agrees other e = cc
Agrees-other (some cfg') last_config cfg agrees other e = other (agrees ∙ ap id_of e)

-- Lines after which the rest is explained.
abbrev Then : Option ℕ → List Line → List Line × ℕ → Type 0
Then current rest (lines, next) =
    ((known : Option ℕ) → Agrees known next → Explained known rest)
    → Explained current (lines ++ rest)

needed-other : (last_config cfg : ℕ) → needs_config_line last_config cfg ≡ true → last_config ≢ cfg
needed-other last_config cfg needed e = ground (arith, needed, e)

unneeded-same :
    (last_config cfg : ℕ) → needs_config_line last_config cfg ≡ false → last_config ≡ cfg
unneeded-same last_config cfg same = ground (arith, same)

under-Then :
    (current : Option ℕ) (last_config : ℕ) (rest : List Line) (s : ReadingPageSample)
    (h : HostSnapshot) (ts : ℤ) (ms : ℕ)
    → Agrees current last_config
    → Then current rest (publish_under (config_id s h) last_config s h ts ms)
unfolding Explained
under-Then current last_config rest s h ts ms agrees =
    let cfg = config_id s h in
    if-cases (Then current rest) (needs_config_line last_config cfg)
      (λ needed known. (
        refl,
        Agrees-other current last_config cfg agrees (needed-other last_config cfg needed),
        (refl, (h, refl), known (some cfg) refl),
      ))
      (λ same known. (
        Agrees-known current last_config cfg (config_id-positive s h) agrees
            (unneeded-same last_config cfg same),
        (h, refl),
        known current agrees,
      ))

publish-Then :
    (current : Option ℕ) (last_config : ℕ) (rest : List Line) (call : Call)
    → Agrees current last_config
    → Then current rest (publish last_config call)
unfolding publish Explained bytes_eq
publish-Then current last_config rest (publish_page s h ts ms) agrees =
    under-Then current last_config rest s h ts ms agrees
publish-Then current last_config rest (publish_boot ts ms) agrees = λ known. known none refl
publish-Then current last_config rest (publish_sleep why ts ms) agrees =
    λ known. known current agrees
publish-Then current last_config rest (publish_screen screen_key ts ms) agrees =
    λ known. known current agrees

publish_all-Agrees :
    (current : Option ℕ) (last_config : ℕ) (calls : List Call)
    → Agrees current last_config
    → Explained current (publish_all last_config calls)
unfolding publish_all Explained
publish_all-Agrees current last_config [] agrees = tt
publish_all-Agrees current last_config (call ∷ calls) agrees =
    let next = (publish last_config call).1 in
    publish-Then current last_config (publish_all next calls) call agrees
      (λ known same. publish_all-Agrees known next calls same)

-- Whatever is published since the program started: each line of a page has the id of the last line of a
-- configuration in front of it, with none but page, sleep and screen lines in between, and that id is
-- the one of its own settings with some state of the host; and a line of a configuration has its own id
-- and is written only where that is not the id of the last one since the reader started.
pub publish_all-Explained : (calls : List Call) → Explained none (publish_all 0 calls)
publish_all-Explained calls = publish_all-Agrees none 0 calls refl
