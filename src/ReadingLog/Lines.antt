-- ===== src/ReadingLog/Lines.antt =====
-- Reading the log of src/ReadingLog.h line by line.
use crosspoint_simulator.Prelude.{
  ℕ, ◌≤◌, ◌≡◌, ◌∙◌, refl, ap, sym, subst, Bool, true, false, List, [], ◌∷◌, ◌++◌, append_assoc, map,
  flatten, arith, ◌==◌, if◌then◌else◌, Bytes, All, append-nil, if-cases,
}
use crosspoint_simulator.ReadingLog.Line.Clean.{Clean}
use crosspoint_simulator.ReadingLog.Publish.{Line, text}
use crosspoint_simulator.ReadingLog.Publish.Printed.{text-Clean}
use crosspoint_simulator.ReadingLog.Store.{rotate_bytes, run}
use crosspoint_simulator.ReadingLog.Store.History.{line_text, history}
use crosspoint_simulator.ReadingLog.Store.Runs.{logged, no_files, FitsInto, run-history}

-- The lines of a text that each end with a line feed; `line` is what is read of the next one.
unfoldable pub lines_from : Bytes → Bytes → List Bytes
lines_from line [] = []
lines_from line (c ∷ cs) =
    if c == 10 then line ∷ lines_from [] cs else lines_from (line ++ c ∷ []) cs

-- The calls of `append` for lines that are published, each with the success of its `fopen`.
abbrev pub printed : List (Line × Bool) → List (Bytes × Bool)
printed [] = []
printed ((line, opens) ∷ lines) = (text line, opens) ∷ printed lines

lines_from-line :
    (so_far line rest : Bytes)
    → Clean line
    → lines_from so_far (line ++ 10 ∷ rest) ≡ (so_far ++ line) ∷ lines_from [] rest
unfolding lines_from
lines_from-line so_far [] rest h = ap (λ l. l ∷ lines_from [] rest) (sym (append-nil so_far))
lines_from-line so_far (c ∷ cs) rest (h, clean) =
    if-cases (λ ls. ls ≡ (so_far ++ c ∷ cs) ∷ lines_from [] rest) (c == 10)
      (λ e. ground (arith, e, h))
      (λ _.
        lines_from-line (so_far ++ c ∷ []) cs rest clean
        ∙ ap (λ l. l ∷ lines_from [] rest) (append_assoc so_far (c ∷ []) cs))

lines_from-flatten :
    (lines : List Bytes) → All Clean lines → lines_from [] (flatten (map line_text lines)) ≡ lines
unfolding flatten lines_from
lines_from-flatten [] h = refl
lines_from-flatten (line ∷ lines) (h, clean) =
    ap (lines_from []) (append_assoc line (10 ∷ []) (flatten (map line_text lines)))
    ∙ lines_from-line [] line (flatten (map line_text lines)) h
    ∙ ap (λ ls. line ∷ ls) (lines_from-flatten lines clean)

logged-Clean : (lines : List (Line × Bool)) → All Clean (logged (printed lines))
logged-Clean [] = tt
logged-Clean ((line, true) ∷ lines) = (text-Clean line, logged-Clean lines)
logged-Clean ((line, false) ∷ lines) = logged-Clean lines

behind-Clean : (xs ys : List Bytes) → All Clean (xs ++ ys) → All Clean ys
behind-Clean [] ys h = h
behind-Clean (x ∷ xs) ys h = behind-Clean xs ys h.1

-- However many lines are published, each with its end of at most `room` bytes and these at most 4 MB,
-- and whichever calls of `fopen` fail: the files of the log, from the oldest to the newest, cut at their
-- line feeds are the last of the lines whose `fopen` succeeded, in the order in which they were
-- published, whatever the names and texts in them are.
pub run-lines :
    (room : ℕ) (lines : List (Line × Bool))
    → room ≤ rotate_bytes
    → All (FitsInto room) (printed lines)
    → (lost : List Bytes) × (kept : List Bytes) × (lost ++ kept ≡ logged (printed lines))
      × (lines_from [] (history 12 (run (printed lines) no_files)) ≡ kept)
run-lines room lines small fits =
    let (lost, kept, same, whole, _, _) = run-history room (printed lines) small fits in
    let clean = behind-Clean lost kept (subst (All Clean) (sym same) (logged-Clean lines)) in
    (lost, kept, same, ap (lines_from []) whole ∙ lines_from-flatten kept clean)
