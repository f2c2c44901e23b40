-- ===== src/XLine/Reload.antt =====
-- Bans that are saved as text and loaded again.
use echoi_rcd.Prelude.{
  ℕ, List, [], ◌∷◌, ◌++◌, append_assoc, append-nil, map, retain, All, ◌≡◌, refl, sym, ap, some,
  lines, lines-append, ◌∙◌, Bool-cases, inl, inr,
}
use echoi_rcd.XLine.Kinds.{XLine}
use echoi_rcd.XLine.Db.{
  IsStorable, IsOneLine, write_db_line, write_db_line-Lacks, write_db_line-ends,
  parse_db_line-write_db_line,
}
use echoi_rcd.XLine.Match.{is_active}
use echoi_rcd.XLine.Table.{load_lines, load_xlines_text, saved_text}

load_lines-after :
    (now : ℕ) (lines before : List XLine)
    → All IsStorable lines
    → load_lines (map write_db_line lines) now before ≡ before ++ retain (is_active now) lines
unfolding load_lines
load_lines-after now [] before h = sym (append-nil before)
load_lines-after now (x ∷ xs) before (fits, h) = elim (Bool-cases (is_active now x)) [
  | inl k ↦
      rw (load_lines, parse_db_line-write_db_line x fits, k)
        (load_lines-after now xs (before ++ x ∷ []) h
          ∙ append_assoc before (x ∷ []) (retain (is_active now) xs))
  | inr k ↦
      rw (load_lines, parse_db_line-write_db_line x fits, k) (load_lines-after now xs before h)
]

load_lines-write_db_line :
    (now : ℕ) (lines : List XLine)
    → All IsStorable lines
    → load_lines (map write_db_line lines) now [] ≡ retain (is_active now) lines
load_lines-write_db_line now lines h = load_lines-after now lines [] h

lines-saved_text :
    (xs : List XLine) → All IsOneLine xs → lines (saved_text xs) ≡ map write_db_line xs
unfolding lines saved_text
lines-saved_text [] h = refl
lines-saved_text (x ∷ xs) (one, h) =
    lines-append (write_db_line x) (saved_text xs) (write_db_line-Lacks x one)
      (write_db_line-ends x one)
    ∙ ap (◌∷◌ (write_db_line x)) (lines-saved_text xs h)

-- The text in which bans are saved is loaded as the same bans, in their order and without those
-- that have ended, if no mask and no setter holds a space or a newline, no reason holds a newline
-- or ends with a carriage return, every ban has a setter, and the times fit into 64 bits.
pub load_xlines_text-saved_text :
    (now : ℕ) (xs : List XLine)
    → All IsStorable xs
    → All IsOneLine xs
    → load_xlines_text (some (saved_text xs)) now [] ≡ retain (is_active now) xs
unfolding load_xlines_text
load_xlines_text-saved_text now xs fits one =
    ap (λ ls. load_lines ls now []) (lines-saved_text xs one) ∙ load_lines-write_db_line now xs fits
