-- ===== src/Common/ConsoleOutput/FromEnd.antt =====
-- Reading a console output from its end.
use mathlib.Core.List.{append-nil, append_assoc}
use native.Mathlib.Numerals.{add-one}
use cluster_runner_jie.Prelude.{
  ℕ, zero, suc, ◌+◌, ◌-◌, ◌≤◌, ◌<◌, ◌≡◌, refl, ap, ◌∙◌, List, [], ◌∷◌, ◌++◌, map, flatten, arith,
  min, length, drop, ltb, length-append, length-drop, length-map, drop-map, Bool-cases, inl, inr,
}
use cluster_runner_jie.Common.ConsoleOutput.{
  File, Line, Tail, popleft, keep_line, read_tail, parse_from_end, ends_line,
}
use cluster_runner_jie.Common.ConsoleOutput.Lines.{complete}

popleft-drop {ℓ} :
    {A : Type ℓ} (k : ℕ) (xs : List A) (x : A)
    → k ≤ length xs
    → popleft (drop k xs ++ x ∷ []) ≡ drop (suc k) (xs ++ x ∷ [])
popleft-drop zero [] x h = refl
popleft-drop zero (y ∷ ys) x h = refl
popleft-drop (suc k) [] x h = absurd (omega arith)
popleft-drop (suc k) (y ∷ ys) x h = popleft-drop k ys x (omega arith)

-- What is kept of the decoded lines `ts`.
abbrev last_lines : ℕ → List (List ℕ) → Tail
last_lines m ts = record {
  total_num_lines = length ts;
  offset_line = length ts - m;
  console_output_lines = drop (length ts - m) ts;
}

module _ (decode : List ℕ → List ℕ) where
  keep_line-last_lines :
      (m : ℕ) (l : Line) (ts : List (List ℕ))
      → keep_line decode m l (last_lines m ts) ≡ last_lines m (ts ++ decode l ∷ [])
  unfolding keep_line
  keep_line-last_lines m l ts = elim (Bool-cases (ltb m (length kept))) [
    | inl full ↦
        let over : m ≤ length ts = ground (arith, kept_length) in
        let start : suc (length ts - m) ≡ length grown - m = omega (arith, one_more) in
        rw full (
          cc (
            one_more,
            start,
            popleft-drop (length ts - m) ts (decode l) (omega arith),
            add-one (length ts - m),
          ))
    | inr room ↦
        let under : length ts < m = ground (arith, kept_length) in
        let start : length ts - m ≡ 0 = omega arith in
        let start' : length grown - m ≡ 0 = omega (arith, one_more) in
        rw room (cc (one_more, start, start'))
  ]
    where
      kept : List (List ℕ)
      kept = drop (length ts - m) ts ++ decode l ∷ []

      grown : List (List ℕ)
      grown = ts ++ decode l ∷ []

      one_more : length grown ≡ length ts + 1
      one_more = omega (arith, length-append ts (decode l ∷ []))

      kept_length : length kept ≡ length ts - (length ts - m) + 1
      kept_length = omega (
        arith,
        length-append (drop (length ts - m) ts) (decode l ∷ []),
        length-drop (length ts - m) ts,
      )

  read_tail-last_lines :
      (m : ℕ) (ts : List (List ℕ)) (f : File)
      → read_tail decode m (last_lines m ts) f ≡ last_lines m (ts ++ map decode (complete f))
  unfolding read_tail complete
  read_tail-last_lines m ts [] = rw append-nil
  read_tail-last_lines m ts (l ∷ ls) = elim (Bool-cases (ends_line l)) [
    | inl e ↦
        rw (e, keep_line-last_lines m l ts)
          (read_tail-last_lines m (ts ++ decode l ∷ []) ls
            ∙ ap (last_lines m) (append_assoc ts (decode l ∷ []) (map decode (complete ls))))
    | inr e ↦ rw (e, append-nil)
  ]

  -- The segment holds the last `max_lines` of the complete lines, or all of them if there are no
  -- more, and says which they are. A last line that is still being written does not count.
  pub parse_from_end_lem :
      (max_lines : ℕ) (f : File)
      → let total = length (complete f) in
        parse_from_end decode max_lines f ≡ record {
          offset_line = total - max_lines;
          num_lines = min max_lines total;
          total_num_lines = total;
          content = flatten (map decode (drop (total - max_lines) (complete f)));
        }
  unfolding parse_from_end
  parse_from_end_lem m f = ground (
    arith,
    read_tail-last_lines m [] f,
    length-map decode (complete f),
    length-drop (length (complete f) - m) (map decode (complete f)),
    drop-map decode (length (complete f) - m) (complete f),
  )
