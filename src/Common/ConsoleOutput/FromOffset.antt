-- ===== src/Common/ConsoleOutput/FromOffset.antt =====
-- Reading a console output from a line on.
use mathlib.Core.List.{append-nil, append_assoc}
use cluster_runner_jie.Prelude.{
  ℕ, zero, suc, ◌+◌, ◌-◌, ◌≤◌, ◌<◌, ◌≡◌, refl, ◌∙◌, false, List, [], ◌∷◌, ◌++◌, map, flatten, arith,
  length, take, drop, leb, All-append, ◌==◌, length-append, length-drop, take_all, Bool-cases, inl,
  inr, if◌then◌else◌,
}
use cluster_runner_jie.Errors.{ok, err, bad_request}
use cluster_runner_jie.Common.ConsoleOutput.{
  File, Line, split_lines, ConsoleOutputSegment, readline, skip_lines, read_lines, count_lines,
  parse_from_offset, ends_line, parse_from_end,
}
use cluster_runner_jie.Common.ConsoleOutput.Lines.{
  complete, complete_lem, complete-append, drop-IsComplete, split_lines-NoEmptyLine, NoEmptyLine,
  IsComplete,
}
use cluster_runner_jie.Common.ConsoleOutput.FromEnd.{parse_from_end_lem}

skip_lines_within :
    (n total : ℕ) (f : File)
    → NoEmptyLine f
    → n ≤ length f
    → skip_lines n total f ≡ ok (total + n, drop n f)
unfolding skip_lines readline
skip_lines_within zero total f ne h = ground arith
skip_lines_within (suc n) total [] ne h = absurd (omega arith)
skip_lines_within (suc n) total (l ∷ ls) ne h =
    let e : total + suc n ≡ total + 1 + n = omega arith in
    rw (ne.0, e) (skip_lines_within n (total + 1) ls ne.1 (omega arith))

skip_lines_beyond : (n total : ℕ) (f : File) → length f < n → skip_lines n total f ≡ err bad_request
unfolding skip_lines readline
skip_lines_beyond zero total f h = elim h [ ]
skip_lines_beyond (suc n) total [] h = refl
skip_lines_beyond (suc n) total (l ∷ ls) h = ground (arith, skip_lines_beyond n (total + 1) ls)

-- What the handle still holds after up to `n` lines: a line that is not complete is read, too.
unread : ℕ → File → File
unread zero f = f
unread (suc n) [] = []
unread (suc n) (l ∷ ls) = let more = unread n ls in if ends_line l then more else ls

count_lines_lem : (total : ℕ) (f : File) → NoEmptyLine f → count_lines total f ≡ total + length f
unfolding count_lines
count_lines_lem total [] ne = omega arith
count_lines_lem total (l ∷ ls) ne = rw ne.0 (omega (arith, count_lines_lem (total + 1) ls ne.1))

drop-NoEmptyLine : (n : ℕ) (f : File) → NoEmptyLine f → NoEmptyLine (drop n f)
drop-NoEmptyLine zero f ne = ne
drop-NoEmptyLine (suc n) [] ne = ne
drop-NoEmptyLine (suc n) (l ∷ ls) ne = drop-NoEmptyLine n ls ne.1

unread-NoEmptyLine : (n : ℕ) (f : File) → NoEmptyLine f → NoEmptyLine (unread n f)
unfolding unread
unread-NoEmptyLine zero f ne = ne
unread-NoEmptyLine (suc n) [] ne = ne
unread-NoEmptyLine (suc n) (l ∷ ls) ne = elim (Bool-cases (ends_line l)) [
  | inl e ↦ rw e (unread-NoEmptyLine n ls ne.1)
  | inr e ↦ rw e ne.1
]

unread_complete :
    (n : ℕ) (f : File) → IsComplete f → length (take n f) + length (unread n f) ≡ length f
unfolding unread
unread_complete zero f h = omega arith
unread_complete (suc n) [] h = omega arith
unread_complete (suc n) (l ∷ ls) h = rw h.0 (omega (arith, unread_complete n ls h.1))

-- A line that is still being written is left if the request ends before it, and read if not.
unread_partial :
    (n : ℕ) (f : File) (p : Line)
    → IsComplete f
    → ends_line p ≡ false
    → length (take n f) + length (unread n (f ++ p ∷ []))
      ≡ (if leb n (length f) then length f + 1 else length f)
unfolding unread
unread_partial zero f p h e = ground (arith, length-append f (p ∷ []))
unread_partial (suc n) [] p h e = rw e (ground arith)
unread_partial (suc n) (l ∷ ls) p h e = rw h.0 (ground (arith, unread_partial n ls p h.1 e))

module _ (decode : List ℕ → List ℕ) where
  read_lines_lem :
      (n o : ℕ) (out : List (List ℕ)) (f : File)
      → read_lines decode n (record { output_lines = o; console_output = out; handle = f })
        ≡ record {
          output_lines = o + length (take n (complete f));
          console_output = out ++ map decode (take n (complete f));
          handle = unread n f;
        }
  unfolding read_lines complete unread readline ends_line
  read_lines_lem zero o out f = ground (arith, append-nil out)
  read_lines_lem (suc n) o out [] = ground (arith, append-nil out)
  read_lines_lem (suc n) o out (l ∷ ls) = ground (
    arith,
    append-nil out,
    read_lines_lem n (o + 1) (out ++ decode l ∷ []) ls,
    append_assoc out (decode l ∷ []) (map decode (take n (complete ls))),
  )

  -- The complete lines that a request receives.
  abbrev pub window : ℕ → ℕ → File → List Line
  window max_lines offset_line f = take max_lines (complete (drop offset_line f))

  parse_from_offset_within :
      (max_lines offset_line : ℕ) (f : File)
      → NoEmptyLine f
      → offset_line ≤ length f
      → parse_from_offset decode max_lines offset_line f
        ≡ ok (record {
          offset_line = offset_line;
          num_lines = length (window max_lines offset_line f);
          total_num_lines =
              offset_line
              + length (window max_lines offset_line f)
              + length (unread max_lines (drop offset_line f));
          content = flatten (map decode (window max_lines offset_line f));
        })
  unfolding parse_from_offset
  parse_from_offset_within m o f ne h =
      let rest = drop o f in
      rw (skip_lines_within o 0 f ne h) (
        ground (
          arith,
          read_lines_lem m 0 [] rest,
          count_lines_lem (0 + o + (0 + length (window m o f))) (unread m rest)
              (unread-NoEmptyLine m rest (drop-NoEmptyLine o f ne)),
        ))

  -- From line `offset_line` on a client receives the next complete lines, `max_lines` at most, if
  -- the file has that many lines in all; otherwise the request is refused.
  pub parse_from_offset_lem :
      (max_lines offset_line : ℕ) (bytes : List ℕ)
      → let f = split_lines bytes in
        (length f < offset_line
          → parse_from_offset decode max_lines offset_line f ≡ err bad_request)
        × (offset_line ≤ length f
            → (s : ConsoleOutputSegment) × (parse_from_offset decode max_lines offset_line f ≡ ok s)
              × (s.offset_line ≡ offset_line)
              × (s.num_lines ≡ length (window max_lines offset_line f))
              × (s.content ≡ flatten (map decode (window max_lines offset_line f))))
  parse_from_offset_lem m o bytes =
      let f = split_lines bytes in
      (
        (λ h. unfold parse_from_offset in rw (skip_lines_beyond o 0 f h)),
        (λ h. (
          _,
          parse_from_offset_within m o f (split_lines-NoEmptyLine bytes) h,
          refl,
          refl,
          refl,
        )),
      )

  -- On an output that is written to its end, reading from the end is reading from the offset that
  -- it reports.
  pub parse_from_offset_end :
      (max_lines : ℕ) (f : File)
      → NoEmptyLine f
      → IsComplete f
      → parse_from_offset decode max_lines (parse_from_end decode max_lines f).offset_line f
        ≡ ok (parse_from_end decode max_lines f)
  parse_from_offset_end m f ne h =
      rw (parse_from_end_lem decode m f, complete_lem f h)
        (parse_from_offset_within m o f ne (omega arith)
          ∙ ground (arith, whole, length-drop o f, counted))
    where
      o : ℕ
      o = length f - m

      whole : window m o f ≡ drop o f
      whole =
          rw (complete_lem (drop o f) (drop-IsComplete o f h))
            (take_all m (drop o f) (omega (arith, length-drop o f)))

      counted : length (window m o f) + length (unread m (drop o f)) ≡ length (drop o f)
      counted =
          rw (complete_lem (drop o f) (drop-IsComplete o f h))
            (unread_complete m (drop o f) (drop-IsComplete o f h))

  -- While the last line is still being written, `total_num_lines` depends on the request: a segment
  -- that ends before that line counts it, one that reaches it or starts from the end does not.
  pub partial_line_total :
      (max_lines : ℕ) (f : File) (p : Line)
      → NoEmptyLine f
      → IsComplete f
      → (length p == 0) ≡ false
      → ends_line p ≡ false
      → ((parse_from_end decode max_lines (f ++ p ∷ [])).total_num_lines ≡ length f)
        × ((s : ConsoleOutputSegment) × (parse_from_offset decode max_lines 0 (f ++ p ∷ []) ≡ ok s)
            × (s.total_num_lines ≡ (if leb max_lines (length f) then length f + 1 else length f)))
  partial_line_total m f p ne h np e = (
    rw (parse_from_end_lem decode m (f ++ p ∷ []), complete-append f p h e),
    (
      _,
      parse_from_offset_within m 0 (f ++ p ∷ []) (All-append _ f (p ∷ []) ne (np, tt))
          (omega arith),
      rw (complete-append f p h e) (omega (arith, unread_partial m f p h e)),
    ),
  )
