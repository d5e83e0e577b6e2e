-- ===== src/Common/ConsoleOutput/Examples.antt =====
-- Segments of a short output, with the bytes for their text.
use cluster_runner_jie.Prelude.{ℕ, ◌≡◌, refl, ap, List, [], ◌∷◌, ◌++◌, none, some, arith}
use cluster_runner_jie.Prelude.{flatten}
use cluster_runner_jie.Errors.{ok, err, bad_request}
use cluster_runner_jie.Common.ConsoleOutput.{
  File, newline, split_lines, segment, parse_from_offset, parse_from_end, skip_lines, keep_line,
  read_tail, readline, ends_line,
}
use cluster_runner_jie.Common.ConsoleOutput.FromEnd.{parse_from_end_lem}
use cluster_runner_jie.Common.ConsoleOutput.Lines.{complete}
use cluster_runner_jie.Common.ConsoleOutput.FromOffset.{
  parse_from_offset_lem, parse_from_offset_end, partial_line_total,
}

abbrev plain : List ℕ → List ℕ
plain bytes = bytes

-- "a\nb\n", and the beginning of a third line.
abbrev two_lines : List ℕ
two_lines = b'a' ∷ newline ∷ b'b' ∷ newline ∷ []

segment_tail :
    segment plain 1 none (split_lines (two_lines ++ b'c' ∷ []))
    ≡ ok (record {
      offset_line = 1;
      num_lines = 1;
      total_num_lines = 2;
      content = b'b' ∷ newline ∷ [];
    })
unfolding segment parse_from_end read_tail keep_line split_lines ends_line mathlib.Core.List.flatten
segment_tail = refl

segment_beyond : segment plain 5 (some 3) (split_lines two_lines) ≡ err bad_request
unfolding segment parse_from_offset skip_lines readline split_lines
segment_beyond = refl

parse_from_offset_lem_example :
    parse_from_offset plain 5 3 (split_lines two_lines) ≡ err bad_request
parse_from_offset_lem_example =
    (parse_from_offset_lem plain 5 3 two_lines).0 (unfold split_lines in omega arith)

abbrev finished : File
finished = (b'a' ∷ newline ∷ []) ∷ (b'b' ∷ newline ∷ []) ∷ []

both_ways_at_once :
    parse_from_offset plain 1 (parse_from_end plain 1 finished).offset_line finished
    ≡ ok (parse_from_end plain 1 finished)
both_ways_at_once =
    parse_from_offset_end plain 1 finished (refl, (refl, tt))
      (unfold ends_line in (refl, (refl, tt)))

two_totals : (parse_from_end plain 1 (finished ++ (b'c' ∷ []) ∷ [])).total_num_lines ≡ 2
unfolding ends_line
two_totals =
    (partial_line_total plain 1 finished (b'c' ∷ []) (refl, (refl, tt)) (refl, (refl, tt)) refl
      refl).0

parse_from_end_lem_example : (parse_from_end plain 1 finished).content ≡ b'b' ∷ newline ∷ []
unfolding complete ends_line mathlib.Core.List.flatten
parse_from_end_lem_example = ap (λ s. s.content) (parse_from_end_lem plain 1 finished)
