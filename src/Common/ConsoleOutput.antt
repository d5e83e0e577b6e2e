-- ===== src/Common/ConsoleOutput.antt =====
-- app/common/console_output.py: the segments of an atom's console output.
-- A file handle is the list of the lines that are still to be read, as Python's file objects split
-- the bytes: each line ends in a newline, the last one possibly not. Decoding is a parameter.
pub mod Lines
pub mod FromEnd
pub mod FromOffset
mod Examples
use cluster_runner_jie.Prelude.{
  ℕ, zero, suc, ◌+◌, Bool, true, false, Option, none, some, List, [], ◌∷◌, ◌++◌, flatten, length,
  ltb, ◌==◌, if◌then◌else◌,
}
use cluster_runner_jie.Errors.{Result, ok, err, bad_request, ◌>>=◌}

abbrev pub Line : Type 0
Line = List ℕ

abbrev pub File : Type 0
File = List Line

abbrev pub newline : ℕ
newline = b'\n'

begin_line : ℕ → File → File
begin_line b [] = (b ∷ []) ∷ []
begin_line b (l ∷ ls) = (b ∷ l) ∷ ls

-- Opening a file of these bytes.
unfoldable pub split_lines : List ℕ → File
unfolding begin_line
split_lines [] = []
split_lines (b ∷ bs) =
    let rest = split_lines bs in if b == newline then (b ∷ []) ∷ rest else begin_line b rest

-- An empty line means the end of the file.
unfoldable pub readline : File → Line × File
readline [] = ([], [])
readline (l ∷ ls) = (l, ls)

-- `line.endswith(b'\n')`
unfoldable pub ends_line : Line → Bool
ends_line [] = false
ends_line (b ∷ []) = b == newline
ends_line (b ∷ c ∷ bs) = ends_line (c ∷ bs)

pub record ConsoleOutputSegment : Type 0 where
  pub offset_line : ℕ
  pub num_lines : ℕ
  pub total_num_lines : ℕ
  pub content : List ℕ

-- The loop over `range(0, offset_line)`: the lines counted, and the handle behind them.
unfoldable pub skip_lines : ℕ → ℕ → File → Result (ℕ × File)
skip_lines zero total_lines f = ok (total_lines, f)
skip_lines (suc n) total_lines f =
    let (line, rest) = readline f in
    let more = skip_lines n (total_lines + 1) rest in
    if length line == 0 then err bad_request else more

-- What the second loop has read: the number of lines, their text, and the handle behind them.
pub record Reading : Type 0 where
  pub output_lines : ℕ
  pub console_output : List (List ℕ)
  pub handle : File

-- `while f.readline(): total_lines += 1`
unfoldable pub count_lines : ℕ → File → ℕ
count_lines total_lines [] = total_lines
count_lines total_lines (l ∷ ls) =
    let more = count_lines (total_lines + 1) ls in if length l == 0 then total_lines else more

pub record Tail : Type 0 where
  pub total_num_lines : ℕ
  pub offset_line : ℕ
  pub console_output_lines : List (List ℕ)

abbrev pub popleft {ℓ} : {A : Type ℓ} → List A → List A
popleft [] = []
popleft (x ∷ xs) = xs

module _ (decode : List ℕ → List ℕ) where
  -- The loop over `range(offset_line, offset_line + max_lines)`.
  unfoldable pub read_lines : ℕ → Reading → Reading
  read_lines zero r = r
  read_lines (suc n) r =
      let (line, rest) = readline r.handle in
      let more = read_lines n (record {
        output_lines = r.output_lines + 1;
        console_output = r.console_output ++ decode line ∷ [];
        handle = rest;
      }) in
      if ends_line line then more else record r { handle = rest }

  unfoldable pub parse_from_offset : ℕ → ℕ → File → Result ConsoleOutputSegment
  parse_from_offset max_lines offset_line f = do
    (total_lines, handle) ← skip_lines offset_line 0 f
    let r = read_lines max_lines (record { output_lines = 0; console_output = []; handle = handle })
    ok (record {
      offset_line = offset_line;
      num_lines = r.output_lines;
      total_num_lines = count_lines (total_lines + r.output_lines) r.handle;
      content = flatten r.console_output;
    })

  -- One round of the loop over the file: a line is added, and the oldest dropped if there are now
  -- more than `max_lines`.
  unfoldable pub keep_line : ℕ → Line → Tail → Tail
  keep_line max_lines line t =
      let lines = t.console_output_lines ++ decode line ∷ [] in
      let total = t.total_num_lines + 1 in
      if ltb max_lines (length lines)
      then record {
        total_num_lines = total;
        offset_line = t.offset_line + 1;
        console_output_lines = popleft lines;
      }
      else record {
        total_num_lines = total;
        offset_line = t.offset_line;
        console_output_lines = lines;
      }

  unfoldable pub read_tail : ℕ → Tail → File → Tail
  read_tail max_lines t [] = t
  read_tail max_lines t (l ∷ ls) =
      let more = read_tail max_lines (keep_line max_lines l t) ls in if ends_line l then more else t

  unfoldable pub parse_from_end : ℕ → File → ConsoleOutputSegment
  parse_from_end max_lines f =
      let t =
        read_tail max_lines
          (record { total_num_lines = 0; offset_line = 0; console_output_lines = [] }) f in
      record {
        offset_line = t.offset_line;
        num_lines = length t.console_output_lines;
        total_num_lines = t.total_num_lines;
        content = flatten t.console_output_lines;
      }

  unfoldable pub segment : ℕ → Option ℕ → File → Result ConsoleOutputSegment
  segment max_lines none f = ok (parse_from_end max_lines f)
  segment max_lines (some offset_line) f = parse_from_offset max_lines offset_line f
