-- ===== src/Common/ConsoleOutput/Lines.antt =====
-- The lines that are completely written, and what Python's line splitting guarantees.
use cluster_runner_jie.Prelude.{
  ℕ, zero, suc, ◌≡◌, refl, ap, true, ◌++◌, drop, false, List, [], ◌∷◌, arith, All, length,
  if◌then◌else◌, ◌==◌, Bool-cases, inl, inr,
}
use cluster_runner_jie.Common.ConsoleOutput.{
  File, Line, split_lines, begin_line, ends_line, newline,
}

-- The lines up to the first one that does not end in a newline.
unfoldable pub complete : File → File
complete [] = []
complete (l ∷ ls) = let more = complete ls in if ends_line l then l ∷ more else []

-- No line of a file is empty.
abbrev pub NoEmptyLine : File → Type 0
NoEmptyLine f = All (λ l. (length l == 0) ≡ false) f

begin_line-NoEmptyLine : (b : ℕ) (f : File) → NoEmptyLine f → NoEmptyLine (begin_line b f)
unfolding begin_line
begin_line-NoEmptyLine b [] h = (ground arith, tt)
begin_line-NoEmptyLine b (l ∷ ls) h = (ground arith, h.1)

pub split_lines-NoEmptyLine : (bs : List ℕ) → NoEmptyLine (split_lines bs)
unfolding split_lines
split_lines-NoEmptyLine [] = tt
split_lines-NoEmptyLine (b ∷ bs) = elim (Bool-cases (b == newline)) [
  | inl e ↦ rw e (ground arith, split_lines-NoEmptyLine bs)
  | inr e ↦ rw e (begin_line-NoEmptyLine b _ (split_lines-NoEmptyLine bs))
]

-- A file that is written to its end: every line ends in a newline.
abbrev pub IsComplete : File → Type 0
IsComplete f = All (λ l. ends_line l ≡ true) f

pub complete_lem : (f : File) → IsComplete f → complete f ≡ f
unfolding complete
complete_lem [] h = refl
complete_lem (l ∷ ls) h = rw h.0 (ap (λ r. l ∷ r) (complete_lem ls h.1))

pub complete-append :
    (f : File) (p : Line) → IsComplete f → ends_line p ≡ false → complete (f ++ p ∷ []) ≡ f
unfolding complete
complete-append [] p h e = rw e
complete-append (l ∷ ls) p h e = rw h.0 (ap (λ r. l ∷ r) (complete-append ls p h.1 e))

pub drop-IsComplete : (n : ℕ) (f : File) → IsComplete f → IsComplete (drop n f)
drop-IsComplete zero f h = h
drop-IsComplete (suc n) [] h = h
drop-IsComplete (suc n) (l ∷ ls) h = drop-IsComplete n ls h.1
