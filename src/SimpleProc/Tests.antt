-- ===== src/SimpleProc/Tests.antt =====
-- Runs of the proc file of simple_proc.c.
use embedded_system_software.Base.{
  ℕ, ◌≡◌, refl, none, some, List, [], ◌∷◌, ◌++◌, arith, length, take, replicate, overlay, pos,
  strlen, IsSome,
}
use embedded_system_software.Format.{text_before, digits, skip_spaces, scan_digits, scan_int, word}
use embedded_system_software.Kernel.{serving, serving-IsServing}
use embedded_system_software.SimpleProc.{initial, proc_info_show, proc_info_write}
use embedded_system_software.SimpleProc.Rewrite.{IsNamed, proc_info_write-defined, write-show}

abbrev clean : List ℕ
clean = replicate 128 0

-- A digit and 100 letters: the terminator is stored past `name`.
write-overflow : proc_info_write serving (53 ∷ replicate 100 97 ++ 0 ∷ []) 102 clean initial ≡ none
unfolding proc_info_write scan_int skip_spaces scan_digits word
write-overflow = refl

-- A text of 128 bytes with no terminator is read past `buf`.
write-unterminated : proc_info_write serving (replicate 128 97) 128 clean initial ≡ none
unfolding proc_info_write
write-unterminated = refl

-- `7 ab` and a line end are five bytes; the result counts what `buf` held before as well.
write-counts :
    proc_info_write serving (55 ∷ 32 ∷ 97 ∷ 98 ∷ 10 ∷ []) 5 (replicate 127 97 ++ 0 ∷ []) initial
    ≡ some (pos 127, record { id = 7; name = 97 ∷ 98 ∷ replicate 98 0 })
unfolding proc_info_write scan_int skip_spaces scan_digits word
write-counts = refl

proc_info_write-defined_example :
    IsSome (proc_info_write serving (55 ∷ 32 ∷ 97 ∷ 98 ∷ 10 ∷ 0 ∷ []) 6 clean initial)
proc_info_write-defined_example =
    proc_info_write-defined serving (55 ∷ 32 ∷ 97 ∷ 98 ∷ 10 ∷ 0 ∷ []) 6 clean initial 5 refl
      (omega arith) refl

software : IsNamed initial (take 24 initial.name)
software = record {
  is_int = omega arith;
  letters = ground arith;
  some_letter = omega arith;
  fits = omega arith;
  named = refl;
}

initial-text : length (proc_info_show initial) ≡ 35
unfolding digits text_before
initial-text = refl

initial-ends : strlen (overlay (proc_info_show initial) clean) ≡ some 35
unfolding digits text_before
initial-ends = refl

write-show_example :
    proc_info_write serving
      (proc_info_show initial)
      (length (proc_info_show initial))
      clean
      (record initial { id = 5 })
    ≡ some (pos 35, initial)
write-show_example =
    write-show serving serving-IsServing initial (take 24 initial.name) software clean
      (record initial { id = 5 }) 35 (omega (arith, initial-text)) refl initial-ends
