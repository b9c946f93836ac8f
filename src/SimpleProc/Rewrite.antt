-- ===== src/SimpleProc/Rewrite.antt =====
-- What the proc file of simple_proc.c shows can be written back, and which writes are safe.
use embedded_system_software.Base.{
  ℕ, ◌^◌, ◌≤◌, ◌<◌, ◌≡◌, refl, sym, ap, ◌∙◌, inl, inr, true, false, Option, none, some, List, [],
  ◌∷◌, ◌++◌, arith, ltb, ◌==◌, lt→ltb, le→ltb_false, Bool-cases, length, take, drop, overlay, All,
  length-take, take_all, overlay-append, append_assoc, take_all, overlay-append, append_assoc, pos,
  strlen, IsSome,
}
use embedded_system_software.Format.{is_space, print_int, scan_int, scan_word, skip_spaces}
use embedded_system_software.Format.Numbers.{scan_int-print_int, print_int-append}
use embedded_system_software.Format.Texts.{
  is_letter, word-append, text_before-overlay, strlen-overlay, length-scan_word,
}
use embedded_system_software.Kernel.{Kernel, IsServing}
use embedded_system_software.SimpleProc.{
  Proc, buf_size, name_size, cleared, proc_info_show, store, proc_info_write,
}

-- The id is an `int`, and the name is a word that fits.
pub record IsNamed (s : Proc) (w : List ℕ) : Type 0 where
  pub is_int : s.id < 2 ^ 32
  pub letters : All (λ c. is_letter c ≡ true) w
  pub some_letter : 0 < length w
  pub fits : length w < name_size
  pub named : s.name ≡ overlay w cleared

scan_word-line :
    (w text : List ℕ)
    → All (λ c. is_letter c ≡ true) w
    → 0 < length w
    → scan_word (10 ∷ w ++ 10 ∷ text) ≡ w
unfolding skip_spaces
scan_word-line [] text h some_letter = absurd (omega arith)
scan_word-line (c ∷ w) text h some_letter =
    let space : is_space c ≡ false = ground (arith, h.0) in
    rw space (word-append (c ∷ w) (10 ∷ text) h refl)

store-defined :
    (buf : List ℕ) (s : Proc) (n : ℕ) (o : Option (ℕ × List ℕ))
    → scan_int buf ≡ o
    → strlen buf ≡ some n
    → n ≤ 100
    → IsSome (store n o s)
store-defined buf s n none e ends short = tt
store-defined buf s n (some (id, rest)) e ends short =
    let h = length-scan_word buf n id rest ends e in
    rw (lt→ltb (length (scan_word rest)) name_size (omega arith)) tt

-- A write of a text with its terminator, of at most a hundred bytes before it, reads and stores within `buf` and `name`,
-- whatever the text says and whether it can be copied.
pub proc_info_write-defined :
    (k : Kernel) (user : List ℕ) (ubuf_len : ℕ) (stack : List ℕ) (s : Proc) (n : ℕ)
    → strlen (take ubuf_len user) ≡ some n
    → n ≤ 100
    → length stack ≡ buf_size
    → IsSome (proc_info_write k user ubuf_len stack s)
unfolding proc_info_write
proc_info_write-defined k user ubuf_len stack s n ends short full =
    elim (Bool-cases (ltb buf_size ubuf_len)) [
      | inl long ↦ rw long tt
      | inr fits ↦ elim (Bool-cases (k.from_user user ubuf_len == 0)) [
        | inl copied ↦
            let buf = overlay (take ubuf_len user) stack in
            let whole =
              strlen-overlay (take ubuf_len user) stack n
                (ground (arith, length-take ubuf_len user)) ends in
            rw (fits, copied, whole) (store-defined buf s n (scan_int buf) refl whole short)
        | inr refused ↦ rw (fits, refused) tt
      ]
    ]

module _ (k : Kernel) (serves : IsServing k) (s : Proc) (w : List ℕ) (named : IsNamed s w) where
  shown : proc_info_show s ≡ print_int s.id (10 ∷ w ++ 10 ∷ [])
  shown = rw (named.named, text_before-overlay w name_size named.letters named.fits) refl

  store-named :
      (n : ℕ) (rest : List ℕ) (t : Proc)
      → scan_word rest ≡ w
      → store n (some (s.id, rest)) t ≡ some (pos n, s)
  store-named n rest t same =
      rw (same, lt→ltb (length w) name_size named.fits)
        (ap (λ x. some (pos n, record s { name = x })) (sym named.named))

  -- What the proc file shows, written back whatever the file held in between, gives the same id and the same name,
  -- whatever `buf` held before, when a terminator is left in it.
  pub write-show :
      (stack : List ℕ) (t : Proc) (n : ℕ)
      → length (proc_info_show s) ≤ buf_size
      → length stack ≡ buf_size
      → strlen (overlay (proc_info_show s) stack) ≡ some n
      → proc_info_write k (proc_info_show s) (length (proc_info_show s)) stack t ≡ some (pos n, s)
  unfolding proc_info_write
  write-show stack t n short full ends =
      let after = drop (length (proc_info_show s)) stack in
      let more = 10 ∷ w ++ 10 ∷ after in
      let buf : overlay (proc_info_show s) stack ≡ print_int s.id more =
        overlay-append (proc_info_show s) stack (omega arith)
        ∙ ap (λ text. text ++ after) shown
        ∙ print_int-append s.id (10 ∷ w ++ 10 ∷ []) after
        ∙ ap (λ text. print_int s.id (10 ∷ text)) (append_assoc w (10 ∷ []) after) in
      let scans = ap scan_int buf ∙ scan_int-print_int s.id more named.is_int refl in
      let long = le→ltb_false buf_size (length (proc_info_show s)) short in
      rw
        (
          take_all (proc_info_show s),
          long,
          serves.from_all (proc_info_show s) (length (proc_info_show s)) (omega arith),
          ends,
          scans,
        )
        (store-named n more t (scan_word-line w after named.letters named.some_letter))
