-- ===== src/BlockingList/Programs/Exchange.antt =====
-- A word from a writer to a reader of the blocking message list.
use embedded_system_software.Base.{
  ℕ, ◌<◌, ◌≡◌, refl, ap, ◌∙◌, false, some, List, [], ◌∷◌, ◌++◌, arith, length, ℤ, is_negative,
}
use embedded_system_software.Kernel.{Kernel, IsServing}
use embedded_system_software.Libc.{Libc, IsLibc}
use embedded_system_software.Format.{text_before}
use embedded_system_software.MsgList.{Msg, buf_size, msg_size}
use embedded_system_software.MsgList.Programs.{typed}
use embedded_system_software.MsgList.Programs.Words.{
  message, typed_message-fits, length-message, message-accepted, copied_in-all, copied_out-all,
  text_of-message, message-IsText,
}
use embedded_system_software.BlockingList.{Driver, ch4_write}
use embedded_system_software.BlockingList.Programs.{
  prompt, succeeded, received, writer_main, reader_main,
}

module _ (c : Libc) (k : Kernel) (dev : ℤ) (libc : IsLibc c) (serves : IsServing k)
    (opened : is_negative dev ≡ false) where
  -- A word that fits is added at the end, and the writer says so.
  writer_main-sent :
      (input : List ℕ) (s : Driver)
      → length (typed input) < buf_size
      → (t : Driver) × (writer_main c k dev input s
          ≡ some (prompt ∷ succeeded (text_before (typed input)) ∷ [], t))
        × (t.messages ≡ s.messages ++ (message (typed input) ∷ []))
  unfolding writer_main ch4_write
  writer_main-sent input s small =
      let b = message (typed input) in
      rw
        (
          typed_message-fits input small,
          opened,
          message-accepted (typed input) small,
          serves.vmalloc_serves,
          serves.kmalloc_serves,
          copied_in-all k b serves (length-message (typed input)),
          (message-IsText (typed input) small).1,
          serves.from_all b msg_size (omega (arith, length-message (typed input))),
          text_of-message (typed input) small,
          libc.passes 0,
        )
        (_, refl, refl)

  -- A reader prints the oldest word.
  reader_main-received :
      (user w : List ℕ) (q : List Msg) (s : Driver)
      → length user ≡ msg_size
      → length w < buf_size
      → s.messages ≡ message w ∷ q
      → (t : Driver) × (reader_main c k dev user s ≡ some (received (text_before w) ∷ [], t))
        × (t.messages ≡ q)
  unfolding reader_main
  reader_main-received user w q s there small first =
      rw
        (
          opened,
          first,
          (message-IsText w small).1,
          copied_out-all k (message w) user serves (length-message w) there,
          serves.to_all user msg_size (omega (arith, there)),
          text_of-message w small,
          libc.passes 0,
        )
        (_, refl, refl)

  -- What a writer sends to an empty list, a reader gets: the word that was typed.
  writer_main-reader_main :
      (input user : List ℕ) (s : Driver)
      → length (typed input) < buf_size
      → length user ≡ msg_size
      → s.messages ≡ []
      → (t u : Driver) × (writer_main c k dev input s
          ≡ some (prompt ∷ succeeded (text_before (typed input)) ∷ [], t))
        × (reader_main c k dev user t ≡ some (received (text_before (typed input)) ∷ [], u))
        × (u.messages ≡ [])
  writer_main-reader_main input user s small there empty =
      let (t, sent, now) = writer_main-sent input s small in
      let (u, got, rest) =
        reader_main-received user (typed input) [] t there small
          (now ∙ ap (λ q. q ++ (message (typed input) ∷ [])) empty) in
      (t, u, sent, got, rest)
