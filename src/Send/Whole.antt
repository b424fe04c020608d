-- ===== src/Send/Whole.antt =====
-- An answer arrives whole: its header, and behind it the content from any of its places.
use esp32_wifi_manager.Common.{
  ℕ, ◌+◌, ◌≤◌, ◌<◌, ◌≡◌, refl, ap, ◌∙◌, Bool, true, [], ◌∷◌, ◌++◌, Bytes, length, take, All, arith,
}
use esp32_wifi_manager.Send.{
  Conn, File, Content, flash_mem, static_mem, heap, fatfs, SendEnv, write, netconn_printf,
  write_content,
}
use esp32_wifi_manager.Send.Progress.{IsGood, IsFile, write_good, write_content_from_fatfs_whole}
use esp32_wifi_manager.Send.Answer.{HttpResp, header_with_content, resp_with_content}

-- The bytes of a content, which are not empty for a buffer.
pub data Holds : Content → Bytes → Type 0 where
  in_flash : (b : Bytes) → 0 < length b → Holds (flash_mem b) b
  in_static_mem : (b : Bytes) → 0 < length b → Holds (static_mem b) b
  in_heap : (b : Bytes) → 0 < length b → Holds (heap b) b
  in_file : (file : File) (b : Bytes) → IsFile file b → Holds (fatfs file) b

take_whole : (b : Bytes) → take (length b) b ≡ b
take_whole [] = refl
take_whole (x ∷ b) = ap (λ t. x ∷ t) (take_whole b)

write_whole :
    (b : Bytes) (c : Conn)
    → 0 < length b
    → All IsGood c.attempts
    → length b ≤ length c.attempts
    → (write (take (length b) b) c).1.sent ≡ c.sent ++ b
write_whole b c pos good le =
    let h = write_good b c 0 good pos (omega arith) in rw (take_whole b) h.all_sent

write_content_whole :
    (env : SendEnv) (content : Content) (b : Bytes) (c : Conn)
    → env.block_mem_ok ≡ true
    → Holds content b
    → All IsGood c.attempts
    → length b ≤ length c.attempts
    → (write_content env (length b) content c).sent ≡ c.sent ++ b
unfolding write_content
write_content_whole env _ _ c mem (in_flash b pos) good le = write_whole b c pos good le
write_content_whole env _ _ c mem (in_static_mem b pos) good le = write_whole b c pos good le
write_content_whole env _ _ c mem (in_heap b pos) good le = write_whole b c pos good le
write_content_whole env _ _ c mem (in_file file b isf) good le =
    rw mem (write_content_from_fatfs_whole file b isf c good le)

after_text :
    (env : SendEnv) (mem_ok : Bool) (n : ℕ) (content : Content) (b text : Bytes) (c : Conn)
    → mem_ok ≡ true
    → n ≡ length b
    → env.block_mem_ok ≡ true
    → Holds content b
    → 0 < length text
    → All IsGood c.attempts
    → length text + length b ≤ length c.attempts
    → (write_content env n content (netconn_printf mem_ok text c)).sent ≡ c.sent ++ text ++ b
unfolding netconn_printf
after_text env mem_ok n content b text c text_mem len block_mem holds pos good le =
    let h = write_good text c (length b) good pos le in
    rw (text_mem, len)
      (write_content_whole env content b (write text c).1 block_mem holds h.all_good h.enough
        ∙ ap (λ t. t ++ b) h.all_sent)

-- An answer with a content puts its header and then the content, byte for byte, on the connection:
-- the same bytes whether the content is in flash, in static memory, on the heap, or in a file that
-- is sent in blocks. That is where memory is there, and the connection takes something, in time, at
-- each of as many attempts as there are bytes.
pub resp_with_content_whole :
    (env : SendEnv) (r : HttpResp) (b extra : Bytes) (code : ℕ) (msg : Bytes) (c : Conn)
    → env.printf_mem_ok ≡ true
    → env.block_mem_ok ≡ true
    → Holds r.content b
    → r.content_len ≡ length b
    → All IsGood c.attempts
    → length (header_with_content env.date r extra code msg) + length b ≤ length c.attempts
    → (resp_with_content env r extra code msg c).sent
      ≡ c.sent ++ header_with_content env.date r extra code msg ++ b
unfolding resp_with_content
resp_with_content_whole env r b extra code msg c text_mem block_mem holds len good le =
    after_text env env.printf_mem_ok r.content_len r.content b
      (header_with_content env.date r extra code msg) c text_mem len block_mem holds (omega arith)
      good le
