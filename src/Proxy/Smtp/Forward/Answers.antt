-- ===== src/Proxy/Smtp/Forward/Answers.antt =====
-- serverwall-proxy/src/proxy/smtp_proxy.rs: what `forward_to_backend` writes and which line it returns,
-- whatever the backend answers in between.
use mathlib.Core.List.{append-nil, append_assoc}
use serverwall.Base.{
  ℕ, zero, suc, ◌+◌, ◌≡◌, refl, ◌∙◌, ap, sym, List, [], ◌∷◌, ◌++◌, true, false, All, Text, codes,
  drop, length, map, arith, if_both,
}
use serverwall.Core.Types.{IpAddr}
use serverwall.Antispam.Score.{SpamReport}
use serverwall.Proxy.Smtp.Transfer.{transfer}
use serverwall.Proxy.Smtp.Forward.{
  SmtpHeadersConfig, Dialogue, read_from, read_line, write_all, is_last, ehlo_from, read_ehlo,
  exchange, exchange_all, header_line, injected_headers, mail_command, rcpt_command, dialogue,
}

-- The line at a position, and an empty one past the end.
abbrev pub line_at : ℕ → List Text → Text
line_at n [] = []
line_at zero (line ∷ lines) = line
line_at (suc n) (line ∷ lines) = line_at n lines

line_at-drop : (n k : ℕ) (lines : List Text) → line_at k (drop n lines) ≡ line_at (n + k) lines
line_at-drop zero k lines = let e : k ≡ zero + k = omega arith in ap (λ i. line_at i lines) e
line_at-drop (suc n) k [] = refl
line_at-drop (suc n) k (line ∷ lines) =
    let e : suc (n + k) ≡ suc n + k = omega arith in
    line_at-drop n k lines ∙ ap (λ i. line_at i (line ∷ lines)) e

read_from-written : (lines : List Text) (d : Dialogue) → (read_from lines d).1.written ≡ d.written
unfolding read_from
read_from-written [] d = refl
read_from-written (line ∷ lines) d = refl

read_from-line : (lines : List Text) (d : Dialogue) → (read_from lines d).0 ≡ line_at 0 lines
unfolding read_from
read_from-line [] d = refl
read_from-line (line ∷ lines) d = refl

read_from-replies :
    (lines : List Text) (d : Dialogue)
    → d.replies ≡ lines
    → (read_from lines d).1.replies ≡ drop 1 lines
unfolding read_from
read_from-replies [] d h = h
read_from-replies (line ∷ lines) d h = refl

exchange-written :
    (command : Text) (d : Dialogue) → (exchange command d).written ≡ d.written ++ (command ∷ [])
unfolding exchange read_line write_all
exchange-written command d = read_from-written d.replies _

exchange-replies : (command : Text) (d : Dialogue) → (exchange command d).replies ≡ drop 1 d.replies
unfolding exchange read_line write_all
exchange-replies command d = read_from-replies d.replies _ refl

exchange_all-written :
    (commands : List Text) (d : Dialogue)
    → (exchange_all commands d).written ≡ d.written ++ commands
unfolding exchange_all
exchange_all-written [] d = sym (append-nil d.written)
exchange_all-written (command ∷ commands) d =
    exchange_all-written commands (exchange command d)
    ∙ (ap (λ w. w ++ commands) (exchange-written command d)
        ∙ append_assoc d.written (command ∷ []) commands)

drop-drop_one : {A : Type 0} (n : ℕ) (xs : List A) → drop n (drop 1 xs) ≡ drop (suc n) xs
drop-drop_one zero [] = refl
drop-drop_one (suc n) [] = refl
drop-drop_one n (x ∷ xs) = refl

exchange_all-replies :
    (commands : List Text) (d : Dialogue)
    → (exchange_all commands d).replies ≡ drop (length commands) d.replies
unfolding exchange_all
exchange_all-replies [] d = refl
exchange_all-replies (command ∷ commands) d =
    exchange_all-replies commands (exchange command d)
    ∙ (ap (drop (length commands)) (exchange-replies command d)
        ∙ drop-drop_one (length commands) d.replies)

ehlo_from-written : (lines : List Text) (d : Dialogue) → (ehlo_from lines d).written ≡ d.written
unfolding ehlo_from
ehlo_from-written [] d = refl
ehlo_from-written (line ∷ lines) d =
    if_both {A = Dialogue} (λ e. e.written ≡ d.written) (is_last line) _ _ (λ _. refl)
      (λ _. ehlo_from-written lines _)

ehlo_from-replies :
    (ehlo : List Text) (last : Text) (rest : List Text) (d : Dialogue)
    → All (λ line. is_last line ≡ false) ehlo
    → is_last last ≡ true
    → (ehlo_from (ehlo ++ (last ∷ rest)) d).replies ≡ rest
unfolding ehlo_from
ehlo_from-replies [] last rest d h k = rw k refl
ehlo_from-replies (line ∷ ehlo) last rest d (h, hs) k =
    rw h (ehlo_from-replies ehlo last rest _ hs k)

length-map : {A B : Type 0} (f : A → B) (xs : List A) → length (map f xs) ≡ length xs
length-map f [] = refl
length-map f (x ∷ xs) = ap suc (length-map f xs)

-- The commands after the answer to EHLO, and the message.
module _ (mail : Text) (rcpts : List Text) (begin body : Text) (d : Dialogue) where
  abbrev sent : Dialogue
  sent = write_all body (exchange begin (exchange_all rcpts (exchange mail d)))

  sent-written : sent.written ≡ d.written ++ (mail ∷ (rcpts ++ (begin ∷ body ∷ [])))
  unfolding write_all
  sent-written =
      rw (exchange-written begin, exchange_all-written rcpts, exchange-written mail)
        (simp (append_assoc))

  sent_quit :
      (quit : Text)
      → (read_line sent).1.written ++ (quit ∷ [])
        ≡ d.written ++ (mail ∷ (rcpts ++ (begin ∷ body ∷ quit ∷ [])))
  unfolding read_line
  sent_quit quit =
      ap (λ w. w ++ (quit ∷ [])) (read_from-written sent.replies sent ∙ sent-written)
      ∙ simp (append_assoc)

  sent-line : (read_line sent).0 ≡ line_at (length rcpts + 2) d.replies
  unfolding read_line write_all
  sent-line =
      read_from-line sent.replies sent
      ∙ rw (exchange-replies begin, exchange_all-replies rcpts, exchange-replies mail)
          (line_at-drop 1 0 (drop (length rcpts) (drop 1 d.replies))
            ∙ (line_at-drop (length rcpts) 1 (drop 1 d.replies)
                ∙ (line_at-drop 1 (length rcpts + 1) d.replies
                    ∙ (let e : 1 + (length rcpts + 1) ≡ length rcpts + 2 = omega arith in
                        ap (λ i. line_at i d.replies) e))))

-- After the banner, with EHLO written.
module _ (hello banner : Text) (replies : List Text) where
  abbrev greeting : Dialogue
  greeting =
      write_all hello
        (read_line (record { replies = banner ∷ replies; written = []; bytes_from_backend = 0 })).1

  greeting-written : (read_ehlo greeting).written ≡ hello ∷ []
  unfolding read_ehlo write_all read_line read_from
  greeting-written = ehlo_from-written replies _

  greeting-replies : (read_ehlo greeting).replies ≡ (ehlo_from replies greeting).replies
  unfolding read_ehlo write_all read_line read_from
  greeting-replies = refl

module _ {F : Type 0} (show_ip : IpAddr → Text) (show_score : F → Text)
    (date hostname backend_tag : Text) (smtp_headers : SmtpHeadersConfig)
    (message_data mail_from : Text) (rcpt_to : List Text) (report : SpamReport F)
    (client_ip : IpAddr) where
  -- What the source writes, in its order.
  abbrev pub script : List Text
  script =
      (codes "EHLO " ++ (hostname ++ codes "\r\n"))
      ∷ (codes "MAIL FROM:<" ++ (mail_from ++ codes ">\r\n"))
      ∷ (map (λ rcpt. codes "RCPT TO:<" ++ (rcpt ++ codes ">\r\n")) rcpt_to
          ++ (codes "DATA\r\n"
              ∷ transfer
                  (map header_line (
                    injected_headers show_ip show_score date hostname backend_tag smtp_headers
                      report client_ip))
                  message_data
              ∷ codes "QUIT\r\n"
              ∷ []))

  -- Whatever the backend answers to the commands, refusals included, all of them, the message and
  -- QUIT are written, and the line passed on as the result is the one that comes, after the answer
  -- to EHLO, next to one line for each command; past the end of the stream it is empty.
  pub dialogue_blind :
      (banner : Text) (ehlo : List Text) (last : Text) (rest : List Text)
      → All (λ line. is_last line ≡ false) ehlo
      → is_last last ≡ true
      → let d =
          dialogue show_ip show_score date hostname backend_tag smtp_headers message_data mail_from
            rcpt_to report client_ip
            (banner ∷ (ehlo ++ (last ∷ rest))) in
        (d.1.written ≡ script) × (d.0 ≡ line_at (length rcpt_to + 2) rest)
  unfolding dialogue mail_command rcpt_command
  dialogue_blind banner ehlo last rest h k =
      let greeted =
        greeting (codes "EHLO " ++ (hostname ++ codes "\r\n")) banner (ehlo ++ (last ∷ rest)) in
      let mail = codes "MAIL FROM:<" ++ (mail_from ++ codes ">\r\n") in
      let rcpts = map rcpt_command rcpt_to in
      let begin = codes "DATA\r\n" in
      let body =
        transfer
          (map header_line (
            injected_headers show_ip show_score date hostname backend_tag smtp_headers report
              client_ip))
          message_data in
      (
        sent_quit mail rcpts begin body (read_ehlo greeted) (codes "QUIT\r\n")
            ∙ ap (λ w. w ++ (mail ∷ (rcpts ++ (begin ∷ body ∷ codes "QUIT\r\n" ∷ []))))
                (greeting-written (codes "EHLO " ++ (hostname ++ codes "\r\n")) banner
                  (ehlo ++ (last ∷ rest))),
        sent-line mail rcpts begin body (read_ehlo greeted)
            ∙ rw (
              greeting-replies (codes "EHLO " ++ (hostname ++ codes "\r\n")) banner
                  (ehlo ++ (last ∷ rest)),
              ehlo_from-replies ehlo last rest greeted h k,
              length-map rcpt_command rcpt_to,
            ),
      )
