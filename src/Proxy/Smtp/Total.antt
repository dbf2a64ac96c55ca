-- ===== src/Proxy/Smtp/Total.antt =====
-- The loop of the session and the lines that are left.
use serverwall.Base.{
  ℕ, zero, suc, ◌<◌, ◌≤◌, ◌≡◌, refl, List, [], ◌∷◌, Option, some, arith, Text, length,
}
use serverwall.Core.Types.{IpAddr}
use serverwall.Core.Smtp.{SmtpCommand, ehlo, mail_from, begin_data, quit, parse_command}
use serverwall.Antispam.Score.{FloatOps}
use serverwall.Proxy.Smtp.{
  Env, Session, Next, again, done, read_data, on_data, handle, command_loop, proxy, go_on, counted,
}

pub read_data-le : (lines : List Text) → length (read_data lines).1 ≤ length lines
unfolding read_data
read_data-le [] = omega arith
read_data-le (line ∷ lines) = ground (arith, read_data-le lines)

module _ {F : Type 0} (f : FloatOps F) (show_ip : IpAddr → Text) (env : Env F) where
  -- What a command leaves of the lines.
  abbrev pub LeavesAtMost : ℕ → Next F → Type 0
  LeavesAtMost n (again s rest) = length rest ≤ n
  LeavesAtMost n (done s) = Unit

  on_data_leaves :
      (lines : List Text) (s : Session F)
      → LeavesAtMost (length lines) (on_data f show_ip env lines s)
  unfolding on_data
  on_data_leaves lines s = ground (arith, read_data-le lines)

  pub handle_leaves :
      (c : SmtpCommand) (lines : List Text) (s : Session F)
      → LeavesAtMost (length lines) (handle f show_ip env c lines s)
  unfolding handle
  handle_leaves (ehlo d) lines s = omega arith
  handle_leaves (mail_from d) lines s = ground arith
  handle_leaves begin_data lines s = on_data_leaves lines s
  handle_leaves quit lines s = tt
  handle_leaves _ lines s = omega arith

  go_on_total :
      (n : Next F) (loop : List Text → Session F → Option (Session F)) (bound : ℕ)
      → LeavesAtMost bound n
      → ((rest : List Text) (s : Session F)
          → length rest ≤ bound
          → (t : Session F) × (loop rest s ≡ some t))
      → (t : Session F) × (go_on n loop ≡ some t)
  go_on_total (again s rest) loop bound le total = total rest s le
  go_on_total (done s) loop bound le total = (s, refl)

  loop_total :
      (fuel : ℕ) (lines : List Text) (s : Session F)
      → length lines < fuel
      → (t : Session F) × (command_loop f show_ip env fuel lines s ≡ some t)
  unfolding command_loop
  loop_total zero lines s h = elim h [ ]
  loop_total (suc fuel) [] s h = (s, refl)
  loop_total (suc fuel) (line ∷ lines) s h =
      go_on_total _ (command_loop f show_ip env fuel) (length lines)
        (handle_leaves (parse_command line) lines (counted line s))
        (λ rest t le. loop_total fuel rest t (omega arith))

  -- Every session ends, whatever the client sends and the checks and the backend answer.
  pub proxy_total : (lines : List Text) → (t : Session F) × (proxy f show_ip env lines ≡ some t)
  unfolding proxy
  proxy_total lines = loop_total (suc (length lines)) lines _ (omega arith)
